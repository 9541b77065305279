-- ===== src/BookJourney/View.antt =====
-- What BookJourney.tsx renders: the card of a result, or the form. The markup and its style classes
-- are left out, save for the colours that depend on the state.
pub mod Card
pub mod Map
pub mod Form
