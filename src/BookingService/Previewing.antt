-- ===== src/BookingService/Previewing.antt =====
-- A preview shows the route that a booking reserves.
use mathlib.Core.Path.{subst}
use distributed_traffic_serv.Base.{
  ℕ, ◌≡◌, ◌⊎◌, refl, sym, ap, ◌∙◌, String, true, false, ◌||◌, Option, none, some, is_some, List, [],
  ◌∷◌, ◌++◌, ◌==◌, string_eq, includes, last?, map, All, Bool-cases, Option-cases, inl, inr, eq_iff,
  eq_refl, arith,
}
use distributed_traffic_serv.BookingService.Store.{Schema, schema_of}
use distributed_traffic_serv.BookingService.Saga.{RouteSegment}
use distributed_traffic_serv.BookingService.Service.{Route, found, not_found, empty}
use distributed_traffic_serv.BookingService.Preview.{
  PreviewSegment, Preview, available, unavailable, raised, extend_chain, preview_segment,
  shown_first, preview_segments, previewed, preview_route,
}

-- No two neighbours are equal.
abbrev pub NoRepeat : List String → Type 0
NoRepeat [] = Unit
NoRepeat (x ∷ []) = Unit
NoRepeat (x ∷ y ∷ rest) = ((x == y) ≡ false) × NoRepeat (y ∷ rest)

NoRepeat-append :
    (xs : List String) (region : String)
    → ((last : String) → last? xs ≡ some last → (last == region) ≡ false)
    → NoRepeat xs
    → NoRepeat (xs ++ (region ∷ []))
NoRepeat-append [] region differs h = tt
NoRepeat-append (x ∷ []) region differs h = (differs x refl, tt)
NoRepeat-append (x ∷ y ∷ rest) region differs (m, h) =
    (m, NoRepeat-append (y ∷ rest) region differs h)

includes-append :
    (xs : List String) (x y : String) → includes (xs ++ (x ∷ [])) y ≡ (includes xs y || x == y)
unfolding includes
includes-append [] x y = ground arith
includes-append (z ∷ xs) x y = ground (arith, includes-append xs x y)

last-includes : (xs : List String) (last : String) → last? xs ≡ some last → includes xs last ≡ true
unfolding includes
last-includes [] last e = absurd (ground (arith, e))
last-includes (x ∷ []) last e =
    let same : x ≡ last = ground (arith, e) in rw same (rw (eq_refl last) refl)
last-includes (x ∷ y ∷ rest) last e = ground (arith, last-includes (y ∷ rest) last e)

abbrev Extended : List String → String → List String → Type 0
Extended chain region chain' =
    ((chain' ≡ chain) × (last? chain ≡ some region))
    ⊎ ((chain' ≡ chain ++ (region ∷ []))
        × ((last : String) → last? chain ≡ some last → (last == region) ≡ false))

extend_chain-Extended :
    (chain : List String) (region : String) → Extended chain region (extend_chain chain region)
unfolding extend_chain
extend_chain-Extended chain region = elim (Option-cases (last? chain)) [
  | inl e ↦ inr (rw (e, extend_chain) refl, λ last f. absurd (ground (arith, e, f)))
  | inr (last, e) ↦ elim (Bool-cases (last == region)) [
    | inl t ↦
        let same : last ≡ region = (eq_iff last region).0 t in
        inl (rw (e, extend_chain) (rw t refl), rw (← same) e)
    | inr t ↦ inr (
      rw (e, extend_chain) (rw t refl),
      λ other f. let found_ : last ≡ other = ground (arith, e, f) in rw (← found_) t,
    )
  ]
]

-- No neighbours are equal still.
extend_chain-NoRepeat :
    (chain : List String) (region : String) → NoRepeat chain → NoRepeat (extend_chain chain region)
extend_chain-NoRepeat chain region h = elim (extend_chain-Extended chain region) [
  | inl (same, e) ↦ subst NoRepeat (sym same) h
  | inr (more, differs) ↦ subst NoRepeat (sym more) (NoRepeat-append chain region differs h)
]

-- What the chain has stays, and the region of the segment is in it.
extend_chain-includes :
    (chain : List String) (region r : String)
    → (includes chain r || region == r) ≡ true
    → includes (extend_chain chain region) r ≡ true
extend_chain-includes chain region r h = elim (extend_chain-Extended chain region) [
  | inl (same, e) ↦ rw same (elim (Bool-cases (region == r)) [
    | inl t ↦
        let here : region ≡ r = (eq_iff region r).0 t in rw (← here) (last-includes chain region e)
    | inr t ↦ ground (arith, h, t)
  ])
  | inr (more, differs) ↦ rw more (includes-append chain region r ∙ h)
]

-- What identifies a segment in a slot.
abbrev pub Slot : Type 0
Slot = String × String × ℕ × ℕ

abbrev pub slot_of : RouteSegment → Slot
slot_of s = (s.segment_id, s.region, s.slot_start, s.slot_end)

abbrev pub shown_slot : PreviewSegment → Slot
shown_slot s = (s.segment_id, s.region, s.slot_start, s.slot_end)

-- Every region of the route is known.
abbrev pub AllKnown : List RouteSegment → Type 0
AllKnown route = All (λ seg. is_some (schema_of seg.region) ≡ true) route

abbrev Shows : List String → List RouteSegment → Option (List String × List PreviewSegment) → Type 0
Shows begun route none = ¬ AllKnown route
Shows begun route (some (chain, segments)) =
    (map shown_slot segments ≡ map slot_of route)
    × NoRepeat chain
    × ((r : String) → includes begun r ≡ true → includes chain r ≡ true)
    × All (λ seg. includes chain seg.region ≡ true) route

shown_first-Shows :
    (chain : List String) (name : Option String) (seg : RouteSegment) (rest : List RouteSegment)
    (more : Option (List String × List PreviewSegment))
    → Shows (extend_chain chain seg.region) rest more
    → Shows chain (seg ∷ rest) (shown_first (preview_segment name seg) more)
shown_first-Shows chain name seg rest none h = λ known. h known.1
shown_first-Shows chain name seg rest (some (done, segments)) (same, apart, kept, all) = (
  ap (λ slots. slot_of seg ∷ slots) same,
  apart,
  (λ r i. kept r (extend_chain-includes chain seg.region r (ground (arith, i)))),
  (
    kept seg.region
        (extend_chain-includes chain seg.region seg.region (ground (arith, eq_refl seg.region))),
    all,
  ),
)

preview_segments-Shows :
    (names : Schema → String → Option String) (chain : List String) (route : List RouteSegment)
    → NoRepeat chain
    → Shows chain route (preview_segments names chain route)
unfolding preview_segments
preview_segments-Shows names chain [] h = (refl, h, (λ r i. i), tt)
preview_segments-Shows names chain (seg ∷ rest) h =
    let more =
      preview_segments-Shows names (extend_chain chain seg.region) rest
        (extend_chain-NoRepeat chain seg.region h) in
    elim (Option-cases (schema_of seg.region)) [
      | inl e ↦ rw (e, preview_segments) (λ known. absurd (ground (arith, known.0, e)))
      | inr (schema, e) ↦
          rw (e, preview_segments)
            (shown_first-Shows chain (names schema seg.segment_id) seg rest
              (preview_segments names (extend_chain chain seg.region) rest) more)
    ]

-- What a preview says of a route.
abbrev pub IsPreviewOf : Route → Preview → Type 0
IsPreviewOf (found route minutes) (available shown_minutes chain segments) =
    (shown_minutes ≡ minutes)
    × (map shown_slot segments ≡ map slot_of route)
    × NoRepeat chain
    × All (λ seg. includes chain seg.region ≡ true) route
IsPreviewOf (found route minutes) (unavailable reason) = route ≡ []
IsPreviewOf (found route minutes) raised = ¬ AllKnown route
IsPreviewOf _ (unavailable reason) = Unit
IsPreviewOf _ _ = ⊥

previewed-IsPreviewOf :
    (minutes : ℕ) (route : List RouteSegment) (out : Option (List String × List PreviewSegment))
    → Shows [] route out
    → IsPreviewOf (found route minutes) (previewed minutes out)
previewed-IsPreviewOf minutes route none h = h
previewed-IsPreviewOf minutes route (some (chain, segments)) (same, apart, kept, all) =
    (refl, same, apart, all)

-- A preview of a route shows its minutes and its segments with their slots, in order, and a chain of
-- regions in which none follows itself and that has every region of the route; it says that there is
-- no route only where there is none; and it raises only at a region that is not known.
pub preview_route-IsPreviewOf :
    (names : Schema → String → Option String) (route : Route)
    → IsPreviewOf route (preview_route names route)
unfolding preview_route
preview_route-IsPreviewOf names (found [] minutes) = refl
preview_route-IsPreviewOf names (found (seg ∷ rest) minutes) =
    previewed-IsPreviewOf minutes (seg ∷ rest) (preview_segments names [] (seg ∷ rest))
      (preview_segments-Shows names [] (seg ∷ rest) tt)
preview_route-IsPreviewOf names not_found = tt
preview_route-IsPreviewOf names empty = tt
