-- ===== src/Delivery.antt =====
-- shared/messaging.py with the tables behind it: how a consumer writes the rows of an event. Each row
-- is committed on its own; an exception requeues the message, and the whole event is handled again.
pub mod Repeats
use distributed_traffic_serv.Base.{ℕ, zero, suc, Bool, true, false, List, [], ◌∷◌, if◌then◌else◌}

module _ {ℓ} {A : Type ℓ} where
  -- The loop over the rows of an event, where the database takes so many before it fails: the table,
  -- and whether the handler came to its end.
  unfoldable pub record_all : (takes : ℕ) (rows table : List A) → List A × Bool
  record_all takes [] table = (table, true)
  record_all zero (row ∷ rows) table = (table, false)
  record_all (suc takes) (row ∷ rows) table = record_all takes rows (row ∷ table)

  -- The deliveries of one message, each with what the database takes, up to the first that ends.
  unfoldable pub deliver : (attempts : List ℕ) (rows table : List A) → List A × Bool
  unfolding record_all
  deliver [] rows table = (table, false)
  deliver (takes ∷ attempts) rows table =
      let again = deliver attempts rows (record_all takes rows table).0 in
      if (record_all takes rows table).1 then ((record_all takes rows table).0, true) else again
