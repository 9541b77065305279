-- ===== src/Delivery/Repeats.antt =====
-- What the deliveries of a message leave in the table.
use distributed_traffic_serv.Base.{
  ℕ, zero, suc, ◌+◌, ◌≤◌, ◌<◌, ◌≡◌, refl, Bool, true, false, List, [], ◌∷◌, length, count,
  Bool-cases, inl, inr, arith,
}
use distributed_traffic_serv.Delivery.{record_all, deliver}

module _ {ℓ} {A : Type ℓ} where
  -- An attempt that ends has written each row once.
  pub count-record_all :
      (p : A → Bool) (takes : ℕ) (rows table : List A)
      → (record_all takes rows table).1 ≡ true
      → count p (record_all takes rows table).0 ≡ count p rows + count p table
  unfolding record_all count
  count-record_all p takes [] table h = omega arith
  count-record_all p zero (row ∷ rows) table h = cc
  count-record_all p (suc takes) (row ∷ rows) table h =
      ground (arith, count-record_all p takes rows (row ∷ table) h)

  -- No attempt takes a row away.
  count-le-record_all :
      (p : A → Bool) (takes : ℕ) (rows table : List A)
      → count p table ≤ count p (record_all takes rows table).0
  unfolding record_all count
  count-le-record_all p takes [] table = omega arith
  count-le-record_all p zero (row ∷ rows) table = omega arith
  count-le-record_all p (suc takes) (row ∷ rows) table =
      ground (arith, count-le-record_all p takes rows (row ∷ table))

  -- Once a message is handled to its end, the table has each row of its event at least once more,
  -- whatever the attempts in front came to.
  pub deliver-at_least_once :
      (p : A → Bool) (attempts : List ℕ) (rows table : List A)
      → (deliver attempts rows table).1 ≡ true
      → count p rows + count p table ≤ count p (deliver attempts rows table).0
  unfolding deliver
  deliver-at_least_once p [] rows table h = cc
  deliver-at_least_once p (takes ∷ attempts) rows table h =
      elim (Bool-cases (record_all takes rows table).1) [
        | inl e ↦ let done = count-record_all p takes rows table e in rw (e, deliver) (omega arith)
        | inr e ↦
            let more : (deliver attempts rows (record_all takes rows table).0).1 ≡ true =
              ground (arith, h, e) in
            let rest = deliver-at_least_once p attempts rows (record_all takes rows table).0 more in
            let kept = count-le-record_all p takes rows table in rw (e, deliver) (omega arith)
      ]

  -- The database takes them all.
  pub record_all-ends :
      (takes : ℕ) (rows table : List A)
      → length rows ≤ takes
      → (record_all takes rows table).1 ≡ true
  unfolding record_all
  record_all-ends takes [] table h = refl
  record_all-ends zero (row ∷ rows) table h = absurd (omega arith)
  record_all-ends (suc takes) (row ∷ rows) table h =
      record_all-ends takes rows (row ∷ table) (omega arith)

  record_all-stops :
      (takes : ℕ) (rows table : List A)
      → takes < length rows
      → ((record_all takes rows table).1 ≡ false)
        × (length (record_all takes rows table).0 ≡ takes + length table)
  unfolding record_all
  record_all-stops takes [] table h = absurd (omega arith)
  record_all-stops zero (row ∷ rows) table h = (refl, omega arith)
  record_all-stops (suc takes) (row ∷ rows) table h =
      let rest = record_all-stops takes rows (row ∷ table) (omega arith) in
      (rest.0, omega (arith, rest.1))

  length-record_all :
      (takes : ℕ) (rows table : List A)
      → length rows ≤ takes
      → length (record_all takes rows table).0 ≡ length rows + length table
  unfolding record_all
  length-record_all takes [] table h = omega arith
  length-record_all zero (row ∷ rows) table h = absurd (omega arith)
  length-record_all (suc takes) (row ∷ rows) table h =
      omega (arith, length-record_all takes rows (row ∷ table) (omega arith))

  pub deliver-once :
      (takes : ℕ) (attempts : List ℕ) (rows table : List A)
      → length rows ≤ takes
      → deliver (takes ∷ attempts) rows table ≡ ((record_all takes rows table).0, true)
  unfolding deliver
  deliver-once takes attempts rows table h = rw (record_all-ends takes rows table h, deliver) refl

  -- Where the database fails behind some rows of an event and takes them all at the next delivery,
  -- those rows are in the table twice.
  pub deliver-repeats :
      (fails takes : ℕ) (rows table : List A)
      → fails < length rows
      → length rows ≤ takes
      → ((deliver (fails ∷ takes ∷ []) rows table).1 ≡ true)
        × (length (deliver (fails ∷ takes ∷ []) rows table).0 ≡ fails + length rows + length table)
  unfolding deliver
  deliver-repeats fails takes rows table h k =
      let left : List A = (record_all fails rows table).0 in
      let stops = record_all-stops fails rows table h in
      let ends = record_all-ends takes rows left k in
      let whole = length-record_all takes rows left k in
      rw (stops.0, deliver) (rw (ends, deliver) (refl, omega (arith, stops.1)))
