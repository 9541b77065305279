-- ===== src/BookingService/Passes.antt =====
-- The loops of the reconciler over the rows that a query has found.
use distributed_traffic_serv.Base.{
  ◌≡◌, refl, String, Bool, false, not, ◌&&◌, List, [], ◌∷◌, All, All-imp, map, filter, includes,
  Bool-cases, inl, inr, ◌==◌, string_eq, eq_refl, eq_iff, arith,
}
use distributed_traffic_serv.BookingService.Store.{Db}
use distributed_traffic_serv.BookingService.Reconciler.{each}

pub same_sym : (a b : String) → (a == b) ≡ (b == a)
same_sym a b = elim (Bool-cases (a == b)) [
  | inl e ↦ let same : a ≡ b = (eq_iff a b).0 e in rw same refl
  | inr e ↦ elim (Bool-cases (b == a)) [
    | inl f ↦ let same : b ≡ a = (eq_iff b a).0 f in rw same refl
    | inr f ↦ rw e (rw f refl)
  ]
]

pub All-map {ℓ κ μ} :
    {A : Type ℓ} {B : Type κ} (P : B → Type μ) (f : A → B) (xs : List A)
    → All (λ a. P (f a)) xs
    → All P (map f xs)
All-map P f [] h = tt
All-map P f (x ∷ xs) (p, h) = (p, All-map P f xs h)

pub filter-none {ℓ} :
    {A : Type ℓ} (p : A → Bool) (xs : List A) → All (λ a. p a ≡ false) xs → filter p xs ≡ []
unfolding filter
filter-none p [] h = refl
filter-none p (x ∷ xs) (e, h) = rw e (filter-none p xs h)

-- Where the transaction of each row keeps a property, the loop does; so it does where only those of
-- the rows that are found do.
pub each-keeps-on {ℓ κ} :
    (Q : String → Type κ) (P : Db → Type ℓ) (f : String → Db → Db)
    → ((id : String) (db : Db) → Q id → P db → P (f id db))
    → (ids : List String) (db : Db) → All Q ids
    → P db
    → P (each f ids db)
unfolding each
each-keeps-on Q P f keeps [] db q h = h
each-keeps-on Q P f keeps (id ∷ rest) db (q, qs) h =
    each-keeps-on Q P f keeps rest (f id db) qs (keeps id db q h)

pub each-keeps {ℓ} :
    (P : Db → Type ℓ) (f : String → Db → Db)
    → ((id : String) (db : Db) → P db → P (f id db))
    → (ids : List String) (db : Db) → P db
    → P (each f ids db)
unfolding each
each-keeps P f keeps [] db h = h
each-keeps P f keeps (id ∷ rest) db h = each-keeps P f keeps rest (f id db) (keeps id db h)

-- Each row that a query finds is listed.
pub all_listed {ℓ} :
    {A : Type ℓ} (p : A → Bool) (key : A → String) (xs : List A)
    → All (λ a. (p a && not (includes (map key (filter p xs)) (key a))) ≡ false) xs
unfolding filter includes
all_listed p key [] = tt
all_listed p key (x ∷ xs) = elim (Bool-cases (p x)) [
  | inl e ↦ (
    rw (e, filter) (rw (eq_refl (key x)) refl),
    All-imp (λ a k. rw e (ground (arith, k))) xs (all_listed p key xs),
  )
  | inr e ↦ (rw e refl, All-imp (λ a k. rw e k) xs (all_listed p key xs))
]

module _ {ℓ} {A : Type ℓ} (rows : Db → List A) (bad : Db → A → Bool) (key : A → String) where
  -- Every bad row has its key in the list.
  abbrev pub Listed : List String → Db → Type 0
  Listed ids db = All (λ a. (bad db a && not (includes ids (key a))) ≡ false) (rows db)

  -- Where the transaction of each key takes it off the list, the loop leaves no bad row.
  pub each-clears :
      (f : String → Db → Db)
      → ((id : String) (rest : List String) (db : Db)
          → Listed (id ∷ rest) db
          → Listed rest (f id db))
      → (ids : List String) (db : Db) → Listed ids db
      → All (λ a. bad (each f ids db) a ≡ false) (rows (each f ids db))
  unfolding each includes
  each-clears f step [] db h = All-imp (λ a e. ground arith) (rows db) h
  each-clears f step (id ∷ rest) db h = each-clears f step rest (f id db) (step id rest db h)
