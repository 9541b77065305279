-- ===== src/Base/Sort.antt =====
-- `Array.prototype.sort(compare)`: a stable sort. `after x y` says that `compare(x, y) > 0`, that
-- is, that `x` has to stand behind `y`.
use Prim.Native.Nat.{ℕ, zero, suc}
use native.Mathlib.Omega.{arith}
use mathlib.Core.Path.{◌≡◌, refl, ap, ◌∙◌}
use mathlib.Core.Bool.{Bool, true, false}
use mathlib.Core.Logic.{◌⊎◌, inl, inr}
use mathlib.Core.List.{List, [], ◌∷◌, Perm, Memᴰ}
use mathlib.Core.List.Perm
use distributed_traffic_serv.Base.Tests.{if◌then◌else◌, Bool-cases}
use distributed_traffic_serv.Base.Lists.{All, All-take, take, length}

module _ {ℓ} {A : Type ℓ} (after : A → A → Bool) where
  unfoldable pub insert_sorted : A → List A → List A
  insert_sorted x [] = x ∷ []
  insert_sorted x (y ∷ ys) =
      let rest = insert_sorted x ys in if after x y then y ∷ rest else x ∷ y ∷ ys

  unfoldable pub sort_by : List A → List A
  sort_by [] = []
  sort_by (x ∷ xs) = insert_sorted x (sort_by xs)

  -- No element has to stand behind one that follows it.
  abbrev pub InOrder : List A → Type 0
  InOrder [] = Unit
  InOrder (x ∷ xs) = All (λ y. after x y ≡ false) xs × InOrder xs

  insert_sorted-All {κ} :
      (P : A → Type κ) (x : A) (ys : List A) → P x → All P ys → All P (insert_sorted x ys)
  unfolding insert_sorted
  insert_sorted-All P x [] p h = (p, tt)
  insert_sorted-All P x (y ∷ ys) p (q, h) = elim (Bool-cases (after x y)) [
    | inl e ↦ rw e (q, insert_sorted-All P x ys p h)
    | inr e ↦ rw e (p, (q, h))
  ]

  -- The order of the keys, reversed and made strict, is a strict weak order.
  module _ (asym : (x y : A) → after x y ≡ true → after y x ≡ false)
      (trans : (x y z : A) → after x y ≡ false → after y z ≡ false → after x z ≡ false) where
    All-not-after :
        (x y : A) (ys : List A)
        → after x y ≡ false
        → All (λ z. after y z ≡ false) ys
        → All (λ z. after x z ≡ false) ys
    All-not-after x y [] e h = tt
    All-not-after x y (z ∷ zs) e (q, h) = (trans x y z e q, All-not-after x y zs e h)

    insert_sorted-InOrder : (x : A) (ys : List A) → InOrder ys → InOrder (insert_sorted x ys)
    unfolding insert_sorted
    insert_sorted-InOrder x [] h = (tt, tt)
    insert_sorted-InOrder x (y ∷ ys) (q, h) = elim (Bool-cases (after x y)) [
      | inl e ↦ rw e (
        insert_sorted-All (λ z. after y z ≡ false) x ys (asym x y e) q,
        insert_sorted-InOrder x ys h,
      )
      | inr e ↦ rw e ((e, All-not-after x y ys e q), (q, h))
    ]

    pub sort_by-InOrder : (xs : List A) → InOrder (sort_by xs)
    unfolding sort_by
    sort_by-InOrder [] = tt
    sort_by-InOrder (x ∷ xs) = insert_sorted-InOrder x (sort_by xs) (sort_by-InOrder xs)

  insert_sorted-perm : (x : A) (ys : List A) → Perm (insert_sorted x ys) (x ∷ ys)
  unfolding insert_sorted
  insert_sorted-perm x [] = Perm.refl _
  insert_sorted-perm x (y ∷ ys) = elim (Bool-cases (after x y)) [
    | inl e ↦ rw e (Perm.trans (Perm.cons y (insert_sorted-perm x ys)) (Perm.swap x y ys))
    | inr e ↦ rw e (Perm.refl _)
  ]

  pub sort_by-perm : (xs : List A) → Perm (sort_by xs) xs
  unfolding sort_by
  sort_by-perm [] = Perm.refl _
  sort_by-perm (x ∷ xs) =
      Perm.trans (insert_sorted-perm x (sort_by xs)) (Perm.cons x (sort_by-perm xs))

  pub sort_by-All {κ} : (P : A → Type κ) (xs : List A) → All P xs → All P (sort_by xs)
  unfolding sort_by
  sort_by-All P [] h = tt
  sort_by-All P (x ∷ xs) (p, h) = insert_sorted-All P x (sort_by xs) p (sort_by-All P xs h)

  pub InOrder-take : (n : ℕ) (xs : List A) → InOrder xs → InOrder (take n xs)
  InOrder-take zero xs h = tt
  InOrder-take (suc n) [] h = tt
  InOrder-take (suc n) (x ∷ xs) (q, h) =
      (All-take (λ y. after x y ≡ false) n xs q, InOrder-take n xs h)

  mem-insert_sorted :
      {a : A} (x : A) (ys : List A) → (a ≡ x) ⊎ Memᴰ a ys → Memᴰ a (insert_sorted x ys)
  unfolding insert_sorted
  mem-insert_sorted x [] (inl e) = Memᴰ.head e
  mem-insert_sorted x [] (inr m) = elim m [ ]
  mem-insert_sorted x (y ∷ ys) (inl e) = elim (Bool-cases (after x y)) [
    | inl t ↦ rw t (Memᴰ.tail (mem-insert_sorted x ys (inl e)))
    | inr t ↦ rw t (Memᴰ.head e)
  ]
  mem-insert_sorted x (y ∷ ys) (inr (Memᴰ.head e)) = elim (Bool-cases (after x y)) [
    | inl t ↦ rw t (Memᴰ.head e)
    | inr t ↦ rw t (Memᴰ.tail (Memᴰ.head e))
  ]
  mem-insert_sorted x (y ∷ ys) (inr (Memᴰ.tail m)) = elim (Bool-cases (after x y)) [
    | inl t ↦ rw t (Memᴰ.tail (mem-insert_sorted x ys (inr m)))
    | inr t ↦ rw t (Memᴰ.tail (Memᴰ.tail m))
  ]

  pub mem-sort_by : {a : A} (xs : List A) → Memᴰ a xs → Memᴰ a (sort_by xs)
  unfolding sort_by
  mem-sort_by [] m = elim m [ ]
  mem-sort_by (x ∷ xs) (Memᴰ.head e) = mem-insert_sorted x (sort_by xs) (inl e)
  mem-sort_by (x ∷ xs) (Memᴰ.tail m) = mem-insert_sorted x (sort_by xs) (inr (mem-sort_by xs m))

  length-insert_sorted : (x : A) (ys : List A) → length (insert_sorted x ys) ≡ suc (length ys)
  unfolding insert_sorted
  length-insert_sorted x [] = refl
  length-insert_sorted x (y ∷ ys) = ground (arith, length-insert_sorted x ys)

  pub length-sort_by : (xs : List A) → length (sort_by xs) ≡ length xs
  unfolding sort_by
  length-sort_by [] = refl
  length-sort_by (x ∷ xs) =
      length-insert_sorted x (sort_by xs) ∙ ap (λ n. suc n) (length-sort_by xs)
