-- ===== src/VerificationService/Gathering.antt =====
-- What `gathered` makes of the outcomes of the tasks of a batch.
use mathlib.Core.List.{Memᴰ}
use distributed_traffic_serv.Base.{
  ◌≡◌, refl, sym, ap, Option, none, some, List, [], ◌∷◌, map, length, Option-cases, inl, inr, arith,
}
use distributed_traffic_serv.VerificationService.Routes.{gathered}

pub gathered-some {ℓ} :
    {A : Type ℓ} (outcomes : List (Option A)) (values : List A)
    → gathered outcomes ≡ some values
    → outcomes ≡ map some values
unfolding gathered
gathered-some [] values e = let same : [] ≡ values = cc in rw (← same) refl
gathered-some (none ∷ rest) values e = cc
gathered-some (some a ∷ rest) values e = elim (Option-cases (gathered rest)) [
  | inl k ↦ absurd (ground (arith, e, k))
  | inr (bs, k) ↦
      let same : a ∷ bs ≡ values = ground (arith, e, k) in
      rw (← same) (ap (λ t. some a ∷ t) (gathered-some rest bs k))
]

pub gathered-none {ℓ} :
    {A : Type ℓ} (outcomes : List (Option A)) → gathered outcomes ≡ none → Memᴰ none outcomes
unfolding gathered
gathered-none [] e = cc
gathered-none (none ∷ rest) e = Memᴰ.head refl
gathered-none (some a ∷ rest) e = elim (Option-cases (gathered rest)) [
  | inl k ↦ Memᴰ.tail (gathered-none rest k)
  | inr (bs, k) ↦ absurd (ground (arith, e, k))
]

length-somes {ℓ} : {A : Type ℓ} (values : List A) → length (map some values) ≡ length values
length-somes [] = refl
length-somes (a ∷ values) = omega (arith, length-somes values)

pub length-gathered {ℓ} :
    {A : Type ℓ} (outcomes : List (Option A)) (values : List A)
    → gathered outcomes ≡ some values
    → length values ≡ length outcomes
length-gathered outcomes values e = rw (gathered-some outcomes values e) (sym (length-somes values))
