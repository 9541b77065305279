-- ===== src/MyJourneys/Counting.antt =====
-- The numbers that the pills of MyJourneys.tsx show.
use text.Mathlib.TextLemmas.{append-nil}
use distributed_traffic_serv.Base.{
  ◌<>◌, nat_eq, not, ℕ, suc, ◌+◌, ◌≡◌, refl, ap, String, List, [], ◌∷◌, ◌==◌, string_eq,
  if◌then◌else◌, Bool-cases, inl, inr, filter, count, length, length-filter, nullish, lookup,
  eq_iff, arith,
}
use distributed_traffic_serv.Base.Numeral.{to_decimal}
use distributed_traffic_serv.Api.Bookings.{BookingOut}
use distributed_traffic_serv.MyJourneys.State.{
  FilterType, all, only_confirmed, only_pending, only_cancelled, only_rejected, filter_name,
  status_name, Journeys, set_filter, filtered, bump, tally, counts,
}
use distributed_traffic_serv.MyJourneys.View.{filter_pill}

abbrev entry : String → List (String × ℕ) → ℕ
unfolding lookup
entry k m = nullish (lookup k m) 0

lookup-bump :
    (j k : String) (m : List (String × ℕ))
    → entry k (bump j m) ≡ (if j == k then suc (entry k m) else entry k m)
unfolding lookup bump
lookup-bump j k [] = ground arith
lookup-bump j k ((i, n) ∷ m) = elim (Bool-cases (i == j)) [
  | inl e ↦
      let same : (i == k) ≡ (j == k) = ap (λ x. x == k) ((eq_iff i j).0 e) in
      rw e (ground (arith, same))
  | inr e ↦ rw e (ground (arith, lookup-bump j k m, eq_iff i j, eq_iff i k, eq_iff j k))
]

lookup-tally :
    (k : String) (acc : List (String × ℕ)) (bs : List BookingOut)
    → entry k (tally acc bs) ≡ entry k acc + count (λ b. status_name b.status == k) bs
unfolding tally count
lookup-tally k acc [] = omega arith
lookup-tally k acc (b ∷ bs) = ground (
  arith,
  lookup-tally k (bump (status_name b.status) acc) bs,
  lookup-bump (status_name b.status) k acc,
)

counts-count :
    (s : Journeys) (k : String)
    → counts s k ≡ length (filter (λ b. status_name b.status == k) s.bookings)
unfolding counts
counts-count s k =
    omega (
      arith,
      lookup-tally k [] s.bookings,
      length-filter (λ b. status_name b.status == k) s.bookings,
    )

-- The number behind the name of a status: nothing is written for none.
abbrev numbered : ℕ → String
numbered n = if not (n == 0) then " (" <> (to_decimal n <> ")") else ""

-- What a pill is meant to say of the number of bookings that its filter shows.
abbrev pub pill_text : FilterType → ℕ → String
pill_text all n = "All (" <> (to_decimal n <> ")")
pill_text only_confirmed n = "Confirmed" <> numbered n
pill_text only_pending n = "Pending" <> numbered n
pill_text only_cancelled n = "Cancelled" <> numbered n
pill_text only_rejected n = "Rejected" <> numbered n

-- A pill says its filter's name and the number of bookings that the list has once this filter is
-- chosen; of the filters of one status, those with none say the name alone.
pub filter_pill-text :
    (s : Journeys) (f : FilterType)
    → (filter_pill s f).text ≡ pill_text f (length (filtered (set_filter f s)))
unfolding filter_pill filtered filter_name lookup
filter_pill-text s all = append-nil ("All (" <> (to_decimal (length s.bookings) <> ")"))
filter_pill-text s only_confirmed = rw (counts-count s "CONFIRMED") refl
filter_pill-text s only_pending = rw (counts-count s "PENDING") refl
filter_pill-text s only_cancelled = rw (counts-count s "CANCELLED") refl
filter_pill-text s only_rejected = rw (counts-count s "REJECTED") refl
