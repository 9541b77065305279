-- ===== src/BookingService/Commitment.antt =====
-- The loop of the saga, where it raises nothing, comes to the transaction of Atomic.
use mathlib.Core.Path.{subst}
use mathlib.Core.List.{append-nil, append_assoc}
use distributed_traffic_serv.Base.{
  ℕ, ◌≡◌, refl, sym, ap, ◌∙◌, true, false, Option, none, some, List, [], ◌∷◌, ◌++◌, All, Bool-cases,
  Option-cases, inl, inr, ◌==◌, nat_eq, eqb_iff, is_some, arith,
}
use distributed_traffic_serv.BookingService.Atomic.{add_row, book_segment, book_route}
use distributed_traffic_serv.BookingService.Store.{Schema, schema_of, Db}
use distributed_traffic_serv.BookingService.Capacity.{Capacity, check_capacity, reserve_segment}
use distributed_traffic_serv.BookingService.Peer.{
  Lock, acquired, held, redis_down, PeerReserveRequest, peer_row, refuses, is_full, committed,
  reserve_within, reserve_in, peer_reserve,
}
use distributed_traffic_serv.BookingService.Saga.{
  RouteSegment, Config, Link, answered, answer_lost, request_lost, answer_broken, SagaError, Env,
  Job, Progress, local_row, is_local, written, reserve_local, peer_request, heard, reserve_remote,
  reserve_known, reserve_one, reserve_all,
}

-- The peer that answers 201 has added the row of the request.
reserve_within-row :
    (schema : Schema) (req : PeerReserveRequest) (db : Db) (cap : Option Capacity)
    → (reserve_within schema req db cap).0 ≡ 201
    → (reserve_within schema req db cap).1
      ≡ record db { reservations = peer_row schema req ∷ db.reservations }
unfolding reserve_within committed reserve_segment
reserve_within-row schema req db none h = absurd (ground (arith, h))
reserve_within-row schema req db (some cap) h = elim (Bool-cases (is_full cap)) [
  | inl full ↦ absurd (ground (arith, h, full))
  | inr room ↦ rw room (elim (Option-cases (reserve_segment (peer_row schema req) db)) [
    | inl e ↦ absurd (ground (arith, h, room, e))
    | inr (db', e) ↦ rw e (ground (arith, e))
  ])
]

reserve_in-row :
    (lock : Lock) (job : Job) (seg : RouteSegment) (schema : Option Schema) (db : Db)
    → (reserve_in lock (peer_request job seg) db schema).0 ≡ 201
    → (is_some schema ≡ true)
      × ((reserve_in lock (peer_request job seg) db schema).1 ≡ add_row job seg schema db)
unfolding reserve_in
reserve_in-row lock job seg none db h = absurd (ground (arith, h))
reserve_in-row acquired job seg (some schema) db h = (
  refl,
  reserve_within-row schema (peer_request job seg) db
      (check_capacity db schema seg.segment_id seg.slot_start) h,
)
reserve_in-row held job seg (some schema) db h = absurd (ground (arith, h))
reserve_in-row redis_down job seg (some schema) db h = absurd (ground (arith, h))

-- What a step that raises nothing comes to.
abbrev pub Booked : Config → Job → RouteSegment → Option Schema → Progress → Progress → Type 0
Booked config job seg schema p p' =
    (is_some schema ≡ true)
    × ((p'.here, p'.there) ≡ book_segment config job seg schema (p.here, p.there))
    × (p'.reserved ≡ p.reserved ++ (seg ∷ []))

reserve_local-Booked :
    (config : Config) (lock : Lock) (job : Job) (schema : Schema) (seg : RouteSegment)
    (p : Progress)
    → is_local config seg.region ≡ true
    → (reserve_local lock job schema seg p).1 ≡ none
    → Booked config job seg (some schema) p (reserve_local lock job schema seg p).0
unfolding reserve_local written reserve_segment
reserve_local-Booked config held job schema seg p local h = absurd (ground (arith, h))
reserve_local-Booked config redis_down job schema seg p local h = absurd (ground (arith, h))
reserve_local-Booked config acquired job schema seg p local h =
    elim (Bool-cases (refuses (check_capacity p.here schema seg.segment_id seg.slot_start))) [
      | inl full ↦ absurd (ground (arith, h, full))
      | inr room ↦ elim (Option-cases (reserve_segment (local_row job schema seg) p.here)) [
        | inl e ↦ absurd (ground (arith, h, room, e))
        | inr (db', e) ↦
            let same : record p.here {
              reservations = local_row job schema seg ∷ p.here.reservations;
            }
                ≡ db' =
              ground arith in
            rw room (rw e (rw local (rw (← same) (refl, refl, refl))))
      ]
    ]

heard-Booked :
    (config : Config) (job : Job) (seg : RouteSegment) (schema : Option Schema) (answer : ℕ × Db)
    (p : Progress)
    → is_local config seg.region ≡ false
    → (answer.0 ≡ 201 → (is_some schema ≡ true) × (answer.1 ≡ add_row job seg schema p.there))
    → (heard seg answer p).1 ≡ none
    → Booked config job seg schema p (heard seg answer p).0
unfolding heard
heard-Booked config job seg schema (code, there) p remote row h = elim (Bool-cases (code == 201)) [
  | inl e ↦
      let is_201 : code ≡ 201 = (eqb_iff code 201).0 e in
      let (known, same) = row is_201 in
      rw is_201 (rw remote (known, ap (λ t. (p.here, t)) same, refl))
  | inr e ↦ absurd (ground (arith, h, e))
]

reserve_remote-Booked :
    (config : Config) (link : Link) (lock : Lock) (job : Job) (seg : RouteSegment) (p : Progress)
    → is_local config seg.region ≡ false
    → (reserve_remote link lock job seg p).1 ≡ none
    → Booked config job seg (schema_of seg.region) p (reserve_remote link lock job seg p).0
unfolding reserve_remote peer_reserve
reserve_remote-Booked config request_lost lock job seg p remote h = absurd (ground (arith, h))
reserve_remote-Booked config answer_lost lock job seg p remote h = absurd (ground (arith, h))
reserve_remote-Booked config answer_broken lock job seg p remote h = absurd (ground (arith, h))
reserve_remote-Booked config answered lock job seg p remote h =
    heard-Booked config job seg (schema_of seg.region)
      (peer_reserve lock (peer_request job seg) p.there) p remote
      (λ ok. reserve_in-row lock job seg (schema_of seg.region) p.there ok) h

module _ (config : Config) (env : Env) (job : Job) where
  known_local :
      (seg : RouteSegment) (schema : Schema) (p : Progress)
      → is_local config seg.region ≡ true
      → reserve_known config env job seg (some schema) p
        ≡ reserve_local (env.lock seg) job schema seg p
  unfolding reserve_known
  known_local seg schema p e = rw e refl

  known_remote :
      (seg : RouteSegment) (schema : Schema) (p : Progress)
      → is_local config seg.region ≡ false
      → reserve_known config env job seg (some schema) p
        ≡ reserve_remote (env.link seg) (env.peer_lock seg) job seg p
  unfolding reserve_known
  known_remote seg schema p e = rw e refl

  -- What a step promises, of its outcome.
  abbrev BookedUnless :
      RouteSegment → Option Schema → Progress → Progress × Option SagaError → Type 0
  BookedUnless seg schema p out = out.1 ≡ none → Booked config job seg schema p out.0

  reserve_known-Booked :
      (seg : RouteSegment) (schema : Option Schema) (p : Progress)
      → schema_of seg.region ≡ schema
      → BookedUnless seg schema p (reserve_known config env job seg schema p)
  unfolding reserve_known
  reserve_known-Booked seg none p known = λ h. absurd (ground (arith, h))
  reserve_known-Booked seg (some schema) p known = elim (Bool-cases (is_local config seg.region)) [
    | inl e ↦
        subst (BookedUnless seg (some schema) p) (sym (known_local seg schema p e))
          (reserve_local-Booked config (env.lock seg) job schema seg p e)
    | inr e ↦ subst (BookedUnless seg (some schema) p) (sym (known_remote seg schema p e)) (
        subst
          (λ sc.
            BookedUnless seg sc p (reserve_remote (env.link seg) (env.peer_lock seg) job seg p))
          known (reserve_remote-Booked config (env.link seg) (env.peer_lock seg) job seg p e))
  ]

  pub reserve_one-Booked :
      (seg : RouteSegment) (p : Progress)
      → BookedUnless seg (schema_of seg.region) p (reserve_one config env job seg p)
  unfolding reserve_one
  reserve_one-Booked seg p = reserve_known-Booked seg (schema_of seg.region) p refl

  pub goes_on :
      (seg : RouteSegment) (rest : List RouteSegment) (p : Progress)
      → (reserve_one config env job seg p).1 ≡ none
      → reserve_all config env job (seg ∷ rest) p
        ≡ reserve_all config env job rest (reserve_one config env job seg p).0
  unfolding reserve_all
  goes_on seg rest p e = rw (e, reserve_all) refl

  stops :
      (seg : RouteSegment) (rest : List RouteSegment) (p : Progress) (error : SagaError)
      → (reserve_one config env job seg p).1 ≡ some error
      → reserve_all config env job (seg ∷ rest) p
        ≡ ((reserve_one config env job seg p).0, some error)
  unfolding reserve_all
  stops seg rest p error e = rw (e, reserve_all) refl

  abbrev pub AllBooked : List RouteSegment → Progress → Progress → Type 0
  AllBooked route p p' =
      All (λ seg. is_some (schema_of seg.region) ≡ true) route
      × ((p'.here, p'.there) ≡ book_route config job route (p.here, p.there))
      × (p'.reserved ≡ p.reserved ++ route)

  AllBooked-nil : (p : Progress) → AllBooked [] p (reserve_all config env job [] p).0
  unfolding reserve_all book_route
  AllBooked-nil p = (tt, refl, sym (append-nil p.reserved))

  AllBooked-cons :
      (seg : RouteSegment) (rest : List RouteSegment) (p p₁ p₂ : Progress)
      → Booked config job seg (schema_of seg.region) p p₁
      → AllBooked rest p₁ p₂
      → AllBooked (seg ∷ rest) p p₂
  unfolding book_route
  AllBooked-cons seg rest p p₁ p₂ (known, one, reserved) (all_known, all, all_reserved) = (
    (known, all_known),
    all ∙ ap (book_route config job rest) one,
    all_reserved ∙ (ap (λ done. done ++ rest) reserved ∙ append_assoc p.reserved (seg ∷ []) rest),
  )

  -- The loop that raises nothing comes to the transaction.
  pub reserve_all-book_route :
      (route : List RouteSegment) (p : Progress)
      → (reserve_all config env job route p).1 ≡ none
      → AllBooked route p (reserve_all config env job route p).0
  reserve_all-book_route [] p h = AllBooked-nil p
  reserve_all-book_route (seg ∷ rest) p h =
      elim (Option-cases (reserve_one config env job seg p).1) [
        | inr (error, e) ↦
            absurd (ground (arith, sym (ap (λ out. out.1) (stops seg rest p error e)) ∙ h))
        | inl e ↦
            let next : Progress = (reserve_one config env job seg p).0 in
            rw (goes_on seg rest p e) (
              AllBooked-cons seg rest p next (reserve_all config env job rest next).0
                (reserve_one-Booked seg p e)
                (reserve_all-book_route rest next
                  (sym (ap (λ out. out.1) (goes_on seg rest p e)) ∙ h)))
      ]
