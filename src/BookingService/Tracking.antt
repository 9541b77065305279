-- ===== src/BookingService/Tracking.antt =====
-- What the loop over the segments has taken for a booking at any point.
use mathlib.Core.Path.{subst}
use distributed_traffic_serv.Base.{
  ℕ, ◌≡◌, ◌⊎◌, refl, String, Bool, true, false, ◌&&◌, ◌||◌, Option, none, some, List, [], ◌∷◌, ◌++◌,
  any, Bool-cases, Option-cases, inl, inr, ◌==◌, nat_eq, string_eq, eqb_iff, arith,
}
use distributed_traffic_serv.BookingService.Store.{Schema, schema_eq, schema_beq_iff, schema_of, Db}
use distributed_traffic_serv.BookingService.Capacity.{check_capacity, reserve_segment}
use distributed_traffic_serv.BookingService.Peer.{
  Lock, acquired, held, redis_down, refuses, peer_reserve,
}
use distributed_traffic_serv.BookingService.Saga.{
  RouteSegment, Config, Link, answered, answer_lost, request_lost, answer_broken, SagaError,
  region_unavailable, answer_unread, Env, Job, Progress, local_row, is_local, written,
  reserve_local, peer_request, heard, reserve_remote, reserve_known, reserve_one, reserve_all,
}
use distributed_traffic_serv.BookingService.Answers.{peer_reserve-unless}
use distributed_traffic_serv.BookingService.Holding.{HoldsOnly, HoldsNone, HoldsOnly-imp}

any-append {ℓ} :
    {A : Type ℓ} (p : A → Bool) (xs : List A) (x : A) → any p (xs ++ (x ∷ [])) ≡ any p xs || p x
unfolding any
any-append p [] x = ground arith
any-append p (y ∷ xs) x = ground (arith, any-append p xs x)

abbrev pub is_schema : Option Schema → Schema → Bool
is_schema none s = false
is_schema (some t) s = s == t

peer_if_remote :
    (config : Config) (region : String) → is_local config region ≡ false → config.has_peer ≡ true
unfolding is_local
peer_if_remote config region h = ground arith

-- The peer may have reserved a segment that this node did not hear of.
abbrev pub is_unheard : SagaError → Bool
is_unheard (region_unavailable region) = true
is_unheard answer_unread = true
is_unheard _ = false

abbrev pub failed_unheard : Option SagaError → Bool
failed_unheard none = false
failed_unheard (some e) = is_unheard e

-- A segment of the route that this node has reserved in the schema.
abbrev pub covers : Config → Schema → RouteSegment → Bool
covers config s seg = is_local config seg.region && is_schema (schema_of seg.region) s

abbrev pub covered : Config → List RouteSegment → Schema → Bool
covered config reserved s = any (covers config s) reserved

module _ (config : Config) (env : Env) (job : Job) where
  -- What holds of the loop: here the booking holds segments of `reserved` only, and at the peer
  -- none unless the rollback will ask the peer.
  pub record Tracks (p : Progress) (error : Option SagaError) : Type 0 where
    pub local : HoldsOnly (covered config p.reserved) job.booking_id p.here.reservations
    pub remote :
        ((p.peer_reserved && config.has_peer) ≡ true)
        ⊎ (HoldsNone job.booking_id p.there ⊎ (failed_unheard error ≡ true))

  covered-append :
      (reserved : List RouteSegment) (seg : RouteSegment) (s : Schema)
      → covered config reserved s ≡ true
      → covered config (reserved ++ (seg ∷ [])) s ≡ true
  covered-append reserved seg s h = ground (arith, any-append (covers config s) reserved seg)

  covered_last :
      (reserved : List RouteSegment) (seg : RouteSegment) (s : Schema)
      → covers config s seg ≡ true
      → covered config (reserved ++ (seg ∷ [])) s ≡ true
  covered_last reserved seg s h = ground (arith, any-append (covers config s) reserved seg)

  -- An exception that leaves both databases as they were.
  pub Tracks-error :
      (p : Progress) (there : Db) (error : Option SagaError)
      → there ≡ p.there
      → Tracks p none
      → Tracks (record p { there = there }) error
  Tracks-error p there error same h = record {
    local = h.local;
    remote = rw same (elim h.remote [
      | inl a ↦ inl a
      | inr (inl b) ↦ inr (inl b)
      | inr (inr c) ↦ absurd (ground (arith, c))
    ]);
  }

  local_row-HoldsOnly :
      (schema : Schema) (seg : RouteSegment) (p : Progress)
      → covers config schema seg ≡ true
      → Tracks p none
      → HoldsOnly
          (covered config (p.reserved ++ (seg ∷ [])))
          job.booking_id
          (local_row job schema seg ∷ p.here.reservations)
  local_row-HoldsOnly schema seg p covered_here h = (
    ground (arith, covered_last p.reserved seg schema covered_here),
    HoldsOnly-imp (covered config p.reserved) (covered config (p.reserved ++ (seg ∷ [])))
        (covered-append p.reserved seg) job.booking_id p.here.reservations h.local,
  )

  reserve_local-Tracks :
      (lock : Lock) (schema : Schema) (seg : RouteSegment) (p : Progress)
      → covers config schema seg ≡ true
      → Tracks p none
      → Tracks (reserve_local lock job schema seg p).0 (reserve_local lock job schema seg p).1
  unfolding reserve_local written reserve_segment
  reserve_local-Tracks held schema seg p known h = Tracks-error p p.there _ refl h
  reserve_local-Tracks redis_down schema seg p known h = Tracks-error p p.there _ refl h
  reserve_local-Tracks acquired schema seg p known h =
      elim (Bool-cases (refuses (check_capacity p.here schema seg.segment_id seg.slot_start))) [
        | inl full ↦ rw full (Tracks-error p p.there _ refl h)
        | inr room ↦
            rw room (elim (Option-cases (reserve_segment (local_row job schema seg) p.here)) [
              | inl e ↦ rw e (Tracks-error p p.there _ refl h)
              | inr (db', e) ↦
                  let same : record p.here {
                    reservations = local_row job schema seg ∷ p.here.reservations;
                  }
                      ≡ db' =
                    ground arith in
                  rw e (record {
                    local = rw (← same) (local_row-HoldsOnly schema seg p known h);
                    remote = h.remote;
                  })
            ])
      ]

  heard-Tracks :
      (seg : RouteSegment) (answer : ℕ × Db) (p : Progress)
      → config.has_peer ≡ true
      → (answer.0 ≡ 201) ⊎ (answer.1 ≡ p.there)
      → Tracks p none
      → Tracks (heard seg answer p).0 (heard seg answer p).1
  unfolding heard
  heard-Tracks seg (code, there) p remote unless h = elim (Bool-cases (code == 201)) [
    | inl e ↦
        let is_201 : code ≡ 201 = (eqb_iff code 201).0 e in
        rw is_201 (record {
          local =
              HoldsOnly-imp (covered config p.reserved) (covered config (p.reserved ++ (seg ∷ [])))
                (covered-append p.reserved seg) job.booking_id p.here.reservations h.local;
          remote = inl remote;
        })
    | inr e ↦
        let same : there ≡ p.there = elim unless [
          | inl f ↦ absurd (ground (arith, (eqb_iff code 201).1 f))
          | inr f ↦ f
        ] in
        elim (Bool-cases (code == 409)) [
          | inl e₂ ↦ rw e₂ (Tracks-error p there _ same h)
          | inr e₂ ↦ rw e₂ (rw e (Tracks-error p there _ same h))
        ]
  ]

  reserve_remote-Tracks :
      (link : Link) (lock : Lock) (seg : RouteSegment) (p : Progress)
      → config.has_peer ≡ true
      → Tracks p none
      → Tracks (reserve_remote link lock job seg p).0 (reserve_remote link lock job seg p).1
  unfolding reserve_remote
  reserve_remote-Tracks request_lost lock seg p remote h = Tracks-error p p.there _ refl h
  reserve_remote-Tracks answer_lost lock seg p remote h = record {
    local = h.local;
    remote = inr (inr refl);
  }
  reserve_remote-Tracks answer_broken lock seg p remote h = record {
    local = h.local;
    remote = inr (inr refl);
  }
  reserve_remote-Tracks answered lock seg p remote h =
      heard-Tracks seg (peer_reserve lock (peer_request job seg) p.there) p remote
        (peer_reserve-unless lock (peer_request job seg) p.there) h

  covers-here :
      (seg : RouteSegment) (schema : Schema)
      → is_local config seg.region ≡ true
      → schema_of seg.region ≡ some schema
      → covers config schema seg ≡ true
  covers-here seg schema here known =
      rw known (ground (arith, (schema_beq_iff schema schema).1 refl))

  reserve_known-Tracks :
      (seg : RouteSegment) (schema : Option Schema) (p : Progress)
      → schema_of seg.region ≡ schema
      → Tracks p none
      → Tracks
          (reserve_known config env job seg schema p).0
          (reserve_known config env job seg schema p).1
  unfolding reserve_known
  reserve_known-Tracks seg none p known h = Tracks-error p p.there _ refl h
  reserve_known-Tracks seg (some schema) p known h =
      elim (Bool-cases (is_local config seg.region)) [
        | inl e ↦
            rw e
              (reserve_local-Tracks (env.lock seg) schema seg p (covers-here seg schema e known) h)
        | inr e ↦ rw e (
            reserve_remote-Tracks (env.link seg) (env.peer_lock seg) seg p
              (peer_if_remote config seg.region e) h)
      ]

  pub reserve_all-Tracks :
      (route : List RouteSegment) (p : Progress)
      → Tracks p none
      → Tracks (reserve_all config env job route p).0 (reserve_all config env job route p).1
  unfolding reserve_all reserve_one
  reserve_all-Tracks [] p h = h
  reserve_all-Tracks (seg ∷ rest) p h =
      let k : Tracks (reserve_one config env job seg p).0 (reserve_one config env job seg p).1 =
        reserve_known-Tracks seg _ p refl h in
      elim (Option-cases (reserve_one config env job seg p).1) [
        | inl e ↦
            rw (e, reserve_all)
              (reserve_all-Tracks rest _ (subst (Tracks (reserve_one config env job seg p).0) e k))
        | inr (error, e) ↦
            rw (e, reserve_all) (subst (Tracks (reserve_one config env job seg p).0) e k)
      ]
