-- ===== src/AnalyticsService/Measured.antt =====
-- What the report on the load of the roads shows, against what the booking service checks.
use mathlib.Core.List.{Memᴰ}
use mathlib.Core.List.Memᴰ
use mathlib.Core.Path.{subst}
use distributed_traffic_serv.Base.{
  ℕ, ◌≤◌, ◌≡◌, refl, sym, String, true, false, ◌&&◌, some, List, [], ◌∷◌, string_eq, nat_eq, eq_iff,
  is_some, count, filter, take, take_all, mem-filter, length, sort_by, mem-sort_by, length-sort_by,
  All, All-mem, Bool-cases, Option-cases, inl, inr, arith,
}
use distributed_traffic_serv.BookingService.Store.{
  Schema, region_ireland, region_uk, region_france, schema_of, schema_eq, schema_beq_iff,
  RoadSegment, Reservation, Db, is_active, floor_hour,
}
use distributed_traffic_serv.BookingService.Capacity.{
  find_capacity, takes, booked, Capacity, check_capacity,
}
use distributed_traffic_serv.AnalyticsService.Reports.{Percent}
use distributed_traffic_serv.AnalyticsService.Load.{
  Group, group_of, group_beq, has_group, groups, is_earlier, capacity_report, joined, booked_count,
  CapacityReport, report_of, region_name,
}

-- The slot of a reservation begins on the hour.
abbrev pub OnTheHour : Reservation → Type 0
OnTheHour r = floor_hour r.slot_start ≡ r.slot_start

booked_row :
    (g : Group) (r : Reservation)
    → OnTheHour r
    → (group_beq (group_of r) g && is_active r.status) ≡ takes g.schema g.segment_id g.slot_start r
unfolding group_beq
booked_row g r h = rw h (ground arith)

found_of_same :
    (g : Group) (r : Reservation) (segments : List RoadSegment)
    → group_beq (group_of r) g ≡ true
    → is_some (find_capacity g.schema g.segment_id segments) ≡ true
    → is_some (find_capacity r.schema r.segment_id segments) ≡ true
unfolding group_beq
found_of_same g r segments same found =
    let schema : r.schema ≡ g.schema =
      (schema_beq_iff r.schema g.schema).0 (ground (arith, same)) in
    let id : r.segment_id ≡ g.segment_id =
      (eq_iff r.segment_id g.segment_id).0 (ground (arith, same)) in
    rw schema (rw id found)

booked-joined :
    (g : Group) (segments : List RoadSegment) (rows : List Reservation)
    → is_some (find_capacity g.schema g.segment_id segments) ≡ true
    → All OnTheHour rows
    → booked_count g (filter (λ r. is_some (find_capacity r.schema r.segment_id segments)) rows)
      ≡ booked g.schema g.segment_id g.slot_start rows
unfolding booked_count booked count filter
booked-joined g segments [] found h = refl
booked-joined g segments (r ∷ rows) found (on, h) =
    elim (Bool-cases (is_some (find_capacity r.schema r.segment_id segments))) [
      | inl kept ↦
          rw kept (ground (arith, booked_row g r on, booked-joined g segments rows found h))
      | inr dropped ↦
          let other : group_beq (group_of r) g ≡ false =
            ground (arith, found_of_same g r segments, found, dropped) in
          rw dropped
            (ground (arith, other, booked_row g r on, booked-joined g segments rows found h))
    ]

-- For a group whose rows stand on the hour, the report shows what the capacity check counts.
report-agrees :
    (percent : Percent) (db : Db) (schema : Schema) (id : String) (t : ℕ) (c : Capacity)
    → All OnTheHour db.reservations
    → check_capacity db schema id t ≡ some c
    → ((report_of percent db
          (record { schema = schema; segment_id = id; slot_start = floor_hour t })).booked_count
        ≡ c.booked)
      × ((report_of percent db
            (record { schema = schema; segment_id = id; slot_start = floor_hour t })).max_capacity
          ≡ c.max)
unfolding report_of joined check_capacity
report-agrees percent db schema id t c on h =
    let g : Group = record { schema = schema; segment_id = id; slot_start = floor_hour t } in
    elim (Option-cases (find_capacity schema id db.road_segments)) [
      | inl e ↦ absurd (ground (arith, h, e))
      | inr (max, e) ↦
          let found : is_some (find_capacity schema id db.road_segments) ≡ true = rw e refl in
          let same = booked-joined g db.road_segments db.reservations found on in
          (ground (arith, h, e, same), ground (arith, h, e))
    ]

group_beq-eq : (g h : Group) → group_beq g h ≡ true → h ≡ g
unfolding group_beq
group_beq-eq g h e =
    let schema : g.schema ≡ h.schema = (schema_beq_iff g.schema h.schema).0 (ground (arith, e)) in
    let id : g.segment_id ≡ h.segment_id =
      (eq_iff g.segment_id h.segment_id).0 (ground (arith, e)) in
    let slot : g.slot_start ≡ h.slot_start = ground (arith, e) in ground (arith, schema, id, slot)

mem_of_has_group : (g : Group) (gs : List Group) → has_group g gs ≡ true → Memᴰ g gs
unfolding has_group
mem_of_has_group g [] h = cc
mem_of_has_group g (x ∷ gs) h = elim (Bool-cases (group_beq x g)) [
  | inl e ↦ Memᴰ.head (group_beq-eq x g e)
  | inr e ↦ Memᴰ.tail (mem_of_has_group g gs (ground (arith, h, e)))
]

-- Each row's group is listed.
mem-groups :
    (r : Reservation) (rows : List Reservation) → Memᴰ r rows → Memᴰ (group_of r) (groups rows)
unfolding groups
mem-groups r [] m = elim m [ ]
mem-groups r (x ∷ rows) (Memᴰ.head e) =
    subst (λ y. Memᴰ (group_of y) (groups (x ∷ rows))) (sym e)
      (elim (Bool-cases (has_group (group_of x) (groups rows))) [
        | inl h ↦ unfold groups in rw h (mem_of_has_group (group_of x) (groups rows) h)
        | inr h ↦ unfold groups in rw h (Memᴰ.head refl)
      ])
mem-groups r (x ∷ rows) (Memᴰ.tail m) = elim (Bool-cases (has_group (group_of x) (groups rows))) [
  | inl h ↦ rw h (mem-groups r rows m)
  | inr h ↦ rw h (Memᴰ.tail (mem-groups r rows m))
]

found_of_check :
    (db : Db) (r : Reservation) (c : Capacity)
    → check_capacity db r.schema r.segment_id r.slot_start ≡ some c
    → is_some (find_capacity r.schema r.segment_id db.road_segments) ≡ true
unfolding check_capacity
found_of_check db r c h =
    elim (Option-cases (find_capacity r.schema r.segment_id db.road_segments)) [
      | inl e ↦ absurd (ground (arith, h, e))
      | inr (max, e) ↦ rw e refl
    ]

schema_of-region_name : (schema : Schema) → schema_of (region_name schema) ≡ some schema
unfolding schema_of region_name
schema_of-region_name region_ireland = refl
schema_of-region_name region_uk = refl
schema_of-region_name region_france = refl

-- Where slots begin on the hour and there are at most 300 groups, the report has a row for each
-- reservation: of its segment, of its slot and of a region that the booking service files under the
-- reservation's tables, with the count and the limit that a check of that segment and slot comes to.
pub capacity_report-agrees :
    (percent : Percent) (db : Db) (r : Reservation) (c : Capacity)
    → All OnTheHour db.reservations
    → Memᴰ r db.reservations
    → check_capacity db r.schema r.segment_id r.slot_start ≡ some c
    → length (groups (joined db)) ≤ 300
    → (row : CapacityReport) × Memᴰ row (capacity_report percent db)
      × (row.segment_id ≡ r.segment_id)
      × (row.slot_start ≡ r.slot_start)
      × (schema_of row.region ≡ some r.schema)
      × (row.booked_count ≡ c.booked)
      × (row.max_capacity ≡ c.max)
unfolding capacity_report joined
capacity_report-agrees percent db r c on m h few =
    let g : Group = group_of r in
    let gs : List Group = groups (joined db) in
    let kept : Memᴰ r (joined db) = mem-filter _ db.reservations m (found_of_check db r c h) in
    let listed : Memᴰ g (take 300 (sort_by is_earlier gs)) =
      subst (λ xs. Memᴰ g xs)
        (sym (take_all 300 (sort_by is_earlier gs) (rw (length-sort_by is_earlier gs) few)))
        (mem-sort_by is_earlier gs (mem-groups r (joined db) kept)) in
    let same = report-agrees percent db r.schema r.segment_id r.slot_start c on h in
    (
      report_of percent db g,
      Memᴰ.map (report_of percent db) listed,
      unfold report_of in refl,
      unfold report_of in All-mem OnTheHour db.reservations on m,
      unfold report_of in schema_of-region_name r.schema,
      same.0,
      same.1,
    )
