-- ===== src/BookingService/Room.antt =====
-- Room for reservations, and what a step of the saga leaves of it.
use distributed_traffic_serv.Base.{
  ℕ, suc, ◌+◌, ◌≤◌, ◌<◌, ◌≡◌, refl, String, Bool, true, false, Option, none, some, ◌∷◌, count,
  Bool-cases, Option-cases, inl, inr, if◌then◌else◌, string_eq, nat_eq, arith,
}
use distributed_traffic_serv.BookingService.Store.{
  Schema, schema_eq, schema_of, Reservation, Booking, Db, floor_hour, hour,
}
use distributed_traffic_serv.BookingService.Capacity.{
  find_capacity, booked, Capacity, check_capacity, reserve_segment,
}
use distributed_traffic_serv.BookingService.Peer.{
  acquired, peer_row, is_full, committed, reserve_within, reserve_in, peer_reserve,
}
use distributed_traffic_serv.BookingService.Saga.{
  RouteSegment, Config, answered, Job, Progress, local_row, is_local, written, reserve_local,
  peer_request, heard, reserve_remote,
}
use distributed_traffic_serv.BookingService.Service.{put}
use distributed_traffic_serv.BookingService.Bounds.{capacity}
use distributed_traffic_serv.BookingService.Atomic.{add_row, book_segment}

-- Room for `n` more reservations of a segment in its slot.
abbrev pub Fits : ℕ → Db → Schema → RouteSegment → Type 0
Fits n db schema seg =
    n + booked schema seg.segment_id (floor_hour seg.slot_start) db.reservations
    ≤ capacity db schema seg.segment_id

some_capacity :
    (n : ℕ) (db : Db) (schema : Schema) (seg : RouteSegment)
    → Fits (suc n) db schema seg
    → (max : ℕ) × (find_capacity schema seg.segment_id db.road_segments ≡ some max)
      × (booked schema seg.segment_id (floor_hour seg.slot_start) db.reservations < max)
some_capacity n db schema seg fits =
    elim (Option-cases (find_capacity schema seg.segment_id db.road_segments)) [
      | inl e ↦ absurd (ground (arith, fits, e))
      | inr (max, e) ↦ (max, e, ground (arith, fits, e))
    ]

check_capacity-room :
    (db : Db) (schema : Schema) (id : String) (slot max : ℕ)
    → find_capacity schema id db.road_segments ≡ some max
    → booked schema id (floor_hour slot) db.reservations < max
    → (cap : Capacity) × (check_capacity db schema id slot ≡ some cap) × (is_full cap ≡ false)
unfolding check_capacity
check_capacity-room db schema id slot max known room = (
  record {
    slot_start = floor_hour slot;
    slot_end = floor_hour slot + hour;
    booked = booked schema id (floor_hour slot) db.reservations;
    max = max;
  },
  rw (known, check_capacity) refl,
  ground arith,
)

reserve_segment-stored :
    (r : Reservation) (db : Db) (max : ℕ)
    → find_capacity r.schema r.segment_id db.road_segments ≡ some max
    → reserve_segment r db ≡ some (record db { reservations = r ∷ db.reservations })
unfolding reserve_segment
reserve_segment-stored r db max known = rw known refl

pub reserve_local-stored :
    (n : ℕ) (job : Job) (schema : Schema) (seg : RouteSegment) (p : Progress)
    → Fits (suc n) p.here schema seg
    → (reserve_local acquired job schema seg p).1 ≡ none
unfolding reserve_local written
reserve_local-stored n job schema seg p fits =
    let (max, known, room) = some_capacity n p.here schema seg fits in
    let (cap, found_, free) =
      check_capacity-room p.here schema seg.segment_id seg.slot_start max known room in
    rw found_
      (rw free (rw (reserve_segment-stored (local_row job schema seg) p.here max known) refl))

peer_reserve-stored :
    (n : ℕ) (job : Job) (schema : Schema) (seg : RouteSegment) (db : Db)
    → schema_of seg.region ≡ some schema
    → Fits (suc n) db schema seg
    → (peer_reserve acquired (peer_request job seg) db).0 ≡ 201
unfolding peer_reserve reserve_in reserve_within committed
peer_reserve-stored n job schema seg db region fits =
    let (max, known, room) = some_capacity n db schema seg fits in
    let (cap, found_, free) =
      check_capacity-room db schema seg.segment_id seg.slot_start max known room in
    rw region (
      rw found_ (
        rw free
          (rw (reserve_segment-stored (peer_row schema (peer_request job seg)) db max known) refl)))

pub reserve_remote-stored :
    (n : ℕ) (job : Job) (schema : Schema) (seg : RouteSegment) (p : Progress)
    → schema_of seg.region ≡ some schema
    → Fits (suc n) p.there schema seg
    → (reserve_remote answered acquired job seg p).1 ≡ none
unfolding reserve_remote heard
reserve_remote-stored n job schema seg p region fits =
    rw (peer_reserve-stored n job schema seg p.there region fits) refl

-- At most one more row in each slot.
abbrev pub Grown : Db → Db → Type 0
Grown db db' =
    (db'.road_segments ≡ db.road_segments)
    × ((schema : Schema) (id : String) (slot : ℕ)
        → booked schema id slot db'.reservations ≤ suc (booked schema id slot db.reservations))

Grown-same : (db : Db) → Grown db db
Grown-same db = (refl, λ schema id slot. omega arith)

Grown-add :
    (job : Job) (seg : RouteSegment) (schema : Option Schema) (db : Db)
    → Grown db (add_row job seg schema db)
unfolding booked count
Grown-add job seg none db = Grown-same db
Grown-add job seg (some schema) db = (refl, λ s id slot. ground arith)

pub Grown-book :
    (config : Config) (job : Job) (seg : RouteSegment) (schema : Option Schema) (here there : Db)
    → Grown here (book_segment config job seg schema (here, there)).0
      × Grown there (book_segment config job seg schema (here, there)).1
Grown-book config job seg schema here there = elim (Bool-cases (is_local config seg.region)) [
  | inl e ↦ rw e (Grown-add job seg schema here, Grown-same there)
  | inr e ↦ rw e (Grown-same here, Grown-add job seg schema there)
]

Fits-Grown :
    (n : ℕ) (db db' : Db) (schema : Schema) (seg : RouteSegment)
    → Grown db db'
    → Fits (suc n) db schema seg
    → Fits n db' schema seg
Fits-Grown n db db' schema seg (roads, more) fits =
    rw roads (omega (arith, fits, more schema seg.segment_id (floor_hour seg.slot_start)))

-- The node of a segment has room for `n` more.
abbrev pub HasRoom : Config → ℕ → Db × Db → RouteSegment → Type 0
HasRoom config n (here, there) seg =
    (schema : Schema) × (schema_of seg.region ≡ some schema)
    × Fits n (if is_local config seg.region then here else there) schema seg

node-Grown :
    (here_ : Bool) (dbs dbs' : Db × Db)
    → Grown dbs.0 dbs'.0
    → Grown dbs.1 dbs'.1
    → Grown (if here_ then dbs.0 else dbs.1) (if here_ then dbs'.0 else dbs'.1)
node-Grown true dbs dbs' h k = h
node-Grown false dbs dbs' h k = k

pub HasRoom-Grown :
    (config : Config) (n : ℕ) (dbs dbs' : Db × Db)
    → Grown dbs.0 dbs'.0
    → Grown dbs.1 dbs'.1
    → (seg : RouteSegment) → HasRoom config (suc n) dbs seg
    → HasRoom config n dbs' seg
HasRoom-Grown config n (here, there) (here', there') h k seg (schema, known, fits) = (
  schema,
  known,
  Fits-Grown n (if is_local config seg.region then here else there)
      (if is_local config seg.region then here' else there') schema seg
      (node-Grown (is_local config seg.region) (here, there) (here', there') h k) fits,
)

-- A booking that is stored takes no room.
Fits-put :
    (here_ : Bool) (n : ℕ) (b : Booking) (here there : Db) (schema : Schema) (seg : RouteSegment)
    → Fits n (if here_ then here else there) schema seg
    → Fits n (if here_ then put b here else there) schema seg
Fits-put true n b here there schema seg fits = fits
Fits-put false n b here there schema seg fits = fits

pub HasRoom-put :
    (config : Config) (n : ℕ) (b : Booking) (here there : Db) (seg : RouteSegment)
    → HasRoom config n (here, there) seg
    → HasRoom config n (put b here, there) seg
HasRoom-put config n b here there seg (schema, known, fits) =
    (schema, known, Fits-put (is_local config seg.region) n b here there schema seg fits)
