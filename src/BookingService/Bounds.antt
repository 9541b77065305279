-- ===== src/BookingService/Bounds.antt =====
-- No segment of a node has more active reservations in a slot than its capacity.
use mathlib.Core.Path.{subst}
use distributed_traffic_serv.Base.{
  ℕ, ◌+◌, ◌≤◌, ◌<◌, ◌≡◌, leb, String, Bool, true, false, Option, none, some, List, [], ◌∷◌,
  string_eq, nat_eq, count, map, nullish, Bool-cases, Option-cases, inl, inr, eq_iff, eqb_iff,
  arith,
}
use distributed_traffic_serv.BookingService.Store.{
  Schema, schema_eq, schema_beq_iff, Reservation, Db, is_active, floor_hour, hour,
}
use distributed_traffic_serv.BookingService.Capacity.{
  find_capacity, takes, booked, Capacity, check_capacity, reserve_segment, release_row,
  release_segment,
}
use distributed_traffic_serv.BookingService.Peer.{refuses}

abbrev pub capacity : Db → Schema → String → ℕ
capacity db schema id = nullish (find_capacity schema id db.road_segments) 0

-- The bound, in every slot. A segment that is not in the tables has no reservations.
pub record IsWithin (db : Db) : Type 0 where
  pub within :
      (schema : Schema) (id : String) (slot : ℕ)
      → booked schema id slot db.reservations ≤ capacity db schema id

count-map {ℓ} :
    {A : Type ℓ} (p : A → Bool) (f : A → A)
    → ((a : A) → p (f a) ≡ true → p a ≡ true)
    → (xs : List A) → count p (map f xs) ≤ count p xs
unfolding count
count-map p f h [] = omega arith
count-map p f h (x ∷ xs) = ground (arith, h x, count-map p f h xs)

takes-release :
    (schema : Schema) (id : String) (slot : ℕ) (sc : Schema) (bid : String) (r : Reservation)
    → takes schema id slot (release_row sc bid r) ≡ true
    → takes schema id slot r ≡ true
unfolding is_active
takes-release schema id slot sc bid r h = ground arith

-- Releasing takes nothing up.
pub release_segment-IsWithin :
    (schema : Schema) (bid : String) (db : Db)
    → IsWithin db
    → IsWithin (release_segment schema bid db)
unfolding release_segment booked
release_segment-IsWithin schema bid db h = record {
  within = λ s id slot. omega (
    arith,
    h.within s id slot,
    count-map (takes s id slot) (release_row schema bid) (takes-release s id slot schema bid)
        db.reservations,
  );
}

room_at :
    (r : Reservation) (db : Db)
    → booked r.schema r.segment_id r.slot_start db.reservations < capacity db r.schema r.segment_id
    → (s : Schema) (id : String) (slot : ℕ) → takes s id slot r ≡ true
    → booked s id slot db.reservations < capacity db s id
room_at r db room s id slot t =
    let same_schema : r.schema ≡ s = (schema_beq_iff r.schema s).0 (ground arith) in
    let same_id : r.segment_id ≡ id = (eq_iff r.segment_id id).0 (ground arith) in
    let same_slot : r.slot_start ≡ slot = (eqb_iff r.slot_start slot).0 (ground arith) in
    rw (← same_schema) (rw (← same_id) (rw (← same_slot) room))

-- One more row, where the capacity of its segment is not reached yet.
pub add-IsWithin :
    (r : Reservation) (db : Db)
    → booked r.schema r.segment_id r.slot_start db.reservations < capacity db r.schema r.segment_id
    → IsWithin db
    → IsWithin (record db { reservations = r ∷ db.reservations })
unfolding booked count
add-IsWithin r db room h = record {
  within = λ s id slot. elim (Bool-cases (takes s id slot r)) [
    | inl t ↦ rw t (room_at r db room s id slot t)
    | inr t ↦ rw t (h.within s id slot)
  ];
}

room_of_check :
    (r : Reservation) (db : Db) (max : ℕ)
    → floor_hour r.slot_start ≡ r.slot_start
    → find_capacity r.schema r.segment_id db.road_segments ≡ some max
    → refuses (check_capacity db r.schema r.segment_id r.slot_start) ≡ false
    → booked r.schema r.segment_id r.slot_start db.reservations < capacity db r.schema r.segment_id
unfolding check_capacity
room_of_check r db max aligned known room =
    let test : leb max (booked r.schema r.segment_id (floor_hour r.slot_start) db.reservations)
        ≡ false =
      subst
        (λ c.
          refuses (elim c as (λ _. Option Capacity) [
            | none ↦ none
            | some m ↦ some (record {
              slot_start = floor_hour r.slot_start;
              slot_end = floor_hour r.slot_start + hour;
              booked = booked r.schema r.segment_id (floor_hour r.slot_start) db.reservations;
              max = m;
            })
          ])
          ≡ false)
        known room in
    rw known (ground (arith, aligned))

-- The test of the service, where the slot begins on the hour: the capacity it reads is not reached.
pub reserve_segment-IsWithin :
    (r : Reservation) (db db' : Db)
    → floor_hour r.slot_start ≡ r.slot_start
    → refuses (check_capacity db r.schema r.segment_id r.slot_start) ≡ false
    → reserve_segment r db ≡ some db'
    → IsWithin db
    → IsWithin db'
unfolding reserve_segment
reserve_segment-IsWithin r db db' aligned room stored h =
    elim (Option-cases (find_capacity r.schema r.segment_id db.road_segments)) [
      | inl unknown ↦ absurd (ground arith)
      | inr (max, known) ↦
          let same : record db { reservations = r ∷ db.reservations } ≡ db' = ground arith in
          rw (← same) (add-IsWithin r db (room_of_check r db max aligned known room) h)
    ]
