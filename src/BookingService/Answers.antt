-- ===== src/BookingService/Answers.antt =====
-- What the peer's answer tells of its database.
use distributed_traffic_serv.Base.{
  ◌≡◌, ◌⊎◌, refl, Option, none, some, Bool-cases, Option-cases, inl, inr,
}
use distributed_traffic_serv.BookingService.Store.{Schema, Db}
use distributed_traffic_serv.BookingService.Capacity.{Capacity, check_capacity, reserve_segment}
use distributed_traffic_serv.BookingService.Peer.{
  Lock, acquired, held, redis_down, PeerReserveRequest, peer_row, is_full, committed,
  reserve_within, reserve_in, peer_reserve,
}

-- An answer other than 201 leaves the peer's database as it was.
reserve_within-unless :
    (schema : Schema) (req : PeerReserveRequest) (db : Db) (cap : Option Capacity)
    → ((reserve_within schema req db cap).0 ≡ 201) ⊎ ((reserve_within schema req db cap).1 ≡ db)
unfolding reserve_within committed
reserve_within-unless schema req db none = inr refl
reserve_within-unless schema req db (some cap) = elim (Bool-cases (is_full cap)) [
  | inl full ↦ rw full (inr refl)
  | inr room ↦ rw room (elim (Option-cases (reserve_segment (peer_row schema req) db)) [
    | inl e ↦ rw e (inr refl)
    | inr (db', e) ↦ rw e (inl refl)
  ])
]

reserve_in-unless :
    (lock : Lock) (req : PeerReserveRequest) (db : Db) (schema : Option Schema)
    → ((reserve_in lock req db schema).0 ≡ 201) ⊎ ((reserve_in lock req db schema).1 ≡ db)
unfolding reserve_in
reserve_in-unless lock req db none = inr refl
reserve_in-unless acquired req db (some schema) =
    reserve_within-unless schema req db (check_capacity db schema req.segment_id req.slot_start)
reserve_in-unless held req db (some schema) = inr refl
reserve_in-unless redis_down req db (some schema) = inr refl

pub peer_reserve-unless :
    (lock : Lock) (req : PeerReserveRequest) (db : Db)
    → ((peer_reserve lock req db).0 ≡ 201) ⊎ ((peer_reserve lock req db).1 ≡ db)
unfolding peer_reserve
peer_reserve-unless lock req db = reserve_in-unless lock req db _
