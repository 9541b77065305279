-- ===== src/BookingService/Saga/Setting.antt =====
-- What a saga is given: the route, the node and its peer, the job, and what is answered from outside.
use distributed_traffic_serv.Base.{
  ℕ, String, Bool, true, not, Option, List, includes, string_eq, if◌then◌else◌,
}
use distributed_traffic_serv.BookingService.Peer.{Lock}

-- A segment of a route, as `resolve_route` returns it.
pub record RouteSegment : Type 0 where
  pub segment_id : String
  pub region : String
  pub slot_start : ℕ
  pub slot_end : ℕ
  pub duration_minutes : ℕ

-- `LOCAL_REGIONS`, and whether `PEER_BOOKING_URL` is set.
pub record Config : Type 0 where
  pub local_regions : List String
  pub has_peer : Bool

-- `_is_local`.
unfoldable pub is_local : Config → String → Bool
unfolding includes
is_local config region = if not config.has_peer then true else includes config.local_regions region

-- A call of the peer: it arrives and is answered; or it arrives and the answer is lost; or it is lost
-- itself; or it arrives and the answer breaks off or cannot be read. The caller sees one of the three
-- errors of the network that `_peer_reserve` catches in the second and third case, and an error that
-- it does not catch in the last, as RemoteProtocolError.
pub data Link : Type 0 where
  answered answer_lost request_lost answer_broken : Link

-- The exceptions on the way, with what their texts tell.
pub data SagaError : Type 0 where
  segment_full : (segment_id : String) (slot : ℕ) → SagaError
  peer_full : (segment_id : String) → SagaError
  region_unavailable : (region : String) → SagaError
  lock_taken : (segment_id : String) (slot : ℕ) → SagaError
  unknown_region : (region : String) → SagaError
  peer_status : ℕ → SagaError
  answer_unread no_route no_roads lock_server_down database_refused broker_down : SagaError

-- What is answered from outside: for the lock and the call of each segment, by the commit, by the
-- broker, and while compensating. `settles` is that the commit of the settled booking and its refresh,
-- behind the saga, succeed.
pub record Env : Type 0 where
  pub lock : RouteSegment → Lock
  pub link : RouteSegment → Link
  pub peer_lock : RouteSegment → Lock
  pub commits : Bool
  pub takes_confirmed : Bool
  pub releases : RouteSegment → Bool
  pub release_link : Link
  pub takes_failed : Bool
  pub settles : Bool

pub record Job : Type 0 where
  pub booking_id : String
  pub driver_id : String
  pub plate_number : Option String
  pub departure_time : ℕ

-- An event on the exchange.
pub record Event : Type 0 where
  pub routing_key : String
  pub booking_id : String
  pub driver_id : String
  pub plate_number : Option String
  pub regions : List String
  pub departure_time : Option ℕ
