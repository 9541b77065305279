-- ===== src/VerificationService/Cache.antt =====
-- cache.py: the bookings that Redis keeps, each under the key of its plate until it expires. The data
-- are kept as a record in place of their JSON text. Letters are those of ASCII in upper-casing.
use distributed_traffic_serv.Base.{
  ℕ, ◌+◌, ◌-◌, ◌*◌, ◌/◌, ltb, String, ◌<>◌, not, Option, none, some, List, ◌∷◌, ◌==◌, string_eq,
  filter, lookup, to_upper, if◌then◌else◌,
}

abbrev pub second : ℕ
second = 1000000

-- What both writers of the cache write. They always give the end of the journey's window.
pub record CachedBooking : Type 0 where
  pub booking_id : String
  pub driver_id : String
  pub status : String
  pub departure_time : ℕ
  pub journey_window_end : ℕ
  pub segments : List String

pub record Entry : Type 0 where
  pub booking_data : CachedBooking
  pub expires_at : ℕ

abbrev pub Redis : Type 0
Redis = List (String × Entry)

-- `_cache_key`.
abbrev pub cache_key : String → String
cache_key plate = "active_booking:" <> to_upper plate

-- The seconds that `cache_active_booking` lets an entry live.
unfoldable pub ttl_seconds : (window_end now : ℕ) → ℕ
ttl_seconds window_end now =
    if ltb 0 ((window_end - now) / second) then (window_end - now) / second + 300 else 3600

abbrev pub without : String → Redis → Redis
without key redis = filter (λ e. not (e.0 == key)) redis

-- `cache_active_booking`, at the time `now`.
unfoldable pub cache_active_booking : String → CachedBooking → ℕ → Redis → Redis
unfolding ttl_seconds filter to_upper
cache_active_booking plate booking_data now redis =
    (
      cache_key plate,
      record {
        booking_data = booking_data;
        expires_at = now + ttl_seconds booking_data.journey_window_end now * second;
      },
    )
    ∷ without (cache_key plate) redis

-- What `redis.get` gives of an entry.
unfoldable pub alive : ℕ → Option Entry → Option CachedBooking
alive now none = none
alive now (some e) = if ltb now e.expires_at then some e.booking_data else none

-- `get_cached_booking`.
unfoldable pub get_cached_booking : String → ℕ → Redis → Option CachedBooking
unfolding alive lookup to_upper
get_cached_booking plate now redis = alive now (lookup (cache_key plate) redis)

-- `invalidate_booking`.
unfoldable pub invalidate_booking : String → Redis → Redis
unfolding filter to_upper
invalidate_booking plate redis = without (cache_key plate) redis
