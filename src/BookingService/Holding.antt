-- ===== src/BookingService/Holding.antt =====
-- Which active reservations a booking has in a database, and what releasing leaves of them.
use distributed_traffic_serv.Base.{
  ◌≡◌, refl, String, Bool, true, false, not, ◌&&◌, List, [], ◌∷◌, All, All-imp, map, ◌==◌,
  string_eq, arith,
}
use distributed_traffic_serv.BookingService.Store.{
  Schema, region_ireland, region_uk, region_france, schema_eq, schema_beq, Reservation, Db,
  is_active,
}
use distributed_traffic_serv.BookingService.Capacity.{release_row, release_segment}
use distributed_traffic_serv.BookingService.Peer.{peer_release}

-- An active reservation of the booking.
unfoldable pub is_held : String → Reservation → Bool
unfolding is_active
is_held id r = r.booking_id == id && is_active r.status

-- The booking's active reservations stand in schemas of the given kind only.
abbrev pub HoldsOnly : (Schema → Bool) → String → List Reservation → Type 0
HoldsOnly kind id rows = All (λ r. (is_held id r && not (kind r.schema)) ≡ false) rows

abbrev pub nowhere : Schema → Bool
nowhere schema = false

-- The booking has no active reservation.
abbrev pub HoldsNone : String → Db → Type 0
HoldsNone id db = HoldsOnly nowhere id db.reservations

pub HoldsOnly-imp :
    (kind other : Schema → Bool)
    → ((s : Schema) → kind s ≡ true → other s ≡ true)
    → (id : String) (rows : List Reservation) → HoldsOnly kind id rows
    → HoldsOnly other id rows
HoldsOnly-imp kind other h id rows = All-imp (λ r k. ground (arith, h r.schema)) rows

pub HoldsOnly-everywhere : (id : String) (rows : List Reservation) → HoldsOnly (λ _. true) id rows
HoldsOnly-everywhere id [] = tt
HoldsOnly-everywhere id (r ∷ rows) = (ground arith, HoldsOnly-everywhere id rows)

-- Releasing a schema leaves the others.
pub release-HoldsOnly :
    (kind : Schema → Bool) (schema : Schema) (id : String) (rows : List Reservation)
    → HoldsOnly kind id rows
    → HoldsOnly (λ s. kind s && not (s == schema)) id (map (release_row schema id) rows)
unfolding is_held
release-HoldsOnly kind schema id [] h = tt
release-HoldsOnly kind schema id (r ∷ rows) (p, h) =
    (ground arith, release-HoldsOnly kind schema id rows h)

abbrev all_released : Schema → Bool
all_released s =
    ((true && not (s == region_ireland)) && not (s == region_uk)) && not (s == region_france)

all_released-false : (s : Schema) → all_released s ≡ false
unfolding schema_beq
all_released-false region_ireland = refl
all_released-false region_uk = refl
all_released-false region_france = refl

pub peer_release-HoldsNone : (id : String) (db : Db) → HoldsNone id (peer_release id db)
unfolding peer_release release_segment
peer_release-HoldsNone id db =
    HoldsOnly-imp all_released nowhere (λ s h. ground (arith, all_released-false s)) id _
      (release-HoldsOnly _ region_france id _ (
        release-HoldsOnly _ region_uk id _ (
          release-HoldsOnly (λ _. true) region_ireland id _
            (HoldsOnly-everywhere id db.reservations))))
