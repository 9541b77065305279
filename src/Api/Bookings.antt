-- ===== src/Api/Bookings.antt =====
-- api/bookings.ts. A JSON number is an exact decimal.
use distributed_traffic_serv.Base.{ℕ, String, ◌<>◌, Bool, Option, List}
use distributed_traffic_serv.Base.Decimal.{Decimal}
use distributed_traffic_serv.Api.Client.{Method, get, post, delete}

pub record BookingPayload : Type 0 where
  pub origin_lat : Decimal
  pub origin_lng : Decimal
  pub destination_lat : Decimal
  pub destination_lng : Decimal
  pub departure_time : String
  pub plate_number : Option String

pub data BookingStatus : Type 0 where
  confirmed rejected pending cancelled saga_in_progress : BookingStatus

pub record BookingSegment : Type 0 where
  pub segment_id : String
  pub region : String

pub record BookingOut : Type 0 where
  pub booking_id : String
  pub status : BookingStatus
  pub estimated_duration_minutes : Option ℕ
  pub created_at : String
  pub segments : Option (List BookingSegment)

pub record RoutePreviewPayload : Type 0 where
  pub origin_lat : Decimal
  pub origin_lng : Decimal
  pub destination_lat : Decimal
  pub destination_lng : Decimal
  pub departure_time : String

pub record RoutePreviewSegment : Type 0 where
  pub segment_id : String
  pub segment_name : String
  pub region : String
  pub distance_km : Decimal
  pub duration_minutes : ℕ
  pub slot_start : String
  pub slot_end : String
  pub start_lat : Option Decimal
  pub start_lng : Option Decimal
  pub end_lat : Option Decimal
  pub end_lng : Option Decimal

pub record RoutePreviewOut : Type 0 where
  pub route_available : Bool
  pub reason : Option String
  pub estimated_duration_minutes : Option ℕ
  pub region_chain : List String
  pub segments : List RoutePreviewSegment

-- A request: its method, its path below the base URL, and its body.
pub data BookingRequest : Type 0 where
  with_booking : Method → String → BookingPayload → BookingRequest
  with_preview : Method → String → RoutePreviewPayload → BookingRequest
  bare : Method → String → BookingRequest

unfoldable pub create_booking : BookingPayload → BookingRequest
create_booking payload = with_booking post "/bookings" payload

unfoldable pub preview_route : RoutePreviewPayload → BookingRequest
preview_route payload = with_preview post "/bookings/preview-route" payload

unfoldable pub get_my_journeys : BookingRequest
get_my_journeys = bare get "/bookings/my/journeys"

unfoldable pub get_booking : String → BookingRequest
get_booking id = bare get ("/bookings/" <> id)

unfoldable pub cancel_booking : String → BookingRequest
cancel_booking id = bare delete ("/bookings/" <> id)
