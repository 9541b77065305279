-- ===== src/Api/Verification.antt =====
-- api/verification.ts. `encodeURIComponent` is in Base.
use distributed_traffic_serv.Base.{String, ◌<>◌, Bool, Option, List}
use distributed_traffic_serv.Base.Uri.{encode_uri_component}
use distributed_traffic_serv.Api.Client.{Method, get}

pub data Source : Type 0 where
  cache database not_found : Source

pub record VerificationResult : Type 0 where
  pub plate_number : String
  pub is_authorized : Bool
  pub booking_id : Option String
  pub driver_id : Option String
  pub status : Option String
  pub departure_time : Option String
  pub journey_window_end : Option String
  pub segments : Option (List String)
  pub message : String
  pub source : Source
  pub checked_at : String

unfoldable pub verify_plate : String → Method × String
verify_plate plate = (get, "/verify/" <> encode_uri_component plate)
