-- ===== src/VerifyPlate/State.antt =====
-- The state of the page and `handleSubmit`.
use distributed_traffic_serv.Base.{
  String, Bool, true, false, Option, none, some, List, [], ◌∷◌, take, to_upper, trim,
}
use distributed_traffic_serv.Api.Reply.{Message, text, Reply, ok, failed, detail_or}
use distributed_traffic_serv.Api.Client.{Method}
use distributed_traffic_serv.Api.Verification.{VerificationResult, verify_plate}

-- `RecentCheck`: a result, and when it was answered.
pub record RecentCheck : Type 0 where
  pub result : VerificationResult
  pub checked_at : String

pub record Lookup : Type 0 where
  pub plate : String
  pub result : Option VerificationResult
  pub loading : Bool
  pub error : Message
  pub recent_checks : List RecentCheck

abbrev pub initial_lookup : Lookup
initial_lookup = record {
  plate = "";
  result = none;
  loading = false;
  error = text "";
  recent_checks = [];
}

-- The handler of the input.
unfoldable pub type_plate : String → Lookup → Lookup
unfolding to_upper
type_plate typed s = record s { plate = to_upper typed }

-- `handleSubmit` up to its `await`: the state, and the request.
unfoldable pub submit_lookup : Lookup → Lookup × (Method × String)
unfolding to_upper trim verify_plate
submit_lookup s = (
  record s { loading = true; error = text ""; result = none },
  verify_plate (trim (to_upper s.plate)),
)

-- The rest of `handleSubmit`. `now` is the time of the answer, `new Date().toISOString()`.
unfoldable pub lookup_settled : String → Reply VerificationResult → Lookup → Lookup
unfolding detail_or
lookup_settled now (ok res) s = record s {
  result = some res;
  recent_checks = record { result = res; checked_at = now } ∷ take 4 s.recent_checks;
  loading = false;
}
lookup_settled now (failed e) s = record s {
  error = detail_or e "Lookup failed. Check the service is running.";
  loading = false;
}
