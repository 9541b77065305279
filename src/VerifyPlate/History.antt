-- ===== src/VerifyPlate/History.antt =====
-- The list "Recent Checks" of VerifyPlate.tsx over all that can happen on the page, and where a
-- lookup goes.
use distributed_traffic_serv.Base.{
  ◌<>◌, trim, to_upper, ◌≡◌, refl, ap, String, List, [], ◌∷◌, take, take-take, arith,
}
use distributed_traffic_serv.Base.Segment.{IsSegment, encode-IsSegment}
use distributed_traffic_serv.Api.Client.{get}
use distributed_traffic_serv.Api.Reply.{Reply, ok, failed}
use distributed_traffic_serv.Api.Verification.{VerificationResult, verify_plate}
use distributed_traffic_serv.VerifyPlate.State.{
  RecentCheck, Lookup, initial_lookup, type_plate, submit_lookup, lookup_settled,
}

-- All checks that were answered, newest first, behind one more answer.
abbrev log_after : String → Reply VerificationResult → List RecentCheck → List RecentCheck
log_after now (ok res) log = record { result = res; checked_at = now } ∷ log
log_after now (failed e) log = log

-- What can be reached, with the checks answered on the way. An answer may come at any time behind
-- its request, also behind a later request.
pub data Seen : List RecentCheck → Lookup → Type 0 where
  opened : Seen [] initial_lookup
  typed :
      {log : List RecentCheck} {s : Lookup} (plate : String)
      → Seen log s
      → Seen log (type_plate plate s)
  asked : {log : List RecentCheck} {s : Lookup} → Seen log s → Seen log (submit_lookup s).0
  told :
      {log : List RecentCheck} {s : Lookup} (now : String) (reply : Reply VerificationResult)
      → Seen log s
      → Seen (log_after now reply log) (lookup_settled now reply s)

told-take :
    (now : String) (reply : Reply VerificationResult) (log : List RecentCheck) (s : Lookup)
    → s.recent_checks ≡ take 5 log
    → (lookup_settled now reply s).recent_checks ≡ take 5 (log_after now reply log)
unfolding lookup_settled
told-take now (ok res) log s h =
    ap (λ t. record { result = res; checked_at = now } ∷ t) (rw h (take-take 4 5 log (omega arith)))
told-take now (failed e) log s h = h

-- Whatever the agent does, the list shows the five latest checks that were answered, newest first.
pub Seen-latest : {log : List RecentCheck} {s : Lookup} → Seen log s → s.recent_checks ≡ take 5 log
unfolding type_plate submit_lookup
Seen-latest opened = refl
Seen-latest (typed plate seen) = Seen-latest seen
Seen-latest (asked seen) = Seen-latest seen
Seen-latest (told {log = log} {s = s} now reply seen) = told-take now reply log s (Seen-latest seen)

-- Whatever text stands in the input, the address of the request is /verify/ and a text without a
-- slash, a question mark or a hash. The segments "." and "..", which a browser resolves to another
-- path, are among those texts.
pub submit_lookup-IsSegment :
    (s : Lookup)
    → (segment : String) × ((submit_lookup s).1 ≡ (get, "/verify/" <> segment)) × IsSegment segment
unfolding submit_lookup verify_plate
submit_lookup-IsSegment s = (_, refl, encode-IsSegment (trim (to_upper s.plate)))
