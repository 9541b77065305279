-- ===== src/BookJourney/Errors.antt =====
-- The message for a booking that failed.
use distributed_traffic_serv.Base.{
  refl, String, ◌↔◌, contains, to_lower, eq_iff, ◌≡◌, ◌≢◌, ◌⊎◌, inl, inr, true, false, ◌==◌, nat_eq,
  string_eq, Option, none, some, arith, Bool-cases, Option-cases, eqb_iff,
}
use distributed_traffic_serv.Api.Reply.{Message, text, objects, Response, ApiError, or_message}
use distributed_traffic_serv.BookJourney.Submit.{
  is_timeout, conflict_message, booking_message, node_down, node_unavailable, request_failed,
  tells_saga, saga_failed, capacity_full,
}

-- The detail has one of the three words of a failed saga, in letters of either case.
abbrev pub TellsOfSaga : String → Type 0
TellsOfSaga d =
    (contains (to_lower d) "peer" ≡ true)
    ⊎ ((contains (to_lower d) "saga" ≡ true) ⊎ (contains (to_lower d) "rollback" ≡ true))

-- The detail as a text, the empty one where there is none; `none` where it is no text.
abbrev pub said : Option Message → Option String
said none = some ""
said (some (text d)) = some d
said (some objects) = none

-- What a failure is, by what came back, independently of the order in which the page tests it.
pub data Cause (e : ApiError) : Type 0 where
  unreachable : (e.response ≡ none) ⊎ (is_timeout e ≡ true) → Cause e
  unavailable :
      (r : Response)
      → e.response ≡ some r
      → is_timeout e ≡ false
      → (r.status ≡ 502) ⊎ (r.status ≡ 503)
      → Cause e
  rolled_back :
      (r : Response)
      → e.response ≡ some r
      → is_timeout e ≡ false
      → r.status ≡ 409
      → (d : String) → said r.detail ≡ some d
      → TellsOfSaga d
      → Cause e
  full :
      (r : Response)
      → e.response ≡ some r
      → is_timeout e ≡ false
      → r.status ≡ 409
      → (d : String) → said r.detail ≡ some d
      → ¬ TellsOfSaga d
      → Cause e
  unreadable :
      (r : Response)
      → e.response ≡ some r
      → is_timeout e ≡ false
      → r.status ≡ 409
      → said r.detail ≡ none
      → Cause e
  other :
      (r : Response)
      → e.response ≡ some r
      → is_timeout e ≡ false
      → r.status ≢ 502
      → r.status ≢ 503
      → r.status ≢ 409
      → Cause e

-- The message that each cause calls for; the handler throws at an unreadable detail.
abbrev pub message_for : (e : ApiError) → Cause e → Option Message
message_for e (unreachable _) = some (text node_down)
message_for e (unavailable r _ _ _) = some (text node_unavailable)
message_for e (rolled_back r _ _ _ _ _ _) = some (text saga_failed)
message_for e (full r _ _ _ _ _ _) = some (text capacity_full)
message_for e (unreadable r _ _ _ _) = none
message_for e (other r _ _ _ _ _) = some (or_message r.detail request_failed)

tells_saga_iff : (d : String) → (tells_saga d ≡ true) ↔ TellsOfSaga d
unfolding tells_saga
tells_saga_iff d = ground arith

said-text : (m : Option Message) (d : String) → said m ≡ some d → or_message m "" ≡ text d
said-text none d h = cc
said-text (some (text t)) d h = elim (Bool-cases (t == "")) [
  | inl e ↦ let empty : t ≡ "" = (eq_iff t "").0 e in rw e cc
  | inr e ↦ rw e cc
]
said-text (some objects) d h = absurd (ground arith)

said-objects : (m : Option Message) → said m ≡ none → or_message m "" ≡ objects
said-objects none h = absurd (ground arith)
said-objects (some (text t)) h = absurd (ground arith)
said-objects (some objects) h = refl

conflict-saga :
    (m : Option Message) (d : String)
    → said m ≡ some d
    → TellsOfSaga d
    → conflict_message (or_message m "") ≡ some (text saga_failed)
unfolding conflict_message
conflict-saga m d h t = rw (said-text m d h) (rw ((tells_saga_iff d).1 t) refl)

conflict-full :
    (m : Option Message) (d : String)
    → said m ≡ some d
    → ¬ TellsOfSaga d
    → conflict_message (or_message m "") ≡ some (text capacity_full)
unfolding conflict_message
conflict-full m d h t = rw (said-text m d h) (elim (Bool-cases (tells_saga d)) [
  | inl e ↦ absurd (t ((tells_saga_iff d).0 e))
  | inr e ↦ rw e refl
])

conflict-cause :
    (e : ApiError) (r : Response)
    → e.response ≡ some r
    → is_timeout e ≡ false
    → r.status ≡ 409
    → Cause e
conflict-cause e r answered timely s = elim (Option-cases (said r.detail)) [
  | inl none_said ↦ unreadable r answered timely s none_said
  | inr (d, same) ↦ elim (Bool-cases (tells_saga d)) [
    | inl t ↦ rolled_back r answered timely s d same ((tells_saga_iff d).0 t)
    | inr t ↦
        full r answered timely s d same
          (λ told. let yes : tells_saga d ≡ true = (tells_saga_iff d).1 told in ground arith)
  ]
]

cause-status : (e : ApiError) (r : Response) → e.response ≡ some r → is_timeout e ≡ false → Cause e
cause-status e r answered timely = elim (Bool-cases (r.status == 503)) [
  | inl s ↦ unavailable r answered timely (inr ((eqb_iff _ _).0 s))
  | inr n ↦ elim (Bool-cases (r.status == 502)) [
    | inl s ↦ unavailable r answered timely (inl ((eqb_iff _ _).0 s))
    | inr n₂ ↦ elim (Bool-cases (r.status == 409)) [
      | inl s ↦ conflict-cause e r answered timely ((eqb_iff _ _).0 s)
      | inr n₃ ↦
          other r answered timely (ground (arith, eqb_iff r.status 502))
            (ground (arith, eqb_iff r.status 503)) (ground (arith, eqb_iff r.status 409))
    ]
  ]
]

-- Each failure has a cause.
pub cause_of : (e : ApiError) → Cause e
unfolding cause-status
cause_of e = elim (Option-cases e.response) [
  | inl lost ↦ unreachable (inl lost)
  | inr (r, answered) ↦ elim (Bool-cases (is_timeout e)) [
    | inl late ↦ unreachable (inr late)
    | inr timely ↦ cause-status e r answered timely
  ]
]

-- Whatever a booking failed with, the page shows the message of its cause: a node is down if no
-- answer came or the call timed out; else a node is unavailable at 502 and 503; else at 409 the
-- saga failed if the detail has one of the three words, the slot is full if it has none of them,
-- and no message is set if the detail is no text; and at any
-- other status the server's detail, or a general message if there is none.
pub booking_message-cause : (e : ApiError) (c : Cause e) → booking_message e ≡ message_for e c
unfolding booking_message conflict_message
booking_message-cause e (unreachable (inl lost)) = ground arith
booking_message-cause e (unreachable (inr late)) = ground arith
booking_message-cause e (unavailable r a t (inl s)) = ground (arith, eqb_iff r.status 502)
booking_message-cause e (unavailable r a t (inr s)) = ground (arith, eqb_iff r.status 503)
booking_message-cause e (rolled_back r a t s d same tells) = ground (
  arith,
  eqb_iff r.status 502,
  eqb_iff r.status 503,
  eqb_iff r.status 409,
  conflict-saga r.detail d same tells,
)
booking_message-cause e (full r a t s d same tells) = ground (
  arith,
  eqb_iff r.status 502,
  eqb_iff r.status 503,
  eqb_iff r.status 409,
  conflict-full r.detail d same tells,
)
booking_message-cause e (unreadable r a t s same) = ground (
  arith,
  eqb_iff r.status 502,
  eqb_iff r.status 503,
  eqb_iff r.status 409,
  said-objects r.detail same,
)
booking_message-cause e (other r a t x y z) =
    ground (arith, eqb_iff r.status 502, eqb_iff r.status 503, eqb_iff r.status 409)
