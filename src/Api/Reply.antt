-- ===== src/Api/Reply.antt =====
-- What a call of the HTTP library (axios) settles to: the body of the answer, or the error that a
-- `catch` receives. The pages read `err.response?.status`, `err.response?.data?.detail`,
-- `err.code` and `err.message` of it, and nothing else.
use distributed_traffic_serv.Base.{
  ℕ, String, Bool, true, false, Option, none, some, truthy, if◌then◌else◌,
}

-- A value that is shown as a message: a text, or JSON that is no text. The services answer
-- `detail` as a text for an `HTTPException`, and as a list of objects for a request that fails
-- validation (422).
pub data Message : Type 0 where
  text : String → Message
  objects : Message

-- The empty text is falsy, an array or an object is not.
abbrev pub shown : Message → Bool
shown (text s) = truthy s
shown objects = true

-- React renders a text child, and throws at an object ("Objects are not valid as a React child").
abbrev pub renders : Message → Bool
renders (text s) = true
renders objects = false

-- `detail` is `none` where the body has none.
pub record Response : Type 0 where
  pub status : ℕ
  pub detail : Option Message

-- `response` is `none` where no answer came, `code` and `message` where the error has none.
pub record ApiError : Type 0 where
  pub response : Option Response
  pub code : Option String
  pub message : Option String

pub data Reply {ℓ} (A : Type ℓ) : Type ℓ where
  ok : A → Reply A
  failed : ApiError → Reply A

-- `err.response?.data?.detail`.
abbrev pub detail_of : Option Response → Option Message
detail_of none = none
detail_of (some r) = r.detail

-- `detail || fallback`.
abbrev pub or_message : Option Message → String → Message
or_message none fallback = text fallback
or_message (some m) fallback = if shown m then m else text fallback

-- `err.response?.data?.detail || fallback`.
unfoldable pub detail_or : ApiError → String → Message
detail_or e fallback = or_message (detail_of e.response) fallback

-- The error that `new Date(text).toISOString()` throws at a text that is no date.
abbrev pub range_error : ApiError
range_error = record { response = none; code = none; message = some "Invalid time value" }
