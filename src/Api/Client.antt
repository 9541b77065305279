-- ===== src/Api/Client.antt =====
-- client.ts: the axios instance, its two interceptors, and the browser state that they share with
-- AuthContext.tsx. axios itself is a package: what is modelled of it is that it calls the
-- interceptors, and that the headers of the instance are part of each request's.
use distributed_traffic_serv.Base.{
  ℕ, String, ◌<>◌, Bool, false, Option, none, some, truthy, ◌==◌, nat_eq, if◌then◌else◌,
}
use distributed_traffic_serv.Api.Reply.{ApiError, Response, Reply, ok, failed}

-- The keys 'routepass_token' and 'routepass_user' of `localStorage`.
pub record Storage : Type 0 where
  pub token : Option String
  pub user : Option String

-- The browser tab, as far as the client and the session see it. `header` is
-- `api.defaults.headers.common['Authorization']`; `leaving` is the address that was assigned to
-- `window.location.href`, after which the page is loaded anew.
pub record Browser : Type 0 where
  pub storage : Storage
  pub header : Option String
  pub leaving : Option String

pub data Method : Type 0 where
  get post delete : Method

-- `axios.create`.
abbrev pub base_url : String
base_url = "/api"

abbrev pub timeout_ms : ℕ
timeout_ms = 15000

abbrev pub bearer : String → String
bearer token = "Bearer " <> token

-- The request interceptor: `config` has the instance's header, which a truthy token replaces.
unfoldable pub authorization : Browser → Option String
authorization b = elim b.storage.token [
  | none ↦ b.header
  | some token ↦ if truthy token then some (bearer token) else b.header
]

abbrev pub no_session : Storage
no_session = record { token = none; user = none }

abbrev pub is_401 : Option Response → Bool
is_401 none = false
is_401 (some r) = r.status == 401

-- The response interceptor, at a rejected answer. The rejection is passed on.
unfoldable pub on_rejected : ApiError → Browser → Browser
on_rejected e b =
    if is_401 e.response then record b { storage = no_session; leaving = some "/signin" } else b

-- What a settled call has done to the browser.
unfoldable pub settle {ℓ} : {A : Type ℓ} → Reply A → Browser → Browser
settle (ok a) b = b
settle (failed e) b = on_rejected e b
