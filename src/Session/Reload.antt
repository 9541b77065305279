-- ===== src/Session/Reload.antt =====
-- What the operations of AuthContext.tsx leave behind: across a reload, after a sign-out, after a
-- refused call, and from one device to the next.
use distributed_traffic_serv.Base.{
  ◌≡◌, ◌≢◌, refl, ap, ◌==◌, string_eq, eq_iff, String, true, false, Option, none, some, truthy,
  Bool-cases, ◌⊎◌, inl, inr, arith,
}
use distributed_traffic_serv.Api.Reply.{ApiError, ok, failed}
use distributed_traffic_serv.Api.Client.{bearer, authorization, settle, is_401, on_rejected}
use distributed_traffic_serv.Api.Auth.{
  RegisterPayload, AuthResponse, ProfileResponse, login, register, get_profile,
}
use distributed_traffic_serv.Session.Roles.{
  UserRole, Region, role_from-to_backend, region_from-to_backend,
}
use distributed_traffic_serv.Session.Provider.{
  Json, IsFaithful, Server, Tab, fresh, reload, when_some, register_payload, sign_in, sign_up,
  sign_out, returned,
}
use distributed_traffic_serv.Session.Coherence.{IsSound, coherent, expired, coherent-reload}

-- In a sound tab that is not leaving, loading the page again succeeds and restores exactly the
-- user in memory, or nobody if there is none.
pub reload-restores :
    (json : Json)
    → IsFaithful json
    → (t : Tab) → IsSound json t
    → t.browser.leaving ≡ none
    → (t' : Tab) × (reload json t ≡ some t') × (t'.user ≡ t.user)
reload-restores json faithful t (coherent _ c) stays =
    let (t', found, same, _) = coherent-reload json faithful t c in (t', found, same)
reload-restores json faithful t (expired x _) stays = cc

-- After a sign-out nobody is signed in, a request carries no Authorization header, and loading the
-- page again signs nobody in.
pub sign_out_forgets :
    (json : Json) (t : Tab)
    → ((sign_out t).user ≡ none)
      × (authorization (sign_out t).browser ≡ none)
      × (reload json (sign_out t)
          ≡ some (record (fresh (sign_out t).browser.storage) { loading = false }))
unfolding sign_out authorization reload
sign_out_forgets json t = (refl, refl, refl)

-- What a failed call does, whatever call it was. With status 401 both keys leave the storage, the
-- tab goes to the sign-in page, and the page loaded there has nobody signed in and sends no
-- Authorization header. With any other status, or with no answer at all, the tab stays as it was.
pub unauthorized_expires :
    (json : Json) (e : ApiError) (t : Tab)
    → let t' : Tab = record t { browser = settle {A = Unit {0}} (failed e) t.browser } in
      ((is_401 e.response ≡ true)
        × (t'.browser.storage.token ≡ none)
        × (t'.browser.storage.user ≡ none)
        × (t'.browser.leaving ≡ some "/signin")
        × ((opened : Tab) × (reload json t' ≡ some opened)
            × (opened.user ≡ none)
            × (authorization opened.browser ≡ none)))
      ⊎ ((is_401 e.response ≡ false) × (t' ≡ t))
unfolding settle on_rejected reload authorization
unauthorized_expires json e t = elim (Bool-cases (is_401 e.response)) [
  | inl denied ↦
      inl (denied, rw denied refl, rw denied refl, rw denied refl, rw denied (_, refl, refl, refl))
  | inr other ↦ inr (other, rw other refl)
]

when_some_shown : (plate : Option String) → plate ≢ some "" → when_some plate ≡ plate
when_some_shown none shown = refl
when_some_shown (some s) shown = elim (Bool-cases (s == "")) [
  | inl e ↦ absurd (shown (ap some ((eq_iff s "").0 e)))
  | inr e ↦ rw e refl
]

-- The account that the backend made of a registration: it has the words of the payload.
pub record IsAccount (payload : RegisterPayload) (res : AuthResponse) (profile : ProfileResponse)
    : Type 0 where
  pub same_role : res.role ≡ payload.role
  pub same_region : profile.region ≡ some payload.region
  pub same_plate : profile.plate_number ≡ payload.plate_number

-- A user who registers, and one who later signs in to the account that the backend made of what was
-- sent, are the same user, with the same email, role, region and plate. The server answers both with
-- one id, and the plate is not the empty text, which is not sent.
pub sign_in-sign_up :
    (json : Json) (server : Server) (email password : String) (role : UserRole) (region : Region)
    (plate : Option String) (t t' : Tab) (made res : AuthResponse) (profile : ProfileResponse)
    → server.auth
        (authorization t.browser)
        (register (register_payload email password role region plate))
      ≡ ok made
    → server.auth (authorization t'.browser) (login email password) ≡ ok res
    → truthy res.access_token ≡ true
    → server.profile (some (bearer res.access_token)) get_profile ≡ ok profile
    → res.user_id ≡ made.user_id
    → IsAccount (register_payload email password role region plate) res profile
    → plate ≢ some ""
    → ((sign_in json server email password t').0.user
        ≡ (sign_up json server email password role region plate t).0.user)
      × ((sign_in json server email password t').1 ≡ returned)
unfolding sign_in sign_up register_payload
sign_in-sign_up json server email password role region plate t t' made res profile e f p g i a
      shown =
    ground
      (arith, role_from-to_backend role, region_from-to_backend region, when_some_shown plate shown)
