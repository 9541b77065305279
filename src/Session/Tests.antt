-- ===== src/Session/Tests.antt =====
-- The theorems on the session at concrete inputs, and runs of the operations.
use distributed_traffic_serv.Base.{◌≡◌, ◌≢◌, refl, true, false, none, some, ◌⊎◌, Option, String}
use distributed_traffic_serv.Api.Reply.{ApiError, ok, failed, text}
use distributed_traffic_serv.Api.Client.{authorization, no_session, settle, is_401}
use distributed_traffic_serv.Api.Auth.{AuthResponse, ProfileResponse}
use distributed_traffic_serv.Session.Roles.{enforcement, gb, role_to_backend, region_to_backend}
use distributed_traffic_serv.Session.Provider.{
  Server, Tab, fresh, reload, register_payload, sign_in, sign_up, sign_out, returned,
}
use distributed_traffic_serv.Session.Coherence.{
  GivesTokens, IsSound, coherent, signs_in, Reach, here, next, Reach-IsSound,
}
use distributed_traffic_serv.Session.Reload.{
  reload-restores, sign_out_forgets, unauthorized_expires, sign_in-sign_up,
}
use distributed_traffic_serv.Session.Sample.{json, json-IsFaithful}

abbrev made : AuthResponse
made = record {
  access_token = "t1";
  token_type = "bearer";
  user_id = "u1";
  role = "enforcement_agent";
}

abbrev profile : ProfileResponse
profile = record {
  id = "u1";
  email = "a@b.ie";
  role = "enforcement_agent";
  plate_number = some "1-D-1";
  region = some "EU_WEST_UK";
}

abbrev server : Server
server = record { auth = λ _ _. ok made; profile = λ _ _. ok profile }

server-GivesTokens : GivesTokens server
server-GivesTokens header request res e = let same : made ≡ res = cc in rw (← same) refl

abbrev empty_tab : Tab
empty_tab = record (fresh no_session) { loading = false }

empty_tab-IsSound : IsSound json empty_tab
unfolding fresh
empty_tab-IsSound = coherent refl (record { stored = refl; held = tt })

abbrev entered : Tab
entered = (sign_in json server "a@b.ie" "secret" empty_tab).0

entered-Reach : Reach json empty_tab entered
unfolding fresh
entered-Reach = next here (signs_in refl refl server server-GivesTokens "a@b.ie" "secret")

Reach-IsSound_example : IsSound json entered
Reach-IsSound_example = Reach-IsSound json json-IsFaithful empty_tab-IsSound entered-Reach

reload-restores_test : (t' : Tab) × (reload json entered ≡ some t') × (t'.user ≡ entered.user)
unfolding sign_in fresh
reload-restores_test =
    reload-restores json json-IsFaithful entered
      (Reach-IsSound json json-IsFaithful empty_tab-IsSound entered-Reach) refl

sign_out_forgets_test :
    ((sign_out entered).user ≡ none)
    × (authorization (sign_out entered).browser ≡ none)
    × (reload json (sign_out entered)
        ≡ some (record (fresh (sign_out entered).browser.storage) { loading = false }))
sign_out_forgets_test = sign_out_forgets json entered

abbrev denied : ApiError
denied = record {
  response = some (record { status = 401; detail = some (text "Invalid credentials") });
  code = none;
  message = none;
}

abbrev after_denied : Tab
after_denied = record entered { browser = settle {A = Unit {0}} (failed denied) entered.browser }

unauthorized_expires_example :
    ((is_401 denied.response ≡ true)
      × (after_denied.browser.storage.token ≡ none)
      × (after_denied.browser.storage.user ≡ none)
      × (after_denied.browser.leaving ≡ some "/signin")
      × ((opened : Tab) × (reload json after_denied ≡ some opened)
          × (opened.user ≡ none)
          × (authorization opened.browser ≡ none)))
    ⊎ ((is_401 denied.response ≡ false) × (after_denied ≡ entered))
unauthorized_expires_example = unauthorized_expires json denied entered

abbrev plate : Option String
plate = some "1-D-1"

plate_is_shown : plate ≢ some ""
plate_is_shown e = cc

sign_in-sign_up_example :
    (entered.user ≡ (sign_up json server "a@b.ie" "secret" enforcement gb plate empty_tab).0.user)
    × ((sign_in json server "a@b.ie" "secret" empty_tab).1 ≡ returned)
unfolding role_to_backend region_to_backend register_payload
sign_in-sign_up_example =
    sign_in-sign_up json server "a@b.ie" "secret" enforcement gb plate empty_tab empty_tab made made
      profile refl refl refl refl refl
      (record { same_role = refl; same_region = refl; same_plate = refl }) plate_is_shown
