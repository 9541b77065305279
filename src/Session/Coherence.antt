-- ===== src/Session/Coherence.antt =====
-- What holds of a tab between two operations of AuthContext.tsx: the user in memory is the stored
-- one, and has a token. A failed call with status 401 breaks it until the page is loaded again.
use distributed_traffic_serv.Base.{
  ◌≡◌, refl, inl, inr, String, true, false, Option, none, some, truthy, Bool-cases, Option-cases,
  sym, ap, ◌∙◌,
}
use mathlib.Core.Option
use mathlib.Core.Path.{ap₂, subst}
use distributed_traffic_serv.Api.Reply.{ApiError, Reply, ok, failed}
use distributed_traffic_serv.Api.Client.{Browser, bearer, no_session, settle, on_rejected, is_401}
use distributed_traffic_serv.Api.Auth.{AuthResponse, ProfileResponse, AuthRequest}
use distributed_traffic_serv.Session.Roles.{UserRole, Region, User}
use distributed_traffic_serv.Session.Provider.{
  Json, IsFaithful, Server, Tab, fresh, rehydrate, reload, sign_in, sign_up, sign_out, after_login,
  after_profile, after_register, set_token, rehydrate_from,
}

-- A user in memory has a token, which each request carries.
abbrev pub Held : Option User → Browser → Type 0
Held none b = Unit {0}
Held (some u) b =
    (token : String) × (b.storage.token ≡ some token)
    × (truthy token ≡ true)
    × (b.header ≡ some (bearer token))

-- The tokens that a server gives are not empty.
abbrev pub GivesTokens : Server → Type 0
GivesTokens server =
    (header : Option String) (request : AuthRequest) (res : AuthResponse)
    → server.auth header request ≡ ok res
    → truthy res.access_token ≡ true

module _ (json : Json) where
  pub record IsCoherent (t : Tab) : Type 0 where
    pub stored : t.browser.storage.user ≡ Option.map json.stringify t.user
    pub held : Held t.user t.browser

  -- After a 401 the storage is empty and the tab is about to load the sign-in page.
  pub data IsSound (t : Tab) : Type 0 where
    coherent : t.browser.leaving ≡ none → IsCoherent t → IsSound t
    expired : t.browser.leaving ≡ some "/signin" → t.browser.storage ≡ no_session → IsSound t

  -- The operations, as the pages call them: the forms that sign in are rendered only while nobody
  -- is signed in (Root.tsx), and a tab that is leaving does nothing but settle calls.
  pub data Step (t : Tab) : Tab → Type 1 where
    signs_in :
        t.browser.leaving ≡ none
        → t.user ≡ none
        → (server : Server) → GivesTokens server
        → (email password : String) → Step t (sign_in json server email password t).0
    signs_up :
        t.browser.leaving ≡ none
        → t.user ≡ none
        → (server : Server) → GivesTokens server
        → (email password : String) (role : UserRole) (region : Region) (plate : Option String)
        → Step t (sign_up json server email password role region plate t).0
    signs_out : t.browser.leaving ≡ none → Step t (sign_out t)
    calls : {A : Type 0} (reply : Reply A) → Step t (record t { browser = settle reply t.browser })
    reloads : (t' : Tab) → reload json t ≡ some t' → Step t t'

  pub data Reach (s : Tab) : Tab → Type 1 where
    here : Reach s s
    next : {t u : Tab} → Reach s t → Step t u → Reach s u

  on_rejected-IsSound :
      (e : ApiError) (t : Tab)
      → IsSound t
      → IsSound (record t { browser = on_rejected e t.browser })
  unfolding on_rejected
  on_rejected-IsSound e t h = elim (Bool-cases (is_401 e.response)) [
    | inl denied ↦ rw denied (expired refl refl)
    | inr other ↦ rw other h
  ]

  settle-IsSound :
      {A : Type 0} (reply : Reply A) (t : Tab)
      → IsSound t
      → IsSound (record t { browser = settle reply t.browser })
  unfolding settle
  settle-IsSound (ok a) t h = h
  settle-IsSound (failed e) t h = on_rejected-IsSound e t h

  sign_out-IsSound : (t : Tab) → t.browser.leaving ≡ none → IsSound (sign_out t)
  unfolding sign_out
  sign_out-IsSound t h = coherent h (record { stored = refl; held = tt })

  after_profile-IsSound :
      (email : String) (res : AuthResponse) (reply : Reply ProfileResponse) (t : Tab)
      → t.browser.leaving ≡ none
      → t.browser.storage.token ≡ some res.access_token
      → t.browser.header ≡ some (bearer res.access_token)
      → truthy res.access_token ≡ true
      → IsSound t
      → IsSound (after_profile json email res reply t).0
  unfolding after_profile
  after_profile-IsSound email res (failed e) t l k p q s =
      settle-IsSound {A = ProfileResponse} (failed e) t s
  after_profile-IsSound email res (ok profile) t l k p q s =
      coherent l (record { stored = refl; held = (res.access_token, k, q, p) })

  -- With nobody signed in, a sound tab that stays has no stored user.
  unset-IsSound :
      (token : String) (t : Tab)
      → t.browser.leaving ≡ none
      → t.user ≡ none
      → IsSound t
      → IsSound (record t { browser = set_token token t.browser })
  unset-IsSound token t l n (coherent _ c) =
      coherent l (record { stored = c.stored; held = rw n tt })
  unset-IsSound token t l n (expired x _) = cc

  after_login-IsSound :
      (server : Server) (email : String) (reply : Reply AuthResponse) (t : Tab)
      → t.browser.leaving ≡ none
      → t.user ≡ none
      → ((res : AuthResponse) → reply ≡ ok res → truthy res.access_token ≡ true)
      → IsSound t
      → IsSound (after_login json server email reply t).0
  unfolding after_login
  after_login-IsSound server email (failed e) t l n g s =
      settle-IsSound {A = AuthResponse} (failed e) t s
  after_login-IsSound server email (ok res) t l n g s =
      after_profile-IsSound email res _ _ l refl refl (g res refl)
        (unset-IsSound res.access_token t l n s)

  after_register-IsSound :
      (email : String) (role : UserRole) (region : Region) (plate : Option String)
      (reply : Reply AuthResponse) (t : Tab)
      → t.browser.leaving ≡ none
      → ((res : AuthResponse) → reply ≡ ok res → truthy res.access_token ≡ true)
      → IsSound t
      → IsSound (after_register json email role region plate reply t).0
  unfolding after_register
  after_register-IsSound email role region plate (failed e) t l g s =
      settle-IsSound {A = AuthResponse} (failed e) t s
  after_register-IsSound email role region plate (ok res) t l g s =
      coherent l (record { stored = refl; held = (res.access_token, refl, g res refl, refl) })

  rehydrate_from-none :
      (t : Tab) (token : Option String)
      → rehydrate_from json t token none ≡ some (record t { loading = false })
  unfolding rehydrate_from
  rehydrate_from-none t none = refl
  rehydrate_from-none t (some token) = refl

  abbrev signed_in : Tab → String → User → Tab
  signed_in t token u = record {
    browser = record (t.browser) { header = some (bearer token) };
    user = some u;
    loading = false;
  }

  rehydrate_from-some :
      IsFaithful json
      → (t : Tab) (token : String) (u : User) → truthy token ≡ true
      → rehydrate_from json t (some token) (some (json.stringify u)) ≡ some (signed_in t token u)
  unfolding rehydrate_from
  rehydrate_from-some faithful t token u p =
      rw (p, faithful.stringify-truthy u, faithful.parse-stringify u)

  -- A page that is loaded over the storage of a coherent tab restores its user.
  pub coherent-reload :
      IsFaithful json
      → (t : Tab) → IsCoherent t
      → (t' : Tab) × (reload json t ≡ some t') × (t'.user ≡ t.user) × IsSound t'
  unfolding reload
  coherent-reload faithful t c = elim (Option-cases t.user) [
    | inl nobody ↦
        let stored : t.browser.storage.user ≡ none =
          c.stored ∙ ap (Option.map json.stringify) nobody in
        (
          record (fresh t.browser.storage) { loading = false },
          ap (rehydrate_from json (fresh t.browser.storage) t.browser.storage.token) stored
              ∙ rehydrate_from-none (fresh t.browser.storage) t.browser.storage.token,
          sym nobody,
          coherent refl (record { stored = stored; held = tt }),
        )
    | inr (u, somebody) ↦
        let stored : t.browser.storage.user ≡ some (json.stringify u) =
          c.stored ∙ ap (Option.map json.stringify) somebody in
        let (token, p, q, r) = subst (λ v. Held v t.browser) somebody c.held in
        (
          signed_in (fresh t.browser.storage) token u,
          ap₂ (rehydrate_from json (fresh t.browser.storage)) p stored
              ∙ rehydrate_from-some faithful (fresh t.browser.storage) token u q,
          sym somebody,
          coherent refl (record { stored = stored; held = (token, p, q, refl) }),
        )
  ]

  expired-reload :
      (t : Tab)
      → t.browser.storage ≡ no_session
      → (t' : Tab) × (reload json t ≡ some t') × (t'.user ≡ none) × IsSound t'
  unfolding reload
  expired-reload t e = (
    record (fresh no_session) { loading = false },
    ap (λ s. rehydrate json (fresh s)) e ∙ rehydrate_from-none (fresh no_session) none,
    refl,
    coherent refl (record { stored = refl; held = tt }),
  )

  reload-IsSound : IsFaithful json → (t t' : Tab) → reload json t ≡ some t' → IsSound t → IsSound t'
  reload-IsSound faithful t t' e (coherent _ c) =
      let (u, found, _, s) = coherent-reload faithful t c in
      let same : u ≡ t' = cc in subst IsSound same s
  reload-IsSound faithful t t' e (expired _ x) =
      let (u, found, _, s) = expired-reload t x in let same : u ≡ t' = cc in subst IsSound same s

  Step-IsSound : IsFaithful json → {t t' : Tab} → Step t t' → IsSound t → IsSound t'
  unfolding sign_in sign_up
  Step-IsSound faithful {t} (signs_in l n server gives email password) s =
      after_login-IsSound server email _ t l n (λ res. gives _ _ res) s
  Step-IsSound faithful {t} (signs_up l n server gives email password role region plate) s =
      after_register-IsSound email role region plate _ t l (λ res. gives _ _ res) s
  Step-IsSound faithful {t} (signs_out l) s = sign_out-IsSound t l
  Step-IsSound faithful {t} (calls reply) s = settle-IsSound reply t s
  Step-IsSound faithful {t} (reloads t' e) s = reload-IsSound faithful t t' e s

  -- Where JSON is faithful, each tab that the operations reach from a sound one is sound: if it is
  -- not leaving after a 401, its stored user is the user in memory, who has a token that each
  -- request carries; and if it is, its storage is empty and it goes to the sign-in page.
  pub Reach-IsSound : IsFaithful json → {s t : Tab} → IsSound s → Reach s t → IsSound t
  Reach-IsSound faithful h here = h
  Reach-IsSound faithful h (next r st) = Step-IsSound faithful st (Reach-IsSound faithful h r)
