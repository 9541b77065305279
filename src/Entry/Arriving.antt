-- ===== src/Entry/Arriving.antt =====
-- Where the forms of SignIn.tsx and Register.tsx lead.
use distributed_traffic_serv.Base.{
  ◌≡◌, refl, ap, not, String, false, true, Option, none, some, truthy, arith, ◌==◌, string_eq,
  or_text, inl, inr, Bool-cases, nullish,
}
use distributed_traffic_serv.Api.Reply.{
  Message, shown, text, ApiError, detail_of, or_message, detail_or,
}
use distributed_traffic_serv.Session.Roles.{User}
use distributed_traffic_serv.Session.Provider.{Json, Server, Tab, Outcome}
use distributed_traffic_serv.Session.Attempt.{
  Attempt, entered, refused, sign_in-Attempt, IsAsTold, sign_up-Attempt,
}
use distributed_traffic_serv.Navigation.Routes.{Matcher, FindsRoutes, index, path_of}
use distributed_traffic_serv.Navigation.Guard.{page, visit}
use distributed_traffic_serv.Navigation.Settling.{home_page, visit_lands, landing, requested}
use distributed_traffic_serv.Entry.SignIn.{SignInForm, submit_sign_in, sign_in_ended, sign_in_begun}
use distributed_traffic_serv.Entry.Register.{
  RegisterForm, plate_of_role, submit_register, register_ended, register_begun, register_message,
}

-- How a submitted form ends: with nothing to tell, at "/", which leads to the first page of the
-- role of a user of the given kind; or where it was, with a message, and with the user of before.
pub data Ends (match : Matcher) (IsRight : User → Type 0) (before : Tab) (error : Message)
    (goes_to : Option String) (after : Tab) : Type 0 where
  arrived :
      (u : User)
      → IsRight u
      → after.user ≡ some u
      → error ≡ text ""
      → goes_to ≡ some "/"
      → visit 2 match after.user "/" ≡ some (page (home_page (some u.role)))
      → Ends match IsRight before error goes_to after
  told :
      shown error ≡ true
      → goes_to ≡ none
      → after.user ≡ before.user
      → Ends match IsRight before error goes_to after

home_visit :
    (match : Matcher)
    → FindsRoutes match
    → (user : Option User) (u : User) → user ≡ some u
    → visit 2 match user "/" ≡ some (page (home_page (some u.role)))
unfolding path_of landing requested
home_visit match finds user u same = rw same ((visit_lands match finds (some u) index).0)

or_message-shown :
    (m : Option Message) (t : String) → truthy t ≡ true → shown (or_message m t) ≡ true
or_message-shown none t h = h
or_message-shown (some m) t h = ground arith

or_text-truthy : (s t : String) → truthy t ≡ true → truthy (or_text s t) ≡ true
or_text-truthy s t h = elim (Bool-cases (s == "")) [ inl e ↦ rw e h | inr e ↦ rw e (ap not e) ]

register_message-shown : (e : ApiError) → shown (register_message e) ≡ true
unfolding register_message detail_or
register_message-shown e =
    or_message-shown (detail_of e.response) _
      (or_text-truthy (nullish e.message "") "Registration failed" refl)

sign_in_ended-Ends :
    (match : Matcher)
    → FindsRoutes match
    → (IsRight : User → Type 0) → (before after : Tab) (outcome : Outcome) (s : SignInForm)
    → Attempt IsRight before.user after.user outcome
    → ((sign_in_ended outcome (sign_in_begun s)).0.loading ≡ false)
      × Ends match IsRight before
          (sign_in_ended outcome (sign_in_begun s)).0.error
          (sign_in_ended outcome (sign_in_begun s)).1
          after
unfolding sign_in_ended detail_or
sign_in_ended-Ends match finds IsRight before after _ s (entered u right same) =
    (refl, arrived u right same refl refl (home_visit match finds after.user u same))
sign_in_ended-Ends match finds IsRight before after _ s (refused e same) =
    (refl, told (or_message-shown (detail_of e.response) _ refl) refl same)

register_ended-Ends :
    (match : Matcher)
    → FindsRoutes match
    → (IsRight : User → Type 0) → (before after : Tab) (outcome : Outcome) (s : RegisterForm)
    → Attempt IsRight before.user after.user outcome
    → ((register_ended outcome (register_begun s)).0.loading ≡ false)
      × Ends match IsRight before
          (register_ended outcome (register_begun s)).0.error
          (register_ended outcome (register_begun s)).1
          after
unfolding register_ended
register_ended-Ends match finds IsRight before after _ s (entered u right same) =
    (refl, arrived u right same refl refl (home_visit match finds after.user u same))
register_ended-Ends match finds IsRight before after _ s (refused e same) =
    (refl, told (register_message-shown e) refl same)

-- Whatever the services answer, a submitted sign-in ends: the form is no longer loading, and
-- either the visitor is signed in under the email of the form and the form leads within two
-- redirects to the first page of the role, or the form does not lead on and has a message, and who
-- is signed in has not changed.
pub submit_sign_in-Ends :
    (match : Matcher)
    → FindsRoutes match
    → (json : Json) (server : Server) (s : SignInForm) (t : Tab)
    → ((submit_sign_in json server s t).0.0.loading ≡ false)
      × Ends match
          (λ u. u.email ≡ s.email)
          t
          (submit_sign_in json server s t).0.0.error
          (submit_sign_in json server s t).0.1
          (submit_sign_in json server s t).1
unfolding submit_sign_in
submit_sign_in-Ends match finds json server s t =
    sign_in_ended-Ends match finds _ t _ _ s (sign_in-Attempt json server s.email s.password t)

-- Whatever the services answer, a submitted registration ends: the form is no longer loading, and
-- either the visitor is signed in with the email, role and region of the form, with its plate
-- if the role is a driver's and with none otherwise, and the form leads within two redirects to the
-- first page of the role, or the form does not lead on and has a message, and who is signed in has
-- not changed.
pub submit_register-Ends :
    (match : Matcher)
    → FindsRoutes match
    → (json : Json) (server : Server) (s : RegisterForm) (t : Tab)
    → ((submit_register json server s t).0.0.loading ≡ false)
      × Ends match
          (IsAsTold s.email s.role s.region (plate_of_role s.role s.plate_number))
          t
          (submit_register json server s t).0.0.error
          (submit_register json server s t).0.1
          (submit_register json server s t).1
unfolding submit_register
submit_register-Ends match finds json server s t = register_ended-Ends match finds _ t _ _ s (
    sign_up-Attempt json server s.email s.password s.role s.region
      (plate_of_role s.role s.plate_number) t)
