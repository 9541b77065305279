-- ===== src/Entry/SignIn.antt =====
-- pages/SignIn.tsx.
use distributed_traffic_serv.Base.{String, Bool, true, false, Option, none, some, if◌then◌else◌}
use distributed_traffic_serv.Api.Reply.{Message, text, shown, detail_or}
use distributed_traffic_serv.Session.Provider.{Json, Server, Tab, Outcome, returned, threw, sign_in}

pub record SignInForm : Type 0 where
  pub email : String
  pub password : String
  pub error : Message
  pub loading : Bool

abbrev pub empty_sign_in : SignInForm
empty_sign_in = record { email = ""; password = ""; error = text ""; loading = false }

-- The handlers of the two inputs.
abbrev pub set_sign_in_email : String → SignInForm → SignInForm
set_sign_in_email email s = record s { email = email }

abbrev pub set_sign_in_password : String → SignInForm → SignInForm
set_sign_in_password password s = record s { password = password }

-- `handleSubmit` up to its `await`.
abbrev pub sign_in_begun : SignInForm → SignInForm
sign_in_begun s = record s { error = text ""; loading = true }

-- The rest of `handleSubmit`: the form, and where it navigates.
unfoldable pub sign_in_ended : Outcome → SignInForm → SignInForm × Option String
unfolding detail_or
sign_in_ended returned s = (record s { loading = false }, some "/")
sign_in_ended (threw e) s =
    (record s { error = detail_or e "Invalid email or password"; loading = false }, none)

-- The whole of `handleSubmit`, in a tab.
unfoldable pub submit_sign_in :
    Json → Server → SignInForm → Tab → (SignInForm × Option String) × Tab
unfolding sign_in sign_in_ended
submit_sign_in json server s t =
    let done : Tab × Outcome = sign_in json server s.email s.password t in
    (sign_in_ended done.1 (sign_in_begun s), done.0)

pub record SignInScreen : Type 0 where
  pub heading : String
  pub subtitle : String
  pub email : String
  pub password : String
  pub error : Option Message
  pub button_disabled : Bool
  pub button_text : String
  pub register_goes_to : String

-- What is rendered.
unfoldable pub sign_in_screen : SignInForm → SignInScreen
sign_in_screen s = record {
  heading = "Sign in";
  subtitle = "Access the traffic booking system";
  email = s.email;
  password = s.password;
  error = if shown s.error then some s.error else none;
  button_disabled = s.loading;
  button_text = if s.loading then "Signing in…" else "Sign in →";
  register_goes_to = "/register";
}
