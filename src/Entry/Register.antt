-- ===== src/Entry/Register.antt =====
-- pages/Register.tsx.
use distributed_traffic_serv.Base.{
  String, Bool, true, false, Option, none, some, List, [], ◌∷◌, ◌==◌, nullish, or_text, to_upper,
  if◌then◌else◌,
}
use distributed_traffic_serv.Api.Reply.{Message, text, shown, ApiError, detail_or}
use distributed_traffic_serv.Session.Roles.{
  UserRole, driver, enforcement, admin, role_eq, role_beq, Region, ie, gb, fr,
}
use distributed_traffic_serv.Session.Provider.{Json, Server, Tab, Outcome, returned, threw, sign_up}

pub record RegisterForm : Type 0 where
  pub email : String
  pub password : String
  pub role : UserRole
  pub region : Region
  pub plate_number : String
  pub error : Message
  pub loading : Bool

abbrev pub empty_register : RegisterForm
empty_register = record {
  email = "";
  password = "";
  role = driver;
  region = ie;
  plate_number = "";
  error = text "";
  loading = false;
}

-- The handlers of the inputs.
abbrev pub set_register_email : String → RegisterForm → RegisterForm
set_register_email email s = record s { email = email }

abbrev pub set_register_password : String → RegisterForm → RegisterForm
set_register_password password s = record s { password = password }

unfoldable pub set_register_plate : String → RegisterForm → RegisterForm
unfolding to_upper
set_register_plate plate s = record s { plate_number = to_upper plate }

-- The handlers of the two selections.
abbrev pub set_register_role : UserRole → RegisterForm → RegisterForm
set_register_role role s = record s { role = role }

abbrev pub set_register_region : Region → RegisterForm → RegisterForm
set_register_region region s = record s { region = region }

-- `role === 'driver' ? plateNumber : undefined`.
unfoldable pub plate_of_role : UserRole → String → Option String
unfolding role_beq
plate_of_role role plate = if role == driver then some plate else none

-- `handleSubmit` up to its `await`.
abbrev pub register_begun : RegisterForm → RegisterForm
register_begun s = record s { error = text ""; loading = true }

-- `detail || err.message || 'Registration failed'`.
unfoldable pub register_message : ApiError → Message
unfolding detail_or
register_message e = detail_or e (or_text (nullish e.message "") "Registration failed")

-- The rest of `handleSubmit`: the form, and where it navigates.
unfoldable pub register_ended : Outcome → RegisterForm → RegisterForm × Option String
unfolding register_message
register_ended returned s = (record s { loading = false }, some "/")
register_ended (threw e) s = (record s { error = register_message e; loading = false }, none)

-- The whole of `handleSubmit`, in a tab.
unfoldable pub submit_register :
    Json → Server → RegisterForm → Tab → (RegisterForm × Option String) × Tab
unfolding sign_up register_ended plate_of_role
submit_register json server s t =
    let done : Tab × Outcome =
      sign_up json server s.email s.password s.role s.region (plate_of_role s.role s.plate_number)
        t in
    (register_ended done.1 (register_begun s), done.0)

-- A selection offers its values by their texts.
pub record RegisterScreen : Type 0 where
  pub heading : String
  pub subtitle : String
  pub email : String
  pub password : String
  pub role : UserRole
  pub roles : List (UserRole × String)
  pub region : Region
  pub regions : List (Region × String)
  pub plate : Option String
  pub error : Option Message
  pub button_disabled : Bool
  pub button_text : String
  pub sign_in_goes_to : String

-- What is rendered.
unfoldable pub register_screen : RegisterForm → RegisterScreen
unfolding role_beq
register_screen s = record {
  heading = "Register";
  subtitle = "Join the distributed traffic system";
  email = s.email;
  password = s.password;
  role = s.role;
  roles = (driver, "Driver") ∷ (enforcement, "Enforcement Agent") ∷ (admin, "Admin") ∷ [];
  region = s.region;
  regions = (ie, "🇮🇪 Ireland") ∷ (gb, "🇬🇧 United Kingdom") ∷ (fr, "🇫🇷 France") ∷ [];
  plate = if s.role == driver then some s.plate_number else none;
  error = if shown s.error then some s.error else none;
  button_disabled = s.loading;
  button_text = if s.loading then "Creating account…" else "Create account →";
  sign_in_goes_to = "/signin";
}
