-- ===== src/Entry/Tests.antt =====
-- The forms of a visitor at concrete inputs.
use distributed_traffic_serv.Base.{◌≡◌, refl, false, none, some, to_upper, string_eq}
use distributed_traffic_serv.Api.Reply.{ApiError, ok, failed, objects}
use distributed_traffic_serv.Api.Auth.{AuthResponse}
use distributed_traffic_serv.Api.Client.{no_session}
use distributed_traffic_serv.Session.Roles.{driver, enforcement, ie}
use distributed_traffic_serv.Session.Provider.{Server, Tab, fresh}
use distributed_traffic_serv.Session.Attempt.{IsAsTold}
use distributed_traffic_serv.Session.Sample.{json}
use distributed_traffic_serv.Navigation.Sample.{exact, exact-FindsRoutes}
use distributed_traffic_serv.Entry.SignIn.{SignInForm, empty_sign_in, submit_sign_in}
use distributed_traffic_serv.Entry.Register.{
  RegisterForm, empty_register, set_register_plate, set_register_role, plate_of_role,
  submit_register, register_screen,
}
use distributed_traffic_serv.Entry.Arriving.{Ends, submit_sign_in-Ends, submit_register-Ends}

abbrev invalid : ApiError
invalid = record {
  response = some (record { status = 422; detail = some objects });
  code = none;
  message = none;
}

abbrev account : AuthResponse
account = record { access_token = "t1"; token_type = "bearer"; user_id = "u1"; role = "driver" }

abbrev server : Server
server = record { auth = λ _ _. ok account; profile = λ _ _. failed invalid }

abbrev visitor : Tab
visitor = record (fresh no_session) { loading = false }

abbrev credentials : SignInForm
credentials = record empty_sign_in { email = "a@b.ie"; password = "secret" }

abbrev details : RegisterForm
details = record (set_register_plate "1-d-1" empty_register) {
  email = "a@b.ie";
  password = "secret";
}

plate_test : (register_screen details).plate ≡ some "1-D-1"
unfolding register_screen set_register_plate to_upper
plate_test = refl

no_plate_test : (register_screen (set_register_role enforcement details)).plate ≡ none
unfolding register_screen set_register_plate to_upper
no_plate_test = refl

submit_sign_in-Ends_test :
    ((submit_sign_in json server credentials visitor).0.0.loading ≡ false)
    × Ends exact
        (λ u. u.email ≡ "a@b.ie")
        visitor
        (submit_sign_in json server credentials visitor).0.0.error
        (submit_sign_in json server credentials visitor).0.1
        (submit_sign_in json server credentials visitor).1
submit_sign_in-Ends_test =
    submit_sign_in-Ends exact exact-FindsRoutes json server credentials visitor

submit_register-Ends_test :
    ((submit_register json server details visitor).0.0.loading ≡ false)
    × Ends exact
        (IsAsTold details.email driver ie (plate_of_role driver details.plate_number))
        visitor
        (submit_register json server details visitor).0.0.error
        (submit_register json server details visitor).0.1
        (submit_register json server details visitor).1
unfolding set_register_plate
submit_register-Ends_test = submit_register-Ends exact exact-FindsRoutes json server details visitor
