-- ===== src/Session/Tests.antt =====
-- Runs of the session, and its theorems at inputs that meet their hypotheses.
use ollozuna_nas.Prelude.{true, false, none, some, List, [], ◌∷◌, any, ◌≡◌, refl}
use ollozuna_nas.Session.{
  User, initial, screen, login_form, Event, logged_in, logged_out, expired, press, qbt_came, handle,
  run,
}
use ollozuna_nas.Session.Reach.{
  signs_in_admin, makes_available, is_allowed, route-allowed, expired-login,
}
use ollozuna_nas.Session.Login.{blank, type_name, type_password, submit, answered}
use ollozuna_nas.Session.Poll.{initial as no_poll, run as run_poll, tick, last_is_user, polls_once}
use ollozuna_nas.Api.Endpoints.{login, qbt_status}

abbrev root : User
root = record { username = "root"; is_admin = true; csrf_token = "t1" }

abbrev bob : User
bob = record { username = "bob"; is_admin = false; csrf_token = "t2" }

abbrev visit : List Event
visit = logged_in root ∷ press "admin" ∷ logged_out ∷ []

visit_tests :
    ((run initial visit).route ≡ "admin")
    × (screen (run initial visit) ≡ login_form)
    × ((run initial (logged_in bob ∷ press "admin" ∷ [])).route ≡ "raid")
    × ((run initial (logged_in bob ∷ qbt_came "running" ∷ press "qbt" ∷ [])).route ≡ "qbt")
unfolding run screen
visit_tests = (refl, refl, refl, refl)

route-allowed_example :
    is_allowed (any signs_in_admin visit) (any makes_available visit) (run initial visit).route
    ≡ true
route-allowed_example = route-allowed visit

expired-login_example :
    screen (run (handle (run initial visit) expired) (press "files" ∷ [])) ≡ login_form
expired-login_example = expired-login (run initial visit) (press "files" ∷ []) refl

-- A refused login leaves the fields and shows the error; an accepted one signs in.
login_tests :
    let typed = type_password (type_name blank "root") "pw" in
    ((submit typed).1 ≡ login "root" "pw")
    × ((answered "wrong" (submit typed).0 none).0 ≡ record typed { err = "wrong" })
    × ((answered "wrong" (submit typed).0 (some root)).1 ≡ some (logged_in root))
unfolding type_name type_password submit answered
login_tests = (refl, refl, refl)

polls_once_example : tick (run_poll no_poll (true ∷ false ∷ true ∷ true ∷ [])) ≡ qbt_status ∷ []
unfolding last_is_user
polls_once_example = polls_once (true ∷ false ∷ true ∷ true ∷ [])
