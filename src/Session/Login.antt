-- ===== src/Session/Login.antt =====
-- The form that signs in: `Login` of nasweb/frontend/src/js/app.js.
use ollozuna_nas.Prelude.{String, Option, none, some}
use ollozuna_nas.Api.Endpoints.{Call, login}
use ollozuna_nas.Session.{User, Event, logged_in}

pub record Login : Type 0 where
  pub name : String
  pub password : String
  pub err : String

abbrev pub blank : Login
blank = record { name = ""; password = ""; err = "" }

unfoldable pub type_name : Login → String → Login
type_name l v = record l { name = v }

unfoldable pub type_password : Login → String → Login
type_password l v = record l { password = v }

unfoldable pub submit : Login → Login × Call
submit l = (record l { err = "" }, login l.name l.password)

-- The answer to the call, none if it is refused, whatever for; `wrong` is the text `login.error`.
unfoldable pub answered : String → Login → Option User → Login × Option Event
answered wrong l none = (record l { err = wrong }, none)
answered wrong l (some u) = (l, some (logged_in u))
