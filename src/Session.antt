-- ===== src/Session.antt =====
-- The session and the navigation: `App`, `Login` and `Sidebar` of nasweb/frontend/src/js/app.js, with the token of
-- nasweb/frontend/src/js/api.js. Events come in any order, as the answers of the server do.
pub mod Reach
pub mod Login
pub mod Poll
mod Tests
use ollozuna_nas.Prelude.{
  String, Bool, true, false, not, ◌||◌, ◌&&◌, Option, none, some, List, [], ◌∷◌, ◌==◌,
  if◌then◌else◌, includes,
}
use ollozuna_nas.Api.Endpoints.{
  Call, login as login_call, logout as logout_call, me as me_call, qbt_status,
}

pub record User : Type 0 where
  pub username : String
  pub is_admin : Bool
  pub csrf_token : String

-- `user`, `route` and `qbt` of `App`, of which the last is known by its state, and `csrfToken`.
pub record App : Type 0 where
  pub user : Option User
  pub route : String
  pub qbt : Option String
  pub token : Option String

abbrev pub initial : App
initial = record { user = none; route = "raid"; qbt = none; token = none }

-- What is on the screen: the login, or the page of a route, for an administrator or not.
pub data Screen : Type 0 where
  login_form : Screen
  page : String → Bool → Screen

unfoldable pub screen : App → Screen
screen a = elim a.user [ none ↦ login_form | some u ↦ page a.route u.is_admin ]

-- `items` of the sidebar.
abbrev pub items : List String
items = "raid" ∷ "users" ∷ "shares" ∷ "files" ∷ "dlna" ∷ []

unfoldable pub qbt_unavailable : Option String → Bool
qbt_unavailable none = true
qbt_unavailable (some state) = state == "unavailable"

abbrev pub signed_in_as_admin : Option User → Bool
signed_in_as_admin none = false
signed_in_as_admin (some u) = u.is_admin

abbrev signed_in : Option User → Bool
signed_in none = false
signed_in (some _) = true

-- The buttons that the sidebar shows and enables: the common ones, the one of the qBittorrent
-- page, and the one of the admin page. There is no sidebar without a user.
unfoldable pub offers : App → String → Bool
unfolding qbt_unavailable
offers a r =
    signed_in a.user
    && (includes items r
        || (r == "qbt" && not (qbt_unavailable a.qbt))
        || (r == "admin" && signed_in_as_admin a.user))

-- What happens: `me` finds a session or none, a login succeeds, a logout is answered in any way, the
-- event `session-expired` comes, the state of qBittorrent comes, and a button of the sidebar is pressed.
pub data Event : Type 0 where
  me_found logged_in : User → Event
  me_failed logged_out expired : Event
  qbt_came : String → Event
  press : String → Event

unfoldable pub handle : App → Event → App
unfolding offers
handle a (me_found u) = record a { user = some u; token = some u.csrf_token }
handle a (logged_in u) = record a { user = some u; token = some u.csrf_token }
handle a me_failed = record a { user = none }
handle a logged_out = record a { user = none }
handle a expired = record a { user = none }
handle a (qbt_came state) = record a { qbt = some state }
handle a (press r) = if offers a r then record a { route = r } else a

unfoldable pub run : App → List Event → App
unfolding handle
run a [] = a
run a (e ∷ es) = run (handle a e) es
