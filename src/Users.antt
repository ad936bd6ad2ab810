-- ===== src/Users.antt =====
-- Users: `UsersView` of nasweb/frontend/src/js/app.js with `AddEditUserModal` and `DeleteUserModal`. A handler is
-- given the server's answer to its call, the message of a refusal or none, and gives the new state
-- and its calls.
pub mod Editor
pub mod Admins
pub mod Groups
pub mod Panels
mod Tests
use Prim.Native.String
use ollozuna_nas.Prelude.{
  ℕ, zero, suc, String, Bool, true, false, not, Option, none, some, List, [], ◌∷◌, ◌++◌, map, ◌==◌,
  eqb, if◌then◌else◌, filterb, find_first, length, ◌&&◌, leb,
}
use ollozuna_nas.Json.{Json, bool, str, obj, member, empty}
use ollozuna_nas.Api.Endpoints.{
  Call, list_users, list_shares, create_user, set_password, delete_user as delete_call,
}

-- What the view reads of a user of the API.
pub record ApiUser : Type 0 where
  pub id : ℕ
  pub username : String
  pub is_admin : Bool
  pub created_at : String

-- A user as the view keeps it; an edit puts the password and its repetition in it.
pub record User : Type 0 where
  pub id : ℕ
  pub username : String
  pub full_name : String
  pub email : String
  pub group : String
  pub role : String
  pub status : String
  pub last_login : String
  pub created : String
  pub modified : String
  pub additional_groups : List String
  pub account_expiry : String
  pub enabled : Bool
  pub share_perms : List (String × String)
  pub passwords : Option (String × String)

-- `s.slice(0, n)`.
take_chars : ℕ → String → String
take_chars zero s = ""
take_chars (suc n) String.[] = ""
take_chars (suc n) (String.◌∷◌ c s) = String.◌∷◌ c (take_chars n s)

unfoldable pub map_api_user : ApiUser → User
unfolding take_chars
map_api_user u = record {
  id = u.id;
  username = u.username;
  full_name = "";
  email = "";
  group = if u.is_admin then "admins" else "users";
  role = if u.is_admin then "Admin" else "User";
  status = "Active";
  last_login = "—";
  created = if u.created_at == "" then "—" else take_chars 10 u.created_at;
  modified = "—";
  additional_groups = [];
  account_expiry = "";
  enabled = true;
  share_perms = [];
  passwords = none;
}

-- The form of a new user or of one that is edited; the id of a new one is not read.
pub record Form : Type 0 where
  pub id : ℕ
  pub username : String
  pub full_name : String
  pub email : String
  pub password : String
  pub confirm_password : String
  pub role : String
  pub group : String
  pub additional_groups : List String
  pub account_expiry : String
  pub enabled : Bool
  pub share_perms : List (String × String)

-- The state of the view; of the dialog, whether one is open.
pub record View : Type 0 where
  pub users : List User
  pub panel : String
  pub modal : Bool
  pub new_row_id : Option String
  pub api_err : String

abbrev pub load_calls : List Call
load_calls = list_users ∷ list_shares ∷ []

-- The answer to `listUsers`; a refusal is ignored.
unfoldable pub users_come : View → List ApiUser → View
unfolding map_api_user
users_come v us = record v { users = map map_api_user us }

unfoldable pub active_count : List User → ℕ
active_count us = length (filterb (λ (u : User). u.status == "Active") us)

unfoldable pub locked_count : List User → ℕ
locked_count us = length (filterb (λ (u : User). not (u.status == "Active")) us)

unfoldable pub admin_count : List User → ℕ
admin_count us = length (filterb (λ (u : User). u.role == "Admin") us)

user_json : Form → Json
user_json f = obj (
    member "username" (str f.username) (
      member "comment" (str f.full_name)
        (member "password" (str f.password) (member "is_admin" (bool (f.role == "Admin")) empty))))

-- What follows the answer to a call: the page is loaded again, or the message is shown.
unfoldable pub after : View → View → List Call → Option String → View × List Call
after v done calls none = (done, calls)
after v done calls (some m) = (record v { api_err = m }, [])

unfoldable pub add_user : View → Form → Option String → View × List Call
unfolding user_json after
add_user v f answer =
    let w : View = record v { api_err = "" } in
    let r = after w (record w { new_row_id = some f.username; modal = false }) load_calls answer in
    (r.0, create_user (user_json f) ∷ r.1)

-- The timer that takes the mark of the new row away.
unfoldable pub row_seen : View → View
row_seen v = record v { new_row_id = none }

-- `{ ...u, ...data, modified: today }`.
unfoldable pub edited : Form → String → User → User
edited f today u = record {
  id = f.id;
  username = f.username;
  full_name = f.full_name;
  email = f.email;
  group = f.group;
  role = f.role;
  status = u.status;
  last_login = u.last_login;
  created = u.created;
  modified = today;
  additional_groups = f.additional_groups;
  account_expiry = f.account_expiry;
  enabled = f.enabled;
  share_perms = f.share_perms;
  passwords = some (f.password, f.confirm_password);
}

do_edit : View → Form → String → View
unfolding edited
do_edit v f today = record v {
  users = map (λ (u : User). if eqb u.id f.id then edited f today u else u) v.users;
  modal = false;
}

unfoldable pub edit_user : View → Form → String → Option String → View × List Call
unfolding do_edit after
edit_user v f today answer =
    let w : View = record v { api_err = "" } in
    let r = after w (do_edit w f today) [] answer in
    if f.password == ""
    then (do_edit w f today, [])
    else (r.0, set_password f.username f.password ∷ r.1)

delete_found : View → Option String → Option User → View × List Call
unfolding after
delete_found v answer none = (v, [])
delete_found v answer (some u) =
    let w : View = record v { api_err = "" } in
    let r = after w (record w { modal = false }) load_calls answer in
    (r.0, delete_call u.username ∷ r.1)

unfoldable pub delete_user : View → ℕ → Option String → View × List Call
unfolding delete_found
delete_user v id answer = delete_found v answer (find_first (λ (u : User). eqb u.id id) v.users)

unfoldable pub locked : User → User
locked u = record u { status = if u.status == "Active" then "Locked" else "Active" }

unfoldable pub toggle_lock : View → ℕ → View
unfolding locked
toggle_lock v id = record v {
  users = map (λ (u : User). if eqb u.id id then locked u else u) v.users;
}

-- `isOnlyAdmin`, which disables the button that deletes.
unfoldable pub is_only_admin : List User → User → Bool
unfolding admin_count
is_only_admin us u = u.role == "Admin" && leb (admin_count us) 1
