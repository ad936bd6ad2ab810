-- ===== src/Users/Editor.antt =====
-- The form of a user: `AddEditUserModal` of nasweb/frontend/src/js/app.js.
pub mod Saves
pub mod Fields
use Prim.Native.String
use ollozuna_nas.Prelude.{
  ℕ, suc, ◌+◌, String, code, Bool, true, false, not, ◌&&◌, ◌||◌, Option, none, some, List, [], ◌∷◌,
  ◌++◌, ◌==◌, eqb, leb, ltb, if◌then◌else◌, includes, filterb, any,
}
use ollozuna_nas.Users.{User, Form}

-- `/^[a-z0-9_]+$/`, of a text that is not empty.
is_login_char : ℕ → Bool
is_login_char c = (leb b'a' c && leb c b'z') || (leb b'0' c && leb c b'9') || eqb c b'_'

unfoldable pub is_login : String → Bool
unfolding is_login_char
is_login String.[] = true
is_login (String.◌∷◌ c s) = is_login_char (code c) && is_login s

-- `s.length`: a character outside the basic plane counts twice.
unfoldable pub utf16_length : String → ℕ
utf16_length String.[] = 0
utf16_length (String.◌∷◌ c s) = (if ltb (code c) 0x10000 then 1 else 2) + utf16_length s

-- The messages at the fields.
pub record Errors : Type 0 where
  pub username : Option String
  pub password : Option String
  pub confirm_password : Option String

unfoldable pub username_error : Bool → List User → Form → Option String
unfolding is_login
username_error is_edit users f =
    if is_edit
    then none
    else if f.username == ""
    then some "Username is required"
    else if not (is_login f.username)
    then some "Only lowercase letters, numbers and underscore"
    else if any (λ (u : User). u.username == f.username) users
    then some "Username already exists"
    else none

unfoldable pub password_error : Bool → Form → Option String
unfolding utf16_length
password_error is_edit f =
    if f.password == ""
    then (if is_edit then none else some "Password is required")
    else if ltb (utf16_length f.password) 8
    then some "Minimum 8 characters"
    else none

unfoldable pub confirm_error : Form → Option String
confirm_error f =
    if not (f.password == "") && not (f.password == f.confirm_password)
    then some "Passwords do not match"
    else none

unfoldable pub validate : Bool → List User → Form → Errors
unfolding username_error password_error confirm_error
validate is_edit users f = record {
  username = username_error is_edit users f;
  password = password_error is_edit f;
  confirm_password = confirm_error f;
}

-- `Object.keys(e).length === 0`.
unfoldable pub is_clean : Errors → Bool
is_clean e = missing e.username && missing e.password && missing e.confirm_password
  where
    missing : Option String → Bool
    missing none = true
    missing (some _) = false

-- `handleSave`: the messages, and what is handed on.
unfoldable pub handle_save : Bool → List User → Form → Errors × Option Form
unfolding validate is_clean
handle_save is_edit users f =
    let e = validate is_edit users f in (e, if is_clean e then some f else none)

unfoldable pub toggle_group : Form → String → Form
toggle_group f name = record f {
  additional_groups =
      if includes f.additional_groups name
      then filterb (λ g. not (g == name)) f.additional_groups
      else f.additional_groups ++ name ∷ [];
}
