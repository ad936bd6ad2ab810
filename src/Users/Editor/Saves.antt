-- ===== src/Users/Editor/Saves.antt =====
-- Which forms of a new user are handed on (`AddEditUserModal`, nasweb/frontend/src/js/app.js).
use ollozuna_nas.Prelude.{
  ◌≤◌, String, true, false, some, List, ◌==◌, any, ◌≡◌, ◌≢◌, ◌↔◌, refl, arith, eq_iff,
}
use ollozuna_nas.Users.{User, Form}
use ollozuna_nas.Users.Editor.{
  is_login, utf16_length, username_error, password_error, confirm_error, validate, is_clean,
  handle_save,
}

-- The name is new and made of lower case letters, digits and underscores, and the password has at
-- least eight characters and was repeated.
pub record Acceptable (users : List User) (f : Form) : Type 0 where
  pub named : f.username ≢ ""
  pub spelled : is_login f.username ≡ true
  pub unused : any (λ (u : User). u.username == f.username) users ≡ false
  pub long : 8 ≤ utf16_length f.password
  pub repeated : f.password ≡ f.confirm_password

utf16_length-empty : (s : String) → s ≡ "" → utf16_length s ≡ 0
unfolding utf16_length
utf16_length-empty s e = rw e refl

saved-Acceptable :
    (users : List User) (f : Form) → (handle_save false users f).1 ≡ some f → Acceptable users f
unfolding handle_save validate is_clean username_error password_error confirm_error
saved-Acceptable users f h = record {
  named = ground (arith, eq_iff f.username "");
  spelled = ground arith;
  unused = ground arith;
  long = ground arith;
  repeated = ground (arith, eq_iff f.password f.confirm_password);
}

Acceptable-saved :
    (users : List User) (f : Form) → Acceptable users f → (handle_save false users f).1 ≡ some f
unfolding handle_save validate is_clean username_error password_error confirm_error
Acceptable-saved users f a = ground (
  arith,
  eq_iff f.username "",
  eq_iff f.password "",
  eq_iff f.password f.confirm_password,
  utf16_length-empty f.password,
  a.named,
  a.spelled,
  a.unused,
  a.long,
  a.repeated,
)

-- The form of a new user is handed on exactly when its name is given, made of lower case letters,
-- digits and underscores, and not taken, and its password has at least eight characters and is
-- the same as its repetition.
pub handle_save_iff :
    (users : List User) (f : Form) → ((handle_save false users f).1 ≡ some f) ↔ Acceptable users f
handle_save_iff users f = (saved-Acceptable users f, Acceptable-saved users f)
