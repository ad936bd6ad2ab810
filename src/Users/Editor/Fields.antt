-- ===== src/Users/Editor/Fields.antt =====
-- The fields of the form of a user: the rest of `AddEditUserModal` of nasweb/frontend/src/js/app.js.
use ollozuna_nas.Prelude.{String, true, none, List, [], ◌∷◌, put}
use ollozuna_nas.Users.{User, Form}
use ollozuna_nas.Users.Editor.{Errors}

first_group : List String → String
first_group [] = ""
first_group (g ∷ _) = g

-- The form of a new user, whose id is not read, and the one of a user that is edited.
unfoldable pub new_form : List String → Form
unfolding first_group
new_form groups = record {
  id = 0;
  username = "";
  full_name = "";
  email = "";
  password = "";
  confirm_password = "";
  role = "User";
  group = first_group groups;
  additional_groups = [];
  account_expiry = "";
  enabled = true;
  share_perms = [];
}

unfoldable pub edit_form : User → Form
edit_form u = record {
  id = u.id;
  username = u.username;
  full_name = u.full_name;
  email = u.email;
  password = "";
  confirm_password = "";
  role = u.role;
  group = u.group;
  additional_groups = u.additional_groups;
  account_expiry = u.account_expiry;
  enabled = u.enabled;
  share_perms = u.share_perms;
}

-- `setPerms`: the permission of one share.
unfoldable pub set_perms : Form → String → String → Form
unfolding put
set_perms f share perm = record f { share_perms = put share perm f.share_perms }

-- `clearErr`, of a field whose input changes.
pub data Field : Type 0 where
  username_field password_field confirm_field : Field

unfoldable pub clear_err : Errors → Field → Errors
clear_err e username_field = record e { username = none }
clear_err e password_field = record e { password = none }
clear_err e confirm_field = record e { confirm_password = none }
