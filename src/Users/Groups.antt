-- ===== src/Users/Groups.antt =====
-- The dialogs of groups, `AddEditGroupModal`, `ManageMembersModal` and `DeleteGroupModal`, and the label of
-- `GroupsPanel`, of nasweb/frontend/src/js/app.js.
pub mod Moves
mod Tests
use ollozuna_nas.Prelude.{
  ℕ, String, Bool, true, false, not, ◌&&◌, ◌||◌, Option, none, some, List, [], ◌∷◌, ◌++◌, map, ◌==◌,
  if◌then◌else◌, filterb, any, all, includes, put,
}
use ollozuna_nas.Users.{User}
use ollozuna_nas.Users.Editor.{is_login}

pub record Group : Type 0 where
  pub id : ℕ
  pub name : String
  pub description : String
  pub type : String
  pub members : List String
  pub share_perms : List (String × String)

-- `getPermLabel`, of the values of the permissions.
unfoldable pub perm_label : List String → String
perm_label vals =
    if all (λ v. v == "rw") vals
    then "Full Access"
    else if all (λ v. v == "none") vals
    then "Minimal"
    else if all (λ v. not (v == "rw")) vals
    then "Read-Only"
    else "Custom"

-- The form of a group; the id of a new one is not read.
abbrev pub no_access : List (String × String)
no_access = ("media", "none") ∷ ("backup", "none") ∷ ("documents", "none") ∷ ("public", "none") ∷ []

unfoldable pub new_group : Group
new_group = record {
  id = 0;
  name = "";
  description = "";
  type = "Custom";
  members = [];
  share_perms = no_access;
}

-- `{ media: "none", …, ...perms }`.
over : List (String × String) → List (String × String) → List (String × String)
unfolding put
over base [] = base
over base ((share, perm) ∷ rest) = over (put share perm base) rest

unfoldable pub edit_group : Group → Group
unfolding over
edit_group g = record g { share_perms = over no_access g.share_perms }

unfoldable pub set_perms : Group → String → String → Group
unfolding put
set_perms g share perm = record g { share_perms = put share perm g.share_perms }

unfoldable pub toggle_member : Group → String → Group
toggle_member g u = record g {
  members =
      if includes g.members u then filterb (λ m. not (m == u)) g.members else g.members ++ (u ∷ []);
}

-- The message at the name, and what is saved.
unfoldable pub name_error : Bool → List Group → Group → Option String
unfolding is_login
name_error is_edit groups g =
    if g.name == ""
    then some "Group name is required"
    else if not (is_login g.name)
    then some "Only lowercase letters, numbers and underscore"
    else if not is_edit && any (λ (o : Group). o.name == g.name) groups
    then some "Group name already exists"
    else none

saved : Group → Option String → Option Group
saved g none = some g
saved g (some _) = none

unfoldable pub handle_save : Bool → List Group → Group → Option String × Option Group
unfolding name_error saved
handle_save is_edit groups g = (name_error is_edit groups g, saved g (name_error is_edit groups g))

-- `ManageMembersModal`: the two columns, and the buttons that move a user between them.
unfoldable pub available : List User → List String → List User
available users in_group = filterb (λ (u : User). not (includes in_group u.username)) users

unfoldable pub in_group_users : List User → List String → List User
in_group_users users in_group = filterb (λ (u : User). includes in_group u.username) users

unfoldable pub put_in : List String → String → List String
put_in in_group u = in_group ++ (u ∷ [])

unfoldable pub take_out : List String → String → List String
take_out in_group u = filterb (λ m. not (m == u)) in_group

-- `DeleteGroupModal`: the users that are named, and whether the button is enabled.
unfoldable pub affected : Group → List User → List User
affected g users =
    filterb (λ (u : User). u.group == g.name || includes u.additional_groups g.name) users

unfoldable pub can_delete : Group → Bool
can_delete g = not (g.type == "System")
