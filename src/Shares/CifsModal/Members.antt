-- ===== src/Shares/CifsModal/Members.antt =====
-- The users and groups of a CIFS share: `addUser`, `removeUser`, `setUserPerm` and the like of `CIFSModal`,
-- nasweb/frontend/src/js/app.js.
pub mod Distinct
pub mod Offered
use ollozuna_nas.Prelude.{
  String, Bool, true, false, not, Option, none, some, List, [], ◌∷◌, ◌++◌, map, ◌==◌, if◌then◌else◌,
  ◌||◌, filterb, find_first, any,
}
use ollozuna_nas.Shares.{UserPerm, GroupPerm, CifsForm, AppUser}

-- `form.users.find(x => x.username === username)`, as a test, and the same of groups.
abbrev pub has_user : List UserPerm → String → Bool
has_user us username = any (λ (x : UserPerm). x.username == username) us

abbrev pub has_group : List GroupPerm → String → Bool
has_group gs name = any (λ (g : GroupPerm). g.name == name) gs

add_found : CifsForm → Option AppUser → CifsForm
add_found f none = f
add_found f (some u) = record f {
  users = f.users ++ (record { username = u.username; role = u.role; perm = "rw" } ∷ []);
}

unfoldable pub add_user : List AppUser → CifsForm → String → CifsForm
unfolding add_found
add_user users f username =
    if has_user f.users username
    then f
    else add_found f (find_first (λ (u : AppUser). u.username == username) users)

unfoldable pub remove_user : CifsForm → String → CifsForm
remove_user f username = record f {
  users = filterb (λ (x : UserPerm). not (x.username == username)) f.users;
}

unfoldable pub set_user_perm : CifsForm → String → String → CifsForm
set_user_perm f username perm = record f {
  users =
      map (λ (x : UserPerm). if x.username == username then record x { perm = perm } else x)
        f.users;
}

unfoldable pub add_group : CifsForm → String → CifsForm
add_group f name =
    if name == "" || has_group f.groups name
    then f
    else record f { groups = f.groups ++ (record { name = name; perm = "rw" } ∷ []) }

unfoldable pub remove_group : CifsForm → String → CifsForm
remove_group f name = record f {
  groups = filterb (λ (g : GroupPerm). not (g.name == name)) f.groups;
}

unfoldable pub set_group_perm : CifsForm → String → String → CifsForm
set_group_perm f name perm = record f {
  groups = map (λ (g : GroupPerm). if g.name == name then record g { perm = perm } else g) f.groups;
}

-- The users and groups that can be added.
unfoldable pub av_users : List AppUser → CifsForm → List AppUser
av_users users f = filterb (λ (u : AppUser). not (has_user f.users u.username)) users

unfoldable pub av_groups : List String → CifsForm → List String
av_groups groups f = filterb (λ g. not (has_group f.groups g)) groups
