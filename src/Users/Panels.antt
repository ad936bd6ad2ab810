-- ===== src/Users/Panels.antt =====
-- The searches of `UsersPanel` and `GroupsPanel` of nasweb/frontend/src/js/app.js. `lower` is the browser's
-- `toLowerCase`, with the tables of Unicode that it follows.
use ollozuna_nas.Prelude.{String, Bool, not, ◌&&◌, ◌||◌, List, ◌==◌, filterb, contains}
use ollozuna_nas.Users.{User}
use ollozuna_nas.Users.Groups.{Group}

module _ (lower : String → String) where
  abbrev matches_user : String → User → Bool
  matches_user s u = s == "" || contains s u.username || contains s (lower u.full_name)

  unfoldable pub filtered_users : String → String → String → List User → List User
  filtered_users search group role users =
      filterb
        (λ (u : User).
          matches_user (lower search) u
          && (group == "" || u.group == group)
          && (role == "" || u.role == role))
        users

  abbrev matches_group : String → Group → Bool
  matches_group s g = s == "" || contains s g.name || contains s (lower g.description)

  unfoldable pub filtered_groups : String → List Group → List Group
  filtered_groups search groups = filterb (λ (g : Group). matches_group (lower search) g) groups

-- The button that locks is not there for the account `admin`.
unfoldable pub can_lock : User → Bool
can_lock u = not (u.username == "admin")
