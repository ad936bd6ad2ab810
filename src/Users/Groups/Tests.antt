-- ===== src/Users/Groups/Tests.antt =====
-- Runs of the dialogs of groups, and their theorem there.
use ollozuna_nas.Prelude.{true, false, not, ◌&&◌, none, some, [], ◌∷◌, ◌≡◌, refl, includes, unique}
use ollozuna_nas.Users.{User, map_api_user}
use ollozuna_nas.Users.Editor.{is_login}
use ollozuna_nas.Users.Groups.{
  new_group, perm_label, name_error, toggle_member, available, in_group_users, put_in,
}
use ollozuna_nas.Users.Groups.Moves.{has_name, start, next, puts, members-columns}

abbrev ann : User
ann = map_api_user (record { id = 2; username = "ann"; is_admin = true; created_at = "" })

group_tests :
    (perm_label ("rw" ∷ "ro" ∷ []) ≡ "Custom")
    × (perm_label [] ≡ "Full Access")
    × (name_error false [] new_group ≡ some "Group name is required")
    × (name_error false [] (record new_group { name = "media" }) ≡ none)
    × ((toggle_member (toggle_member new_group "ann") "ann").members ≡ [])
unfolding perm_label name_error new_group toggle_member is_login
group_tests = (refl, refl, refl, refl, refl)

ann_shown : has_name (available (ann ∷ []) []) "ann" ≡ true
unfolding available map_api_user
ann_shown = refl

members-columns_example :
    (unique (put_in [] "ann") ≡ true)
    × (has_name (in_group_users (ann ∷ []) (put_in [] "ann")) "ann"
        ≡ (has_name (ann ∷ []) "ann" && includes (put_in [] "ann") "ann"))
    × (has_name (available (ann ∷ []) (put_in [] "ann")) "ann"
        ≡ (has_name (ann ∷ []) "ann" && not (includes (put_in [] "ann") "ann")))
unfolding unique
members-columns_example =
    members-columns (ann ∷ []) [] (put_in [] "ann") "ann" (next start (puts [] "ann" ann_shown))
      refl
