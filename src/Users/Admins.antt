-- ===== src/Users/Admins.antt =====
-- Administrators and locks (`UsersView`, nasweb/frontend/src/js/app.js).
use ollozuna_nas.Prelude.{
  ℕ, suc, ◌+◌, ◌≤◌, false, List, [], ◌∷◌, ◌++◌, map, ◌==◌, if◌then◌else◌, ◌≡◌, refl, arith,
}
use ollozuna_nas.Users.{
  ApiUser, User, View, map_api_user, users_come, admin_count, locked_count, toggle_lock,
  is_only_admin,
}

admin_count-append :
    (before after : List User)
    → admin_count (before ++ after) ≡ admin_count before + admin_count after
unfolding admin_count
admin_count-append [] after = omega arith
admin_count-append (u ∷ before) after = ground (arith, admin_count-append before after)

admin_count-cons :
    (u : User) (after : List User)
    → admin_count (u ∷ after)
      ≡ (if u.role == "Admin" then suc (admin_count after) else admin_count after)
unfolding admin_count
admin_count-cons u after = ground arith

-- The dialog never lets the last administrator go: if there was one, and the button that deletes
-- this user is enabled, there still is one without this user.
pub deletion-admin :
    (before after : List User) (u : User)
    → 1 ≤ admin_count (before ++ u ∷ after)
    → is_only_admin (before ++ u ∷ after) u ≡ false
    → 1 ≤ admin_count (before ++ after)
unfolding is_only_admin
deletion-admin before after u h off = ground (
  arith,
  admin_count-append before (u ∷ after),
  admin_count-append before after,
  admin_count-cons u after,
)

come-unlocked : (us : List ApiUser) → locked_count (map map_api_user us) ≡ 0
unfolding locked_count map_api_user
come-unlocked [] = refl
come-unlocked (u ∷ us) = come-unlocked us

-- A lock lives in the view alone: when the users are loaded again, what was locked or unlocked
-- before makes no difference, and no user counts as locked.
pub lock-forgotten :
    (v : View) (id : ℕ) (us : List ApiUser)
    → (users_come (toggle_lock v id) us ≡ users_come v us)
      × (locked_count (users_come (toggle_lock v id) us).users ≡ 0)
unfolding users_come toggle_lock
lock-forgotten v id us = (refl, come-unlocked us)
