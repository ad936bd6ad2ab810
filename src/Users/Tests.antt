-- ===== src/Users/Tests.antt =====
-- Runs of the user forms, and the theorems at inputs that meet their hypotheses.
use ollozuna_nas.Prelude.{◌≤◌, true, false, some, [], ◌∷◌, ◌++◌, ◌≡◌, ◌↔◌, refl, arith}
use ollozuna_nas.Users.{User, Form, map_api_user, admin_count, is_only_admin}
use ollozuna_nas.Users.Editor.{handle_save, is_login, utf16_length}
use ollozuna_nas.Users.Editor.Saves.{Acceptable, handle_save_iff}
use ollozuna_nas.Users.Admins.{deletion-admin}

login_tests : (is_login "bob_2" ≡ true) × (is_login "Bob" ≡ false) × (utf16_length "a😀" ≡ 3)
unfolding is_login utf16_length
login_tests = (refl, refl, refl)

abbrev bob : Form
bob = record {
  id = 0;
  username = "bob";
  full_name = "Bob";
  email = "";
  password = "verysecret";
  confirm_password = "verysecret";
  role = "User";
  group = "users";
  additional_groups = [];
  account_expiry = "";
  enabled = true;
  share_perms = [];
}

handle_save_iff_example : ((handle_save false [] bob).1 ≡ some bob) ↔ Acceptable [] bob
handle_save_iff_example = handle_save_iff [] bob

abbrev root : User
root = map_api_user (record { id = 1; username = "root"; is_admin = true; created_at = "" })

abbrev ann : User
ann =
    map_api_user
      (record { id = 2; username = "ann"; is_admin = true; created_at = "2025-01-02T00:00:00Z" })

admin_count_both : admin_count ([] ++ ann ∷ root ∷ []) ≡ 2
unfolding admin_count map_api_user
admin_count_both = refl

ann_not_only : is_only_admin ([] ++ ann ∷ root ∷ []) ann ≡ false
unfolding is_only_admin admin_count map_api_user
ann_not_only = refl

deletion-admin_example : 1 ≤ admin_count ([] ++ root ∷ [])
deletion-admin_example =
    deletion-admin [] (root ∷ []) ann (omega (arith, admin_count_both)) ann_not_only
