-- ===== src/Shares/CifsModal/Members/Offered.antt =====
-- The users of a CIFS share's form as a set, and those that are offered (`CIFSModal`,
-- nasweb/frontend/src/js/app.js).
use ollozuna_nas.Prelude.{
  String, Bool, true, false, not, ◌&&◌, none, some, List, [], ◌∷◌, ◌==◌, ◌||◌, filterb, find_first,
  any, any-append, ◌≡◌, refl, ap, arith, inl, inr, Bool-cases, Option-cases, eq_iff,
}
use mathlib.Core.Path.{subst}
use ollozuna_nas.Shares.{UserPerm, CifsForm, AppUser}
use ollozuna_nas.Shares.CifsModal.Members.{has_user, add_user, add_found, remove_user, av_users}
use ollozuna_nas.Shares.CifsModal.Members.Distinct.{find-name}

-- A user of the list has this name.
abbrev pub is_known : List AppUser → String → Bool
is_known users k = any (λ (u : AppUser). u.username == k) users

found-known :
    (users : List AppUser) (n : String)
    → (find_first (λ (u : AppUser). u.username == n) users ≡ none)
    → is_known users n ≡ false
found-known [] n h = refl
found-known (u ∷ users) n h = elim (Bool-cases (u.username == n)) [
  | inl e ↦ absurd (cc (rw e at h))
  | inr e ↦ rw e (found-known users n (rw e at h))
]

found-some :
    (users : List AppUser) (n : String) (u : AppUser)
    → (find_first (λ (u : AppUser). u.username == n) users ≡ some u)
    → is_known users n ≡ true
found-some [] n u h = absurd (cc h)
found-some (x ∷ users) n u h = elim (Bool-cases (x.username == n)) [
  | inl e ↦ rw e refl
  | inr e ↦ rw e (found-some users n u (rw e at h))
]

already_there :
    (us : List UserPerm) (n k : String) (b : Bool)
    → has_user us n ≡ true
    → has_user us k ≡ (has_user us k || (n == k && b))
already_there us n k b e = elim (Bool-cases (n == k)) [
  | inl same ↦
      let k_there : has_user us k ≡ true =
        subst (λ x. has_user us x ≡ true) ((eq_iff n k).0 same) e in
      rw k_there refl
  | inr differs ↦ rw differs (ground arith)
]

has_user-add_user :
    (users : List AppUser) (f : CifsForm) (n k : String)
    → has_user (add_user users f n).users k ≡ (has_user f.users k || (n == k && is_known users n))
unfolding add_user add_found
has_user-add_user users f n k = elim (Bool-cases (has_user f.users n)) [
  | inl e ↦ rw e (already_there f.users n k (is_known users n) e)
  | inr e ↦ elim (Option-cases (find_first (λ (u : AppUser). u.username == n) users)) [
    | inl missing ↦ rw (e, missing, found-known users n missing) (ground arith)
    | inr (u, found) ↦
        rw (e, found, found-some users n u found, any-append, find-name users n u found)
          (ground arith)
  ]
]

has_user-remove_user :
    (f : CifsForm) (n k : String)
    → has_user (remove_user f n).users k ≡ (has_user f.users k && not (k == n))
unfolding remove_user
has_user-remove_user f n k = go f.users
  where
    go :
        (us : List UserPerm)
        → has_user (filterb (λ (x : UserPerm). not (x.username == n)) us) k
          ≡ (has_user us k && not (k == n))
    go [] = refl
    go (u ∷ us) = ground (arith, eq_iff u.username n, eq_iff u.username k, eq_iff k n, go us)

offered :
    (users : List AppUser) (f : CifsForm) (k : String)
    → is_known (av_users users f) k ≡ (is_known users k && not (has_user f.users k))
unfolding av_users
offered [] f k = refl
offered (u ∷ users) f k = elim (Bool-cases (u.username == k)) [
  | inl e ↦ ground (arith, ap (has_user f.users) ((eq_iff u.username k).0 e), offered users f k)
  | inr e ↦ ground (arith, offered users f k)
]

-- The users of a form behave as a set of names: adding one puts the name in, if it is of a user of
-- the system, removing one takes it out, no other name is touched, and those that can be added are
-- exactly the users of the system that are not in.
pub members-set :
    (users : List AppUser) (f : CifsForm) (n k : String)
    → (has_user (add_user users f n).users k ≡ (has_user f.users k || (n == k && is_known users n)))
      × (has_user (remove_user f n).users k ≡ (has_user f.users k && not (k == n)))
      × (is_known (av_users users f) k ≡ (is_known users k && not (has_user f.users k)))
members-set users f n k =
    (has_user-add_user users f n k, has_user-remove_user f n k, offered users f k)
