-- ===== src/Shares/CifsModal/Members/Distinct.antt =====
-- No user and no group is twice in the form of a CIFS share (`CIFSModal`, nasweb/frontend/src/js/app.js).
use ollozuna_nas.Prelude.{
  String, Bool, true, false, not, Option, none, some, List, [], ◌∷◌, ◌++◌, map, ◌==◌, if◌then◌else◌,
  ◌||◌, filterb, find_first, includes, unique, unique-snoc, unique-filterb, ◌≡◌, refl, ap, sym, ◌∙◌,
  arith, inl, inr, Bool-cases, Option-cases, eq_iff,
}
use ollozuna_nas.Shares.{UserPerm, GroupPerm, CifsForm, AppUser}
use ollozuna_nas.Shares.CifsModal.Members.{
  has_user, has_group, add_user, add_found, remove_user, set_user_perm, add_group, remove_group,
  set_group_perm,
}

abbrev pub user_names : List UserPerm → List String
user_names us = map (λ (u : UserPerm). u.username) us

abbrev pub group_names : List GroupPerm → List String
group_names gs = map (λ (g : GroupPerm). g.name) gs

-- What the administrator does with the lists.
pub data Change : Type 0 where
  adds_user removes_user adds_group removes_group : String → Change
  permits_user permits_group : String → String → Change

unfoldable pub change : List AppUser → CifsForm → Change → CifsForm
change users f (adds_user u) = add_user users f u
change users f (removes_user u) = remove_user f u
change users f (permits_user u p) = set_user_perm f u p
change users f (adds_group g) = add_group f g
change users f (removes_group g) = remove_group f g
change users f (permits_group g p) = set_group_perm f g p

unfoldable pub change_all : List AppUser → CifsForm → List Change → CifsForm
unfolding change
change_all users f [] = f
change_all users f (c ∷ cs) = change_all users (change users f c) cs

pub record AreDistinct (f : CifsForm) : Type 0 where
  pub distinct_users : unique (user_names f.users) ≡ true
  pub distinct_groups : unique (group_names f.groups) ≡ true

has_user-includes : (us : List UserPerm) (k : String) → has_user us k ≡ includes (user_names us) k
has_user-includes [] k = refl
has_user-includes (u ∷ us) k = ap (λ b. u.username == k || b) (has_user-includes us k)

has_group-includes :
    (gs : List GroupPerm) (k : String) → has_group gs k ≡ includes (group_names gs) k
has_group-includes [] k = refl
has_group-includes (g ∷ gs) k = ap (λ b. g.name == k || b) (has_group-includes gs k)

user_names-snoc :
    (us : List UserPerm) (u : UserPerm)
    → user_names (us ++ (u ∷ [])) ≡ user_names us ++ (u.username ∷ [])
user_names-snoc [] u = refl
user_names-snoc (v ∷ us) u = ap (v.username ∷◌) (user_names-snoc us u)

group_names-snoc :
    (gs : List GroupPerm) (g : GroupPerm)
    → group_names (gs ++ (g ∷ [])) ≡ group_names gs ++ (g.name ∷ [])
group_names-snoc [] g = refl
group_names-snoc (h ∷ gs) g = ap (h.name ∷◌) (group_names-snoc gs g)

user_names-filterb :
    (p : String → Bool) (us : List UserPerm)
    → user_names (filterb (λ (u : UserPerm). p u.username) us) ≡ filterb p (user_names us)
user_names-filterb p [] = refl
user_names-filterb p (u ∷ us) = ground (arith, user_names-filterb p us)

group_names-filterb :
    (p : String → Bool) (gs : List GroupPerm)
    → group_names (filterb (λ (g : GroupPerm). p g.name) gs) ≡ filterb p (group_names gs)
group_names-filterb p [] = refl
group_names-filterb p (g ∷ gs) = ground (arith, group_names-filterb p gs)

permitted_names :
    (us : List UserPerm) (k perm : String)
    → user_names
        (map (λ (x : UserPerm). if x.username == k then record x { perm = perm } else x) us)
      ≡ user_names us
permitted_names [] k perm = refl
permitted_names (u ∷ us) k perm = ground (arith, permitted_names us k perm)

permitted_groups :
    (gs : List GroupPerm) (k perm : String)
    → group_names (map (λ (g : GroupPerm). if g.name == k then record g { perm = perm } else g) gs)
      ≡ group_names gs
permitted_groups [] k perm = refl
permitted_groups (g ∷ gs) k perm = ground (arith, permitted_groups gs k perm)

-- A user that is found by a name has it.
pub find-name :
    (users : List AppUser) (n : String) (u : AppUser)
    → find_first (λ (x : AppUser). x.username == n) users ≡ some u
    → u.username ≡ n
find-name [] n u h = absurd (cc h)
find-name (x ∷ users) n u h = elim (Bool-cases (x.username == n)) [
  | inl e ↦
      let same : x ≡ u = cc (rw e at h) in
      ap (λ (y : AppUser). y.username) (sym same) ∙ (eq_iff x.username n).0 e
  | inr e ↦ find-name users n u (rw e at h)
]

add_found-unique :
    (f : CifsForm) (n : String) (o : Option AppUser)
    → ((u : AppUser) → o ≡ some u → u.username ≡ n)
    → has_user f.users n ≡ false
    → unique (user_names f.users) ≡ true
    → unique (user_names (add_found f o).users) ≡ true
unfolding add_found
add_found-unique f n none named lacks u = u
add_found-unique f n (some a) named lacks u =
    rw
      (
        user_names-snoc f.users (record { username = a.username; role = a.role; perm = "rw" }),
        named a refl,
      )
      (unique-snoc (user_names f.users) n u (sym (has_user-includes f.users n) ∙ lacks))

add_user-unique :
    (users : List AppUser) (f : CifsForm) (n : String)
    → unique (user_names f.users) ≡ true
    → unique (user_names (add_user users f n).users) ≡ true
unfolding add_user
add_user-unique users f n u = elim (Bool-cases (has_user f.users n)) [
  | inl e ↦ rw e u
  | inr e ↦ rw e (add_found-unique f n _ (find-name users n) e u)
]

add_user-groups :
    (users : List AppUser) (f : CifsForm) (n : String) → (add_user users f n).groups ≡ f.groups
unfolding add_user add_found
add_user-groups users f n = elim (Bool-cases (has_user f.users n)) [
  | inl e ↦ rw e refl
  | inr e ↦ elim (Option-cases (find_first (λ (u : AppUser). u.username == n) users)) [
    | inl none_found ↦ rw (e, none_found) refl
    | inr (u, one_found) ↦ rw (e, one_found) refl
  ]
]

add_group-unique :
    (f : CifsForm) (n : String)
    → unique (group_names f.groups) ≡ true
    → unique (group_names (add_group f n).groups) ≡ true
unfolding add_group
add_group-unique f n u = elim (Bool-cases (n == "" || has_group f.groups n)) [
  | inl e ↦ rw e u
  | inr e ↦
      rw (e, group_names-snoc f.groups (record { name = n; perm = "rw" }))
        (unique-snoc (group_names f.groups) n u
          (sym (has_group-includes f.groups n) ∙ ground arith))
]

add_group-users : (f : CifsForm) (n : String) → (add_group f n).users ≡ f.users
unfolding add_group
add_group-users f n = elim (Bool-cases (n == "" || has_group f.groups n)) [
  | inl e ↦ rw e refl
  | inr e ↦ rw e refl
]

change-AreDistinct :
    (users : List AppUser) (f : CifsForm) (c : Change)
    → AreDistinct f
    → AreDistinct (change users f c)
unfolding change remove_user remove_group set_user_perm set_group_perm
change-AreDistinct users f (adds_user n) d = record {
  distinct_users = add_user-unique users f n d.distinct_users;
  distinct_groups = rw (add_user-groups users f n) d.distinct_groups;
}
change-AreDistinct users f (removes_user n) d = record {
  distinct_users =
      rw (user_names-filterb (λ x. not (x == n)) f.users)
        (unique-filterb (λ x. not (x == n)) (user_names f.users) d.distinct_users);
  distinct_groups = d.distinct_groups;
}
change-AreDistinct users f (permits_user n p) d = record {
  distinct_users = rw (permitted_names f.users n p) d.distinct_users;
  distinct_groups = d.distinct_groups;
}
change-AreDistinct users f (adds_group n) d = record {
  distinct_users = rw (add_group-users f n) d.distinct_users;
  distinct_groups = add_group-unique f n d.distinct_groups;
}
change-AreDistinct users f (removes_group n) d = record {
  distinct_users = d.distinct_users;
  distinct_groups =
      rw (group_names-filterb (λ x. not (x == n)) f.groups)
        (unique-filterb (λ x. not (x == n)) (group_names f.groups) d.distinct_groups);
}
change-AreDistinct users f (permits_group n p) d = record {
  distinct_users = d.distinct_users;
  distinct_groups = rw (permitted_groups f.groups n p) d.distinct_groups;
}

-- Whatever users and groups are added, removed and given other permissions, in any order and
-- however often, a form of a CIFS share that has no user and no group twice comes to no form that has.
pub members-AreDistinct :
    (users : List AppUser) (f : CifsForm) (changes : List Change)
    → AreDistinct f
    → AreDistinct (change_all users f changes)
unfolding change_all
members-AreDistinct users f [] d = d
members-AreDistinct users f (c ∷ cs) d =
    members-AreDistinct users (change users f c) cs (change-AreDistinct users f c d)
