-- ===== src/Users/Groups/Moves.antt =====
-- Moving users into a group and out of it (`ManageMembersModal`, nasweb/frontend/src/js/app.js).
use ollozuna_nas.Prelude.{
  String, Bool, true, false, not, ◌&&◌, List, [], ◌∷◌, ◌==◌, any, includes, unique, unique-snoc,
  unique-filterb, ◌≡◌, refl, ap, arith, eq_iff, inl, inr, Bool-cases,
}
use ollozuna_nas.Users.{User}
use ollozuna_nas.Users.Groups.{available, in_group_users, put_in, take_out}

-- The column has a user with this name.
abbrev pub has_name : List User → String → Bool
has_name us k = any (λ (u : User). u.username == k) us

-- What the buttons of the two columns do, each for a user that its column shows.
pub data Step (users : List User) : List String → List String → Type 0 where
  puts :
      (g : List String) (u : String)
      → has_name (available users g) u ≡ true
      → Step users g (put_in g u)
  takes :
      (g : List String) (u : String)
      → has_name (in_group_users users g) u ≡ true
      → Step users g (take_out g u)

pub data Reach (users : List User) (members : List String) : List String → Type 0 where
  start : Reach users members members
  next : {g h : List String} → Reach users members g → Step users g h → Reach users members h

in_available :
    (users : List User) (g : List String) (k : String)
    → has_name (available users g) k ≡ (has_name users k && not (includes g k))
unfolding available
in_available [] g k = refl
in_available (u ∷ users) g k = elim (Bool-cases (u.username == k)) [
  | inl e ↦ ground (arith, ap (includes g) ((eq_iff u.username k).0 e), in_available users g k)
  | inr e ↦ ground (arith, in_available users g k)
]

in_members :
    (users : List User) (g : List String) (k : String)
    → has_name (in_group_users users g) k ≡ (has_name users k && includes g k)
unfolding in_group_users
in_members [] g k = refl
in_members (u ∷ users) g k = elim (Bool-cases (u.username == k)) [
  | inl e ↦ ground (arith, ap (includes g) ((eq_iff u.username k).0 e), in_members users g k)
  | inr e ↦ ground (arith, in_members users g k)
]

Step-unique :
    {users : List User} {g h : List String} → Step users g h → unique g ≡ true → unique h ≡ true
unfolding put_in take_out
Step-unique {users} (puts g u shown) d =
    let out : includes g u ≡ false = ground (arith, in_available users g u) in unique-snoc g u d out
Step-unique (takes g u shown) d = unique-filterb (λ m. not (m == u)) g d

Reach-unique :
    {users : List User} {members g : List String}
    → Reach users members g
    → unique members ≡ true
    → unique g ≡ true
Reach-unique start d = d
Reach-unique (next r s) d = Step-unique s (Reach-unique r d)

-- However users are moved between the two columns of a group that has no member twice, the list that
-- is saved has none twice either, and each user is in exactly one column, the one that the list
-- says.
pub members-columns :
    (users : List User) (members g : List String) (k : String)
    → Reach users members g
    → unique members ≡ true
    → (unique g ≡ true)
      × (has_name (in_group_users users g) k ≡ (has_name users k && includes g k))
      × (has_name (available users g) k ≡ (has_name users k && not (includes g k)))
members-columns users members g k r d =
    (Reach-unique r d, in_members users g k, in_available users g k)
