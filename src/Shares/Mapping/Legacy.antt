-- ===== src/Shares/Mapping/Legacy.antt =====
-- Shares without a saved configuration (nasweb/frontend/src/js/app.js): what is sent for them again.
use text.Mathlib.TextLemmas.{nil-append, cons-append}
use text.Mathlib.TextEquality.{Char-path}
use ollozuna_nas.Prelude.{
  ℕ, suc, String, Char, code, Bool, true, false, not, ◌&&◌, List, [], ◌∷◌, ◌++◌, map, ◌==◌, eqb,
  ◌+++◌, filterb, all, length, ◌≡◌, refl, sym, ap, ◌∙◌, arith, eqb_iff, Bool-cases, inl, inr,
}
use ollozuna_nas.Shares.{UserPerm, GroupPerm, Rule, Dto, AppUser}
use ollozuna_nas.Shares.Mapping.{
  perm_text, status_text, is_enabled, is_group, drop_first, role_of, listed_users, listed_groups,
  legacy_cifs, rules_from, legacy_rules, legacy_nfs, map_cifs_to_api, map_nfs_to_api,
}

perm_read : (b : Bool) → (perm_text b == "ro") ≡ b
perm_read true = refl
perm_read false = refl

perm_kept : (b : Bool) → (perm_text b == "none") ≡ false
perm_kept true = refl
perm_kept false = refl

enabled_read : (b : Bool) → is_enabled (status_text b) ≡ b
enabled_read true = refl
enabled_read false = refl

-- The entries as they are listed, with one permission, are sent as they came.
users_sent :
    (ulist : List AppUser) (b : Bool) (us : List String)
    → map
        (λ (u : UserPerm). u.username)
        (filterb
          (λ (u : UserPerm). not (u.perm == "none"))
          (map (λ u. record { username = u; role = role_of ulist u; perm = perm_text b }) us))
      ≡ us
users_sent ulist b [] = refl
users_sent ulist b (u ∷ us) = rw (perm_kept b) (ap (u ∷◌) (users_sent ulist b us))

at_sign : (u : String) → is_group u ≡ true → "@" +++ drop_first u ≡ u
unfolding is_group drop_first
at_sign String.[] h = absurd (cc (h))
at_sign (String.◌∷◌ c s) h =
    cons-append "@" "" s
    ∙ ap (String.◌∷◌ "@") (nil-append s)
    ∙ ap (λ (d : Char). String.◌∷◌ d s) (Char-path "@" c (sym ((eqb_iff (code c) b'@').0 h)))

groups_sent :
    (b : Bool) (us : List String)
    → map
        (λ (g : GroupPerm). "@" +++ g.name)
        (filterb
          (λ (g : GroupPerm). not (g.perm == "none"))
          (map (λ u. record { name = drop_first u; perm = perm_text b }) (filterb is_group us)))
      ≡ filterb is_group us
groups_sent b [] = refl
groups_sent b (u ∷ us) = elim (Bool-cases (is_group u)) [
  | inl e ↦ rw (e, perm_kept b) (cc (at_sign u e, groups_sent b us))
  | inr e ↦ rw e (groups_sent b us)
]

-- A CIFS share that has no saved configuration is sent with the name, the path, the permission and
-- the state that the server had given, and with its users and groups, the users first.
pub cifs-legacy :
    (ulist : List AppUser) (dto : Dto)
    → ((map_cifs_to_api (legacy_cifs ulist dto)).name ≡ dto.saved.name)
      × ((map_cifs_to_api (legacy_cifs ulist dto)).path ≡ dto.saved.path)
      × ((map_cifs_to_api (legacy_cifs ulist dto)).read_only ≡ dto.saved.read_only)
      × ((map_cifs_to_api (legacy_cifs ulist dto)).enabled ≡ dto.saved.enabled)
      × ((map_cifs_to_api (legacy_cifs ulist dto)).valid_users
          ≡ filterb (λ u. not (is_group u)) dto.saved.valid_users
            ++ filterb is_group dto.saved.valid_users)
unfolding map_cifs_to_api legacy_cifs listed_users listed_groups
cifs-legacy ulist dto = (
  refl,
  refl,
  perm_read dto.saved.read_only,
  enabled_read dto.saved.enabled,
  cc (
    users_sent ulist dto.saved.read_only (filterb (λ u. not (is_group u)) dto.saved.valid_users),
    groups_sent dto.saved.read_only dto.saved.valid_users,
  ),
)

clients_sent :
    (id : ℕ) (b : Bool) (ips : List String)
    → map (λ (r : Rule). r.client) (rules_from id b ips) ≡ ips
unfolding rules_from
clients_sent id b [] = refl
clients_sent id b (ip ∷ ips) = ap (ip ∷◌) (clients_sent (suc id) b ips)

all_read_only :
    (id : ℕ) (b : Bool) (ip : String) (ips : List String)
    → all (λ (r : Rule). r.perm == "ro") (rules_from id b (ip ∷ ips)) ≡ b
unfolding rules_from
all_read_only id true ip [] = refl
all_read_only id false ip ips = refl
all_read_only id true ip (jp ∷ ips) = all_read_only (suc id) true jp ips

-- The addresses that are sent for a share that allowed these.
abbrev pub addresses : List String → List String
addresses [] = "*" ∷ []
addresses (ip ∷ ips) = filterb (λ c. not (c == "")) (ip ∷ ips)

rules_read :
    (b : Bool) (ips : List String)
    → (filterb (λ c. not (c == "")) (map (λ (r : Rule). r.client) (legacy_rules b ips))
        ≡ addresses ips)
      × ((not (eqb (length (legacy_rules b ips)) 0)
            && all (λ (r : Rule). r.perm == "ro") (legacy_rules b ips))
          ≡ b)
unfolding legacy_rules rules_from
rules_read b [] = (refl, all_read_only 1 b "*" [])
rules_read b (ip ∷ ips) = (
  ap (filterb (λ c. not (c == ""))) (clients_sent 1 b (ip ∷ ips)),
  not_empty (length (rules_from 2 b ips)) _ ∙ all_read_only 1 b ip ips,
)
  where
    not_empty : (n : ℕ) (a : Bool) → (not (eqb (suc n) 0) && a) ≡ a
    not_empty n a = ground arith

-- An NFS share that has no saved configuration is sent with the permission and the state that the
-- server had given, and with the addresses that it allowed, except that a share with no address at
-- all is sent as open to every one, `*`.
pub nfs-legacy :
    (dto : Dto)
    → ((map_nfs_to_api (legacy_nfs dto)).name ≡ dto.saved.name)
      × ((map_nfs_to_api (legacy_nfs dto)).path ≡ dto.saved.path)
      × ((map_nfs_to_api (legacy_nfs dto)).read_only ≡ dto.saved.read_only)
      × ((map_nfs_to_api (legacy_nfs dto)).enabled ≡ dto.saved.enabled)
      × ((map_nfs_to_api (legacy_nfs dto)).allowed_ips ≡ addresses dto.saved.allowed_ips)
unfolding map_nfs_to_api legacy_nfs
nfs-legacy dto =
    let read = rules_read dto.saved.read_only dto.saved.allowed_ips in
    (refl, refl, read.1, enabled_read dto.saved.enabled, read.0)
