-- ===== src/Shares/Mapping.antt =====
-- `mapShareFromAPI`, `mapCIFSToAPI` and `mapNFSToAPI` of nasweb/frontend/src/js/app.js.
pub mod Saved
pub mod Legacy
use Prim.Native.String
use ollozuna_nas.Prelude.{
  ℕ, zero, suc, String, code, Bool, true, false, not, ◌&&◌, Option, none, some, List, [], ◌∷◌, ◌++◌,
  map, ◌==◌, eqb, if◌then◌else◌, ◌+++◌, split, strip_prefix, get_elem?, get_or, filterb, find_first,
  all, length,
}
use ollozuna_nas.Shares.{
  Quota, Smb, UserPerm, GroupPerm, CifsForm, Adv, Rule, Versions, Nfsv4, Global, NfsForm, Share,
  cifs, nfs, Payload, Dto, AppUser,
}

-- `[^/]+` from the start, or nothing.
first_name : String → String
first_name String.[] = ""
first_name (String.◌∷◌ c s) =
    let rest = first_name s in if eqb (code c) b'/' then "" else String.◌∷◌ c rest

below_mnt : Option String → String
unfolding first_name
below_mnt none = ""
below_mnt (some rest) = first_name rest

unfoldable pub volume_of : String → String
unfolding below_mnt
volume_of path =
    let name = below_mnt (strip_prefix "/mnt/" path) in
    if name == "" then get_or (get_elem? (split b'/' path) 2) "" else name

-- `dto.enabled ? "active" : "disabled"`, `dto.read_only ? "ro" : "rw"`.
abbrev pub status_text : Bool → String
status_text enabled = if enabled then "active" else "disabled"

abbrev pub perm_text : Bool → String
perm_text read_only = if read_only then "ro" else "rw"

-- The saved form, with the fields that the server decides.
unfoldable pub with_server : Dto → Share → Share
unfolding volume_of
with_server dto (cifs f) = cifs (record f {
  id = some dto.id;
  name = dto.saved.name;
  path = dto.saved.path;
  volume = volume_of dto.saved.path;
  status = status_text dto.saved.enabled;
})
with_server dto (nfs f) = nfs (record f {
  id = some dto.id;
  name = dto.saved.name;
  path = dto.saved.path;
  volume = volume_of dto.saved.path;
  status = status_text dto.saved.enabled;
})

abbrev pub default_adv : Adv
default_adv = record {
  sync = true;
  no_root_squash = false;
  root_squash = true;
  all_squash = false;
  anonuid = 65534;
  anongid = 65534;
  no_subtree_check = true;
  secure = true;
  crossmnt = false;
}

-- `u.startsWith("@")`.
unfoldable pub is_group : String → Bool
is_group String.[] = false
is_group (String.◌∷◌ c _) = eqb (code c) b'@'

-- `u.slice(1)`.
unfoldable pub drop_first : String → String
drop_first String.[] = ""
drop_first (String.◌∷◌ _ s) = s

-- `found?.role || "User"`.
role_of : List AppUser → String → String
role_of ulist u = elim (find_first (λ (x : AppUser). x.username == u) ulist) [
  | none ↦ "User"
  | some x ↦ if x.role == "" then "User" else x.role
]

unfoldable pub listed_users : List AppUser → Payload → List UserPerm
unfolding is_group role_of
listed_users ulist p =
    map (λ u. record { username = u; role = role_of ulist u; perm = perm_text p.read_only })
      (filterb (λ u. not (is_group u)) p.valid_users)

unfoldable pub listed_groups : Payload → List GroupPerm
unfolding is_group drop_first
listed_groups p =
    map (λ u. record { name = drop_first u; perm = perm_text p.read_only })
      (filterb is_group p.valid_users)

unfoldable pub legacy_cifs : List AppUser → Dto → CifsForm
unfolding volume_of listed_users listed_groups
legacy_cifs ulist dto = record {
  id = some dto.id;
  name = dto.saved.name;
  description = "";
  volume = volume_of dto.saved.path;
  path = dto.saved.path;
  create_folder = true;
  recycle_bin = false;
  hidden = false;
  quota = record { enabled = false; size = 200; unit = "GB"; warning_pct = 80 };
  smb = record {
    network_name = dto.saved.name;
    min_protocol = "SMB2";
    signing = false;
    encryption = false;
    time_machine = false;
    guest = false;
    oplocks = "enabled";
    hide_dot_files = false;
    case_sensitivity = "insensitive";
    comment = "";
    log_access = false;
  };
  users = listed_users ulist dto.saved;
  groups = listed_groups dto.saved;
  default_perm = perm_text dto.saved.read_only;
  status = status_text dto.saved.enabled;
  used_gb = 0;
  connections = 0;
  created_at = "";
  modified_at = "";
}

abbrev rule : ℕ → String → Bool → Rule
rule id client read_only = record {
  id = id;
  client = client;
  perm = perm_text read_only;
  adv_open = false;
  adv = default_adv;
}

-- A rule for each client, numbered from a number on.
unfoldable pub rules_from : ℕ → Bool → List String → List Rule
rules_from id read_only [] = []
rules_from id read_only (ip ∷ ips) = rule id ip read_only ∷ rules_from (suc id) read_only ips

unfoldable pub legacy_rules : Bool → List String → List Rule
unfolding rules_from
legacy_rules read_only [] = rule 1 "*" read_only ∷ []
legacy_rules read_only (ip ∷ ips) = rules_from 1 read_only (ip ∷ ips)

unfoldable pub legacy_nfs : Dto → NfsForm
unfolding volume_of legacy_rules
legacy_nfs dto = record {
  id = some dto.id;
  name = dto.saved.name;
  description = "";
  volume = volume_of dto.saved.path;
  path = dto.saved.path;
  create_folder = true;
  log_access = false;
  versions = record { v3 = true; v4 = true; v41 = false; v42 = false };
  nfsv4 = record {
    domain = "nas.local";
    kerberos = false;
    kdc = "";
    realm = "";
    kerberos_mode = "krb5";
  };
  rules = legacy_rules dto.saved.read_only dto.saved.allowed_ips;
  global = record {
    fsid = false;
    fsid_num = 0;
    acl = false;
    pnfs = false;
    sec = "sys";
    description = "";
  };
  status = status_text dto.saved.enabled;
  created_at = "";
  modified_at = "";
}

unfoldable pub share_of : Dto → List AppUser → Option Share → Share
unfolding with_server legacy_cifs legacy_nfs
share_of dto ulist (some config) = with_server dto config
share_of dto ulist none =
    if dto.saved.protocol == "smb" then cifs (legacy_cifs ulist dto) else nfs (legacy_nfs dto)

unfoldable pub map_share_from_api : Dto → List AppUser → Share
unfolding share_of
map_share_from_api dto ulist = share_of dto ulist dto.saved.config

-- `form.status ? form.status === "active" : true`.
abbrev pub is_enabled : String → Bool
is_enabled status = if status == "" then true else status == "active"

unfoldable pub map_cifs_to_api : CifsForm → Payload
map_cifs_to_api form = record {
  name = form.name;
  path = form.path;
  protocol = "smb";
  read_only = form.default_perm == "ro";
  allowed_ips = [];
  valid_users =
      if form.smb.guest
      then []
      else map (λ (u : UserPerm). u.username)
          (filterb (λ (u : UserPerm). not (u.perm == "none")) form.users)
        ++ map (λ (g : GroupPerm). "@" +++ g.name)
            (filterb (λ (g : GroupPerm). not (g.perm == "none")) form.groups);
  enabled = is_enabled form.status;
  config = some (cifs form);
}

unfoldable pub map_nfs_to_api : NfsForm → Payload
map_nfs_to_api form = record {
  name = form.name;
  path = form.path;
  protocol = "nfs";
  read_only = not (eqb (length form.rules) 0) && all (λ (r : Rule). r.perm == "ro") form.rules;
  allowed_ips = filterb (λ c. not (c == "")) (map (λ (r : Rule). r.client) form.rules);
  valid_users = [];
  enabled = is_enabled form.status;
  config = some (nfs form);
}
