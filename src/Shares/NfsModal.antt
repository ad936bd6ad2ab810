-- ===== src/Shares/NfsModal.antt =====
-- The dialog of an NFS share, `NFSModal`, and the one of its client rules alone, `ClientRulesModal`, of
-- nasweb/frontend/src/js/app.js. A field's input changes its value, so the effect that hangs on two fields runs
-- after each.
pub mod Preview
use ollozuna_nas.Prelude.{
  ℕ, String, Bool, true, false, not, ◌&&◌, ◌||◌, Option, none, some, List, [], ◌∷◌, ◌==◌,
  if◌then◌else◌, ◌+++◌, find_first,
}
use ollozuna_nas.Shares.{Rule, Versions, Nfsv4, Global, NfsForm}
use ollozuna_nas.Shares.Mapping.{default_adv}
use ollozuna_nas.Shares.View.{Volume}
use ollozuna_nas.Shares.CifsModal.{Errors, no_errors, first_name}
use ollozuna_nas.Shares.CifsModal.Saves.{path_error, is_clean}
use ollozuna_nas.Shares.Rules.{
  AdvOption, add_rule, remove_rule, update_rule, update_adv, toggle_adv, move_rule, Direction,
  Entry,
}

pub record Modal : Type 0 where
  pub is_edit : Bool
  pub form : NfsForm
  pub errors : Errors
  pub picker : Bool

-- The form of a new share; the fields that the form lacks until it is saved are empty.
unfoldable pub blank_form : List Volume → NfsForm
unfolding first_name
blank_form volumes = record {
  id = none;
  name = "";
  description = "";
  volume = first_name volumes;
  path = "";
  create_folder = true;
  log_access = false;
  versions = record { v3 = true; v4 = true; v41 = false; v42 = false };
  nfsv4 = record {
    domain = "nas.local";
    kerberos = false;
    kdc = "";
    realm = "";
    kerberos_mode = "krb5";
  };
  rules = record { id = 1; client = ""; perm = "rw"; adv_open = false; adv = default_adv } ∷ [];
  global = record {
    fsid = false;
    fsid_num = 0;
    acl = false;
    pnfs = false;
    sec = "sys";
    description = "";
  };
  status = "";
  created_at = "";
  modified_at = "";
}

unfoldable pub new : List Volume → Modal
unfolding blank_form
new volumes = record {
  is_edit = false;
  form = blank_form volumes;
  errors = no_errors;
  picker = false;
}

unfoldable pub edit : NfsForm → Modal
edit share = record { is_edit = true; form = share; errors = no_errors; picker = false }

-- `set`, `setVer`, `setNFS4` and `setGlobal`, for the fields that nothing else depends on.
pub data Setting : Type 0 where
  description domain kdc realm kerberos_mode sec : String → Setting
  create_folder log_access v3 v4 v41 v42 kerberos fsid acl pnfs : Bool → Setting

set_ver : Versions → Setting → Versions
set_ver x (v3 b) = record x { v3 = b }
set_ver x (v4 b) = record x { v4 = b }
set_ver x (v41 b) = record x { v41 = b }
set_ver x (v42 b) = record x { v42 = b }
set_ver x _ = x

set_nfs4 : Nfsv4 → Setting → Nfsv4
set_nfs4 x (domain s) = record x { domain = s }
set_nfs4 x (kerberos b) = record x { kerberos = b }
set_nfs4 x (kdc s) = record x { kdc = s }
set_nfs4 x (realm s) = record x { realm = s }
set_nfs4 x (kerberos_mode s) = record x { kerberos_mode = s }
set_nfs4 x _ = x

set_global : Global → Setting → Global
set_global x (fsid b) = record x { fsid = b }
set_global x (acl b) = record x { acl = b }
set_global x (pnfs b) = record x { pnfs = b }
set_global x (sec s) = record x { sec = s }
set_global x _ = x

set_own : NfsForm → Setting → NfsForm
set_own f (description s) = record f { description = s }
set_own f (create_folder b) = record f { create_folder = b }
set_own f (log_access b) = record f { log_access = b }
set_own f _ = f

unfoldable pub set : Modal → Setting → Modal
unfolding set_ver set_nfs4 set_global set_own
set m v = record m {
  form = record (set_own m.form v) {
    versions = set_ver m.form.versions v;
    nfsv4 = set_nfs4 m.form.nfsv4 v;
    global = set_global m.form.global v;
  };
}

-- The effect of a new share's volume and name.
with_path : NfsForm → Option Volume → NfsForm
with_path f none = f
with_path f (some v) = record f { path = v.mount +++ "/" +++ f.name }

follow_path : List Volume → Bool → NfsForm → NfsForm
unfolding with_path
follow_path volumes is_edit f =
    if not is_edit && not (f.volume == "") && not (f.name == "")
    then with_path f (find_first (λ (v : Volume). v.name == f.volume) volumes)
    else f

unfoldable pub type_name : List Volume → Modal → String → Modal
unfolding follow_path
type_name volumes m v = record m {
  form = follow_path volumes m.is_edit (record m.form { name = v });
  errors = record m.errors { name = "" };
}

unfoldable pub choose_volume : List Volume → Modal → String → Modal
unfolding follow_path
choose_volume volumes m v = record m {
  form = follow_path volumes m.is_edit (record m.form { volume = v });
}

unfoldable pub type_path : Modal → String → Modal
type_path m v = record m {
  form = record m.form { path = v };
  errors = record m.errors { path = "" };
}

unfoldable pub pick_path : Modal → String → Modal
pick_path m v = record m {
  form = record m.form { path = v };
  errors = record m.errors { path = "" };
  picker = false;
}

-- Whether the options of NFSv4 are shown, and whether pNFS can be chosen.
unfoldable pub has_nfs4 : NfsForm → Bool
has_nfs4 f = f.versions.v4 || f.versions.v41 || f.versions.v42

unfoldable pub can_pnfs : NfsForm → Bool
can_pnfs f = f.versions.v41 || f.versions.v42

unfoldable pub validate : NfsForm → Errors
unfolding path_error
validate f = record { name = path_error f.name; path = path_error f.path }

unfoldable pub handle_save : Modal → Modal × Option NfsForm
unfolding validate
handle_save m = (
  record m { errors = validate m.form },
  if is_clean (validate m.form) then some m.form else none,
)

-- What the editor of the rules does with a list of them, in either dialog.
pub data Edit : Type 0 where
  add : ℕ → Edit
  remove toggle : ℕ → Edit
  update : ℕ → Entry → Edit
  update_option : ℕ → AdvOption → Edit
  move : ℕ → Direction → Edit

unfoldable pub edit_rules : List Rule → Edit → List Rule
edit_rules rules (add id) = add_rule rules id
edit_rules rules (remove i) = remove_rule rules i
edit_rules rules (toggle i) = toggle_adv rules i
edit_rules rules (update i v) = update_rule rules i v
edit_rules rules (update_option i v) = update_adv rules i v
edit_rules rules (move i d) = move_rule rules i d

unfoldable pub set_rules : Modal → Edit → Modal
unfolding edit_rules
set_rules m e = record m { form = record m.form { rules = edit_rules m.form.rules e } }

-- `ClientRulesModal` saves its share with its own copy of the rules.
unfoldable pub save_rules : NfsForm → List Rule → NfsForm
save_rules share rules = record share { rules = rules }
