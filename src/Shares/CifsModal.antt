-- ===== src/Shares/CifsModal.antt =====
-- The dialog of a CIFS share: `CIFSModal` of nasweb/frontend/src/js/app.js. A field's input changes its
-- value, so the effects that hang on a field run after each.
pub mod Members
pub mod Saves
pub mod Encryption
use Prim.Native.String
use ollozuna_nas.Prelude.{
  ℕ, String, code, Bool, true, false, not, ◌&&◌, ◌||◌, Option, none, some, List, [], ◌∷◌, ◌++◌, map,
  ◌==◌, eqb, leb, if◌then◌else◌, ◌+++◌, filterb, find_first, any, includes, strip_prefix,
}
use ollozuna_nas.Shares.{Quota, Smb, UserPerm, GroupPerm, CifsForm, AppUser}
use ollozuna_nas.Shares.View.{Volume}

-- The messages at the fields; an empty one is none.
pub record Errors : Type 0 where
  pub name : String
  pub path : String

abbrev pub no_errors : Errors
no_errors = record { name = ""; path = "" }

pub record Modal : Type 0 where
  pub is_edit : Bool
  pub form : CifsForm
  pub errors : Errors
  pub picker : Bool

unfoldable pub first_name : List Volume → String
first_name [] = ""
first_name (v ∷ _) = v.name

-- The form of a new share; the fields that the form lacks until it is saved are empty.
unfoldable pub blank_form : List Volume → CifsForm
unfolding first_name
blank_form volumes = record {
  id = none;
  name = "";
  description = "";
  volume = first_name volumes;
  path = "";
  create_folder = true;
  recycle_bin = false;
  hidden = false;
  quota = record { enabled = false; size = 200; unit = "GB"; warning_pct = 80 };
  smb = record {
    network_name = "";
    min_protocol = "SMB2";
    signing = false;
    encryption = false;
    time_machine = false;
    guest = false;
    oplocks = "enabled";
    hide_dot_files = false;
    case_sensitivity = "insensitive";
    comment = "";
    log_access = false;
  };
  users = [];
  groups = [];
  default_perm = "none";
  status = "";
  used_gb = 0;
  connections = 0;
  created_at = "";
  modified_at = "";
}

unfoldable pub new : List Volume → Modal
unfolding blank_form
new volumes = record {
  is_edit = false;
  form = blank_form volumes;
  errors = no_errors;
  picker = false;
}

unfoldable pub edit : CifsForm → Modal
edit share = record { is_edit = true; form = share; errors = no_errors; picker = false }

-- `set`, `setSMB` and `setQuota`, for the fields that nothing else depends on.
pub data Setting : Type 0 where
  description default_perm : String → Setting
  create_folder recycle_bin hidden : Bool → Setting

pub data SmbSetting : Type 0 where
  network_name min_protocol oplocks case_sensitivity comment : String → SmbSetting
  signing encryption time_machine guest hide_dot_files log_access : Bool → SmbSetting

pub data QuotaSetting : Type 0 where
  enabled : Bool → QuotaSetting
  size warning_pct : ℕ → QuotaSetting
  unit : String → QuotaSetting

unfoldable pub set_field : CifsForm → Setting → CifsForm
set_field f (description v) = record f { description = v }
set_field f (default_perm v) = record f { default_perm = v }
set_field f (create_folder v) = record f { create_folder = v }
set_field f (recycle_bin v) = record f { recycle_bin = v }
set_field f (hidden v) = record f { hidden = v }

abbrev is_some : Option String → Bool
is_some none = false
is_some (some _) = true

-- `v.startsWith("SMB3")`.
unfoldable pub is_smb3 : String → Bool
unfolding strip_prefix
is_smb3 v = is_some (strip_prefix "SMB3" v)

-- A protocol without encryption switches this off.
unfoldable pub set_smb : Smb → SmbSetting → Smb
unfolding is_smb3
set_smb s (network_name v) = record s { network_name = v }
set_smb s (min_protocol v) =
    if is_smb3 v
    then record s { min_protocol = v }
    else record s { min_protocol = v; encryption = false }
set_smb s (oplocks v) = record s { oplocks = v }
set_smb s (case_sensitivity v) = record s { case_sensitivity = v }
set_smb s (comment v) = record s { comment = v }
set_smb s (signing v) = record s { signing = v }
set_smb s (encryption v) = record s { encryption = v }
set_smb s (time_machine v) = record s { time_machine = v }
set_smb s (guest v) = record s { guest = v }
set_smb s (hide_dot_files v) = record s { hide_dot_files = v }
set_smb s (log_access v) = record s { log_access = v }

-- The setting's control is disabled.
unfoldable pub is_disabled : Smb → SmbSetting → Bool
unfolding is_smb3
is_disabled s (encryption _) = not (is_smb3 s.min_protocol)
is_disabled s _ = false

unfoldable pub set_quota : Quota → QuotaSetting → Quota
set_quota q (enabled v) = record q { enabled = v }
set_quota q (size v) = record q { size = v }
set_quota q (warning_pct v) = record q { warning_pct = v }
set_quota q (unit v) = record q { unit = v }

-- The effects of a new share's volume and name: its path follows them, and its network name the name.
with_path : CifsForm → Option Volume → CifsForm
with_path f none = f
with_path f (some v) = record f { path = v.mount +++ "/" +++ f.name }

unfoldable pub follow_path : List Volume → Bool → CifsForm → CifsForm
unfolding with_path
follow_path volumes is_edit f =
    if not is_edit && not (f.volume == "") && not (f.name == "")
    then with_path f (find_first (λ (v : Volume). v.name == f.volume) volumes)
    else f

unfoldable pub follow_name : Bool → CifsForm → CifsForm
follow_name is_edit f =
    if not is_edit then record f { smb = record f.smb { network_name = f.name } } else f

-- The fields of the name, the volume and the path; the name of a share that is edited is fixed.
unfoldable pub type_name : List Volume → Modal → String → Modal
unfolding follow_path follow_name
type_name volumes m v = record m {
  form = follow_name m.is_edit (follow_path volumes m.is_edit (record m.form { name = v }));
  errors = record m.errors { name = "" };
}

unfoldable pub choose_volume : List Volume → Modal → String → Modal
unfolding follow_path
choose_volume volumes m v = record m {
  form = follow_path volumes m.is_edit (record m.form { volume = v });
}

unfoldable pub type_path : Modal → String → Modal
type_path m v = record m {
  form = record m.form { path = v };
  errors = record m.errors { path = "" };
}

unfoldable pub pick_path : Modal → String → Modal
pick_path m v = record m {
  form = record m.form { path = v };
  errors = record m.errors { path = "" };
  picker = false;
}

unfoldable pub set_picker : Modal → Bool → Modal
set_picker m shown = record m { picker = shown }

unfoldable pub set : Modal → Setting → Modal
unfolding set_field
set m v = record m { form = set_field m.form v }

unfoldable pub set_smb_field : Modal → SmbSetting → Modal
unfolding set_smb
set_smb_field m v = record m { form = record m.form { smb = set_smb m.form.smb v } }

unfoldable pub set_quota_field : Modal → QuotaSetting → Modal
unfolding set_quota
set_quota_field m v = record m { form = record m.form { quota = set_quota m.form.quota v } }
