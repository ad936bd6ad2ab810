-- ===== src/Filesystems/Format.antt =====
-- The dialog that formats an array: `CreateFilesystemModal` of nasweb/frontend/src/js/app.js.
pub mod Progress
use Prim.Native.String
use ollozuna_nas.Prelude.{
  ℕ, suc, String, code, Bool, true, false, not, Option, none, some, eqb, leb, min, if◌then◌else◌,
  ◌+++◌,
}
use ollozuna_nas.Number.{round_percent}
use ollozuna_nas.Api.Endpoints.{Call, create_filesystem}
use ollozuna_nas.Raid.{Filesystem}
use ollozuna_nas.Raid.Page.Message.{replace_first}

-- The dialog, with the ticks of its timer so far while that runs.
pub record Dialog : Type 0 where
  pub fs_type : String
  pub mount_point : String
  pub formatting : Bool
  pub progress : ℕ
  pub done : Bool
  pub err : String
  pub picker : Bool
  pub timer : Option ℕ

unfoldable pub new : Filesystem → Dialog
new fs = record {
  fs_type = "ext4";
  mount_point = "/srv/nas/" +++ replace_first "/dev/" "" fs.device;
  formatting = false;
  progress = 0;
  done = false;
  err = "";
  picker = false;
  timer = none;
}

-- `s.startsWith("/")`.
unfoldable pub is_absolute : String → Bool
is_absolute String.[] = false
is_absolute (String.◌∷◌ c _) = eqb (code c) b'/'

-- `submit` up to its call, with the answer to its question.
unfoldable pub submit : Filesystem → Dialog → Bool → Dialog × Option Call
unfolding is_absolute
submit fs d confirmed =
    if not (is_absolute d.mount_point)
    then (record d { err = "Mount point must start with / (e.g. /srv/nas/md0)" }, none)
    else if confirmed
    then (
      record d { err = ""; formatting = true; progress = 0; timer = some 0 },
      some (create_filesystem fs.device d.fs_type d.mount_point),
    )
    else (d, none)

-- A tick of the timer, which ends with the eightieth.
unfoldable pub tick : Dialog → ℕ → Dialog
tick d step = record d {
  progress = min 90 (round_percent (suc step) 80);
  timer = if leb 80 (suc step) then none else some (suc step);
}

-- The answer to the call.
unfoldable pub succeeded : Dialog → Dialog
succeeded d = record d { timer = none; progress = 100; done = true; formatting = false }

unfoldable pub failed : Dialog → String → Dialog
failed d message = record d { timer = none; err = message; formatting = false }

unfoldable pub choose_type : Dialog → String → Dialog
choose_type d fs_type = record d { fs_type = fs_type }

unfoldable pub type_mount : Dialog → String → Dialog
type_mount d path = record d { mount_point = path; err = "" }

unfoldable pub set_picker : Dialog → Bool → Dialog
set_picker d shown = record d { picker = shown }

unfoldable pub picked : Dialog → String → Dialog
picked d path = record d { mount_point = path; picker = false; err = "" }
