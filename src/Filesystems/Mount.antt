-- ===== src/Filesystems/Mount.antt =====
-- The dialog that mounts a filesystem: `MountExistingModal` of nasweb/frontend/src/js/app.js.
use ollozuna_nas.Prelude.{String, Bool, true, false, not, Option, none, some, if◌then◌else◌, ◌+++◌}
use ollozuna_nas.Api.Endpoints.{Call, mount_filesystem}
use ollozuna_nas.Raid.{Filesystem}
use ollozuna_nas.Raid.Page.Message.{replace_first}
use ollozuna_nas.Filesystems.Format.{is_absolute}

pub record Dialog : Type 0 where
  pub mount_point : String
  pub mounting : Bool
  pub err : String
  pub picker : Bool

unfoldable pub new : Filesystem → Dialog
new fs = record {
  mount_point = "/srv/nas/" +++ replace_first "/dev/" "" fs.device;
  mounting = false;
  err = "";
  picker = false;
}

unfoldable pub submit : Filesystem → Dialog → Dialog × Option Call
unfolding is_absolute
submit fs d =
    if not (is_absolute d.mount_point)
    then (record d { err = "Mount point must start with /" }, none)
    else (
      record d { err = ""; mounting = true },
      some (mount_filesystem fs.device fs.fstype d.mount_point),
    )

-- What the page is told once the call is answered.
pub data Told : Type 0 where
  done : Told
  failed : String → Told

-- The answer: the message of a refusal, or none.
unfoldable pub answered : Dialog → Option String → Dialog × Told
answered d none = (d, done)
answered d (some m) = (record d { err = m; mounting = false }, failed m)

unfoldable pub type_mount : Dialog → String → Dialog
type_mount d path = record d { mount_point = path }

unfoldable pub set_picker : Dialog → Bool → Dialog
set_picker d shown = record d { picker = shown }

unfoldable pub picked : Dialog → String → Dialog
picked d path = record d { mount_point = path; picker = false }

-- A click beside the dialog closes it unless the call runs; Cancel and the cross always do.
unfoldable pub closes_outside : Dialog → Bool
closes_outside d = not d.mounting
