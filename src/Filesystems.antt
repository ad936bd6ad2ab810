-- ===== src/Filesystems.antt =====
-- The filesystems of the RAID page: `FilesystemSection` of nasweb/frontend/src/js/app.js. A handler is
-- given the user's answer to its question and the server's answer to its call, the message of a
-- refusal or none; it gives the call and whether the page is loaded again or a message is shown.
pub mod Format
pub mod Smart
pub mod Mount
pub mod Grow
pub mod Usage
mod Tests
use ollozuna_nas.Prelude.{
  String, Bool, true, false, not, ◌&&◌, Option, none, some, List, ◌==◌, filterb,
}
use ollozuna_nas.Api.Endpoints.{Call, unmount_filesystem, delete_filesystem}
use ollozuna_nas.Raid.{Filesystem}

unfoldable pub mounted : List Filesystem → List Filesystem
mounted fs = filterb (λ (f : Filesystem). f.is_mounted) fs

unfoldable pub has_fs : List Filesystem → List Filesystem
has_fs fs = filterb (λ (f : Filesystem). not f.is_mounted && not (f.fstype == "")) fs

unfoldable pub no_fs : List Filesystem → List Filesystem
no_fs fs = filterb (λ (f : Filesystem). f.fstype == "") fs

-- What follows a call: the page is loaded again, or the message is shown on it.
pub data After : Type 0 where
  nothing reload : After
  message : String → After

after : Option String → After
after none = reload
after (some m) = message m

unfoldable pub handle_unmount : Filesystem → Bool → Option String → Option Call × After
unfolding after
handle_unmount f false answer = (none, nothing)
handle_unmount f true answer = (some (unmount_filesystem f.device f.mount_point), after answer)

unfoldable pub handle_delete_fs : Filesystem → Bool → Option String → Option Call × After
unfolding after
handle_delete_fs f false answer = (none, nothing)
handle_delete_fs f true answer = (some (delete_filesystem f.device), after answer)
