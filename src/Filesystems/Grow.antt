-- ===== src/Filesystems/Grow.antt =====
-- How a filesystem is grown to fill its array: `handleGrow` of `FilesystemSection`,
-- nasweb/frontend/src/js/app.js, with the buttons of a row that it disables.
use ollozuna_nas.Prelude.{
  ℕ, suc, String, Bool, true, false, Option, none, some, ◌==◌, leb, min, if◌then◌else◌,
}
use ollozuna_nas.Number.{round_percent}
use ollozuna_nas.Api.Endpoints.{Call, grow_filesystem}
use ollozuna_nas.Raid.{Filesystem}
use ollozuna_nas.Filesystems.{After, reload, message}

-- The device that is grown, as the section shows it, and its bar.
pub record Section : Type 0 where
  pub growing : Option String
  pub grow_progress : ℕ

unfoldable pub idle : Section
idle = record { growing = none; grow_progress = 0 }

-- The handler up to its call, with the answer to its question; its timer starts at step 0.
unfoldable pub handle_grow : Section → Filesystem → Bool → Section × Option Call
handle_grow s fs false = (s, none)
handle_grow s fs true = (
  record s { growing = some fs.device; grow_progress = 0 },
  some (grow_filesystem fs.device fs.fstype),
)

-- A tick of the timer with so many steps behind it: the section, and the steps of a timer that
-- goes on.
unfoldable pub tick : Section → ℕ → Section × Option ℕ
tick s step = (
  record s { grow_progress = min 90 (round_percent (suc step) 60) },
  if leb 60 (suc step) then none else some (suc step),
)

-- The answer to the call stops the timer: a success fills the bar, and after a pause ends the growing and loads
-- the page; a refusal ends it at once.
unfoldable pub grown : Section → Section
grown s = record s { grow_progress = 100 }

unfoldable pub after_pause : Section → Section × After
after_pause s = (record s { growing = none }, reload)

unfoldable pub refused : Section → String → Section × After
refused s m = (record s { growing = none }, message m)

-- Whether the row of a device has its three buttons disabled.
unfoldable pub is_growing : Section → String → Bool
is_growing s device = shows s.growing
  where
    shows : Option String → Bool
    shows none = false
    shows (some at) = at == device
