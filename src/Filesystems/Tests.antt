-- ===== src/Filesystems/Tests.antt =====
-- Runs of the dialog that formats an array, and its theorems at inputs that meet their hypotheses.
use ollozuna_nas.Prelude.{
  ℕ, ◌+◌, leb, true, false, none, some, ◌≡◌, refl, ◌==◌, ◌≤◌, [], ◌∷◌, if◌then◌else◌, arith,
}
use ollozuna_nas.Api.Endpoints.{create_filesystem, smart, strip_dev}
use ollozuna_nas.Number.{round_percent, percent_of}
use ollozuna_nas.Raid.{Filesystem}
use ollozuna_nas.Raid.Page.Message.{replace_first}
use ollozuna_nas.Filesystems.Format.{Dialog, new, submit, type_mount, is_absolute}
use ollozuna_nas.Filesystems.Format.Progress.{
  Reach, start, next, type_in, press, IsValid, dialog-IsValid, format-sends,
}
use ollozuna_nas.Filesystems.Usage.{used_pct, bar_color, used_pct_le}
use ollozuna_nas.Filesystems.Smart
use ollozuna_nas.Filesystems.Smart.{Panel, select_disk, run_check, wait, settle, refused}
use ollozuna_nas.Filesystems.Smart.Check.{duration, Shows, check-settles}

abbrev blank : Filesystem
blank = record { device = "/dev/md0"; fstype = ""; mount_point = ""; is_mounted = false }

abbrev typed : Dialog
typed = type_mount (new blank) "/srv/nas/media"

new_test :
    ((new blank).mount_point ≡ "/srv/nas/md0")
    × ((submit blank (type_mount (new blank) "md0") true).1 ≡ none)
unfolding new replace_first submit is_absolute type_mount
new_test = (refl, refl)

typed_sent :
    (submit blank typed true).1
    ≡ some (create_filesystem "/dev/md0" typed.fs_type typed.mount_point)
unfolding submit is_absolute type_mount
typed_sent = refl

format-sends_example :
    (true ≡ true)
    × (is_absolute typed.mount_point ≡ true)
    × (create_filesystem "/dev/md0" typed.fs_type typed.mount_point
        ≡ create_filesystem "/dev/md0" typed.fs_type typed.mount_point)
format-sends_example =
    format-sends blank typed true (create_filesystem "/dev/md0" typed.fs_type typed.mount_point)
      typed_sent

abbrev running : Dialog
running = (submit blank typed true).0

running-Reach : Reach blank running
unfolding type_mount new
running-Reach = next (next start (type_in _ "/srv/nas/media" refl)) (press typed true refl refl)

dialog-IsValid_example : IsValid running
dialog-IsValid_example = dialog-IsValid blank running running-Reach

abbrev chosen : Panel
chosen = select_disk Smart.new "/dev/sda"

chosen_test : (chosen.sel == "") ≡ false
unfolding select_disk Smart.new
chosen_test = refl

chosen_idle : chosen.timers ≡ []
unfolding select_disk Smart.new
chosen_idle = refl

check-settles_example :
    ((wait 40 (run_check chosen "short")).1
      ≡ (if leb (duration "short") 40 then smart (strip_dev chosen.sel) ∷ [] else []))
    × ((wait 40 (run_check chosen "short")).0.checking ≡ true)
    × ((wait 40 (run_check chosen "short")).0.progress ≤ 99)
    × ((wait 9 (
          settle
            (wait (duration "short" + 5) (run_check chosen "short")).0
            "short"
            (refused "gone"))).1
        ≡ [])
    × ((wait 9 (
          settle
            (wait (duration "short" + 5) (run_check chosen "short")).0
            "short"
            (refused "gone"))).0.checking
        ≡ false)
    × Shows
        (wait 9 (
          settle
            (wait (duration "short" + 5) (run_check chosen "short")).0
            "short"
            (refused "gone"))).0
        "short"
        (refused "gone")
check-settles_example = check-settles chosen "short" 40 5 9 (refused "gone") chosen_test chosen_idle

-- A full device, one of no bytes, and an almost full one.
usage_tests :
    (used_pct 4000 4000 ≡ some 100)
    × (used_pct 0 0 ≡ some 0)
    × (used_pct 1000 856 ≡ some 86)
    × (bar_color 86 ≡ "var(--danger)")
unfolding used_pct bar_color percent_of round_percent
usage_tests = (refl, refl, refl, refl)

used_pct_le_example : (n : ℕ) × (used_pct 0 0 ≡ some n) × (n ≤ 100)
used_pct_le_example = used_pct_le 0 0 (omega arith)
