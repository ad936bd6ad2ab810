-- ===== src/Raid/Wipe/Tests.antt =====
-- Runs of the dialog that wipes a disk, and its theorem at an input that meets its hypothesis.
use ollozuna_nas.Prelude.{none, some, List, [], ◌∷◌, ◌≡◌, refl}
use ollozuna_nas.Raid.Page.{closed, handle_wipe, wiped, load}
use ollozuna_nas.Raid.Wipe.{
  at_first, Event, opens, created, go, dismiss, escape, answer, open_over, go_in, close_in,
  answered, take_answer, is_waiting, handle, run, closes_busy,
}
use ollozuna_nas.Raid.Wipe.Alone.{IsAlone, wipe-IsAlone}

-- The call is refused once and then sent again; while it waits, the dialog cannot be closed beside its card.
abbrev twice : List Event
twice = opens "/dev/sda" ∷ go ∷ answer 1 (some "busy") ∷ go ∷ go ∷ dismiss ∷ []

-- Escape closes a busy dialog, and so does an array that was being created; another wipe can then start, and
-- the answer to the first closes the dialog of the second.
wipe_tests :
    ((run at_first twice).waiting ≡ 1 ∷ [])
    × ((run at_first (opens "/dev/sda" ∷ go ∷ escape ∷ [])).page.modal ≡ closed)
    × ((run at_first (opens "/dev/sda" ∷ go ∷ created ∷ opens "/dev/sdb" ∷ go ∷ [])).waiting
        ≡ 2 ∷ 1 ∷ [])
    × ((run at_first
          (opens "/dev/sda" ∷ go ∷ escape ∷ opens "/dev/sdb" ∷ answer 1 none ∷ [])).page.modal
        ≡ closed)
unfolding run handle open_over go_in close_in answered take_answer is_waiting handle_wipe wiped load
wipe_tests = (refl, refl, refl, refl)

wipe-IsAlone_example : IsAlone (run at_first twice)
unfolding closes_busy
wipe-IsAlone_example = wipe-IsAlone twice refl
