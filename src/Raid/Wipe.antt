-- ===== src/Raid/Wipe.antt =====
-- How a disk is wiped: `WipeDiskModal` of nasweb/frontend/src/js/app.js, on the page that opens it and
-- sends the call. A dialog covers the page, so that none opens while one is open.
pub mod Alone
mod Tests
use ollozuna_nas.Prelude.{
  ℕ, suc, String, Bool, true, false, not, ◌||◌, Option, none, some, List, [], ◌∷◌, eqb, filterb,
  includes, any, if◌then◌else◌,
}
use ollozuna_nas.Api.Endpoints.{Call}
use ollozuna_nas.Raid.Page.{Page, Modal, closed, wipe, initial, handle_wipe, wiped, load}

-- The page, the number of the dialog that was opened last, whether it is busy, and the numbers of the
-- dialogs whose call has no answer yet.
pub record Wiping : Type 0 where
  pub page : Page
  pub opening : ℕ
  pub busy : Bool
  pub waiting : List ℕ

abbrev pub at_first : Wiping
at_first = record { page = initial; opening = 0; busy = false; waiting = [] }

-- A creation that was sent before its dialog was closed succeeds, a dialog is opened for a device, its button is pressed, it is closed by a button or beside its
-- card, Escape is pressed, and the answer to the call of a dialog comes, the message of a refusal or none.
pub data Event : Type 0 where
  opens : String → Event
  created go dismiss escape : Event
  answer : ℕ → Option String → Event

open_over : Modal → Wiping → String → Wiping
open_over closed w device = record w {
  page = record w.page { modal = wipe device };
  opening = suc w.opening;
  busy = false;
}
open_over _ w device = w

go_in : Modal → Wiping → Wiping × List Call
go_in (wipe device) w = if w.busy then (w, []) else (
  record w { page = (handle_wipe w.page device).0; busy = true; waiting = w.opening ∷ w.waiting },
  (handle_wipe w.page device).1,
)
go_in _ w = (w, [])

close_in : Modal → Wiping → Wiping
close_in (wipe _) w = record w { page = record w.page { modal = closed } }
close_in _ w = w

-- The answer to a wipe, on the page.
take_answer : Page → Option String → Page × List Call
take_answer p none = wiped p
take_answer p (some m) = (record p { err = m }, [])

-- The answer ends the busy state of its own dialog only.
answered : Wiping → ℕ → Option String → Wiping × List Call
unfolding take_answer
answered w n r = (
  record w {
    page = (take_answer w.page r).0;
    busy = if eqb n w.opening then false else w.busy;
    waiting = filterb (λ k. not (eqb k n)) w.waiting;
  },
  (take_answer w.page r).1,
)

is_waiting : ℕ → List ℕ → Bool
is_waiting n ns = any (eqb n) ns

unfoldable pub handle : Wiping → Event → Wiping × List Call
unfolding open_over go_in close_in answered is_waiting
handle w (opens device) = (open_over w.page.modal w device, [])
handle w created = (
  (record w { page = (load (record w.page { modal = closed })).0 }),
  (load (record w.page { modal = closed })).1,
)
handle w go = go_in w.page.modal w
handle w dismiss = (if w.busy then w else close_in w.page.modal w, [])
handle w escape = (close_in w.page.modal w, [])
handle w (answer n r) = if is_waiting n w.waiting then answered w n r else (w, [])

unfoldable pub run : Wiping → List Event → Wiping
unfolding handle
run w [] = w
run w (e ∷ es) = run (handle w e).0 es

-- What closes the dialog although it is busy.
unfoldable pub closes_busy : Event → Bool
closes_busy created = true
closes_busy escape = true
closes_busy _ = false
