-- ===== src/Admin.antt =====
-- The administration page: `AdminView` of nasweb/frontend/src/js/app.js. A handler gives the new state and its
-- calls; an answer comes later.
pub mod Power
mod Tests
use ollozuna_nas.Prelude.{
  ℕ, String, Bool, true, false, not, ◌&&◌, ◌||◌, Option, none, some, List, [], ◌∷◌, ◌==◌,
  if◌then◌else◌,
}
use ollozuna_nas.Api.Endpoints.{Call, admin_logs, admin_reboot, admin_shutdown}

-- A line of the log.
pub record Line : Type 0 where
  pub level : String
  pub time : String
  pub unit : String
  pub message : String

pub data Action : Type 0 where
  reboot shutdown : Action

-- The page; `notice` is the action that was accepted.
pub record Admin : Type 0 where
  pub confirm : Option Action
  pub notice : Option Action
  pub unit : String
  pub lines : ℕ
  pub units : List String
  pub entries : Option (List Line)
  pub err : String
  pub busy : Bool

abbrev pub initial : Admin
initial = record {
  confirm = none;
  notice = none;
  unit = "";
  lines = 300;
  units = [];
  entries = none;
  err = "";
  busy = false;
}

unfoldable pub load : Admin → Admin × List Call
load a = (record a { err = ""; entries = none }, admin_logs a.unit a.lines ∷ [])

-- The answer to `adminLogs`.
unfoldable pub logs_come : Admin → List String → List Line → Admin
logs_come a units entries = record a { units = units; entries = some entries }

unfoldable pub logs_failed : Admin → String → Admin
logs_failed a message = record a { err = message; entries = some [] }

-- The two selections; a change loads the log.
unfoldable pub choose_unit : Admin → String → Admin × List Call
unfolding load
choose_unit a unit = load (record a { unit = unit })

unfoldable pub choose_lines : Admin → ℕ → Admin × List Call
unfolding load
choose_lines a lines = load (record a { lines = lines })

-- The buttons of the two actions.
unfoldable pub can_ask : Bool → Admin → Bool
can_ask is_admin a = not (not is_admin || a.busy)

unfoldable pub ask : Admin → Action → Admin
ask a action = record a { confirm = some action }

-- The question is left, by its cross, its cancelling or a click beside it, unless the page is busy.
unfoldable pub dismiss : Admin → Admin
dismiss a = record a { confirm = none }

unfoldable pub power_call : Action → Call
power_call reboot = admin_reboot
power_call shutdown = admin_shutdown

-- `doPower` up to its call, and its end, with the message of a refusal or none.
unfoldable pub do_power : Admin → Action → Admin × List Call
unfolding power_call
do_power a action = (record a { busy = true; err = "" }, power_call action ∷ [])

unfoldable pub power_ends : Admin → Action → Option String → Admin
power_ends a action none = record a { notice = some action; busy = false; confirm = none }
power_ends a action (some message) = record a { err = message; busy = false; confirm = none }
