-- ===== src/Filesystems/Smart.antt =====
-- The check of a disk's health: `SmartPanel` of nasweb/frontend/src/js/app.js.
pub mod Check
use ollozuna_nas.Prelude.{
  ℕ, zero, suc, String, Bool, true, false, not, ◌||◌, Option, none, some, List, [], ◌∷◌, ◌++◌, ◌==◌,
  leb, min, if◌then◌else◌,
}
use ollozuna_nas.Number.{round_percent}
use ollozuna_nas.Api.Endpoints.{Call, smart, strip_dev}

-- What the panel shows of the server's answer.
pub record Info : Type 0 where
  pub device : String
  pub smart_health : String
  pub model : String
  pub temperature : Option ℕ
  pub power_on_hours : Option ℕ
  pub reallocated_sectors : Option ℕ

-- A timer, with what the check that started it has in its closure.
pub record Timer : Type 0 where
  pub step : ℕ
  pub steps : ℕ
  pub disk : String
  pub kind : String

-- The panel, with the timers that run.
pub record Panel : Type 0 where
  pub sel : String
  pub checking : Bool
  pub progress : ℕ
  pub check_type : String
  pub result : Option (Info × String)
  pub err : String
  pub timers : List Timer

unfoldable pub new : Panel
new = record {
  sel = "";
  checking = false;
  progress = 0;
  check_type = "";
  result = none;
  err = "";
  timers = [];
}

unfoldable pub select_disk : Panel → String → Panel
select_disk p disk = record p { sel = disk; result = none }

-- `!sel || checking`, which disables the two buttons.
unfoldable pub is_locked : Panel → Bool
is_locked p = p.sel == "" || p.checking

unfoldable pub steps_of : String → ℕ
steps_of kind = if kind == "short" then 40 else 100

unfoldable pub run_check : Panel → String → Panel
unfolding steps_of
run_check p kind = if p.sel == "" then p else record p {
  err = "";
  result = none;
  progress = 0;
  checking = true;
  check_type = kind;
  timers = p.timers ++ (record { step = 0; steps = steps_of kind; disk = p.sel; kind = kind } ∷ []);
}

-- The panel, the timers that go on, and the calls that were made.
pub record Passed : Type 0 where
  pub panel : Panel
  pub timers : List Timer
  pub calls : List Call

-- A tick of a timer, which asks the server once it has its number of steps.
unfoldable pub tick : Panel → Timer → Passed
tick p t =
    let step = suc t.step in
    let shown = record p { progress = min 99 (round_percent step t.steps) } in
    if leb t.steps step
    then record { panel = shown; timers = []; calls = smart (strip_dev t.disk) ∷ [] }
    else record { panel = shown; timers = record t { step = step } ∷ []; calls = [] }

-- The answer to the call of a check of this kind.
pub data Answer : Type 0 where
  found : Info → Answer
  refused : String → Answer

unfoldable pub settle : Panel → String → Answer → Panel
settle p kind (found info) = record p {
  result = some (info, kind);
  progress = 100;
  checking = false;
}
settle p kind (refused message) = record p { err = message; checking = false }

-- Each timer ticks.
tick_all : Panel → List Timer → Passed
unfolding tick
tick_all p [] = record { panel = p; timers = []; calls = [] }
tick_all p (t ∷ ts) =
    let now = tick p t in
    let later = tick_all now.panel ts in
    record {
      panel = later.panel;
      timers = now.timers ++ later.timers;
      calls = now.calls ++ later.calls;
    }

-- A tenth of a second passes.
pass : Panel → List Timer → Panel × List Call
unfolding tick_all
pass p ts = let r = tick_all p ts in (record r.panel { timers = r.timers }, r.calls)

-- So many tenths of a second pass: the panel, and the calls made meanwhile.
unfoldable pub wait : ℕ → Panel → Panel × List Call
unfolding pass
wait zero p = (p, [])
wait (suc n) p =
    let now = pass p p.timers in let later = wait n now.0 in (later.0, now.1 ++ later.1)
