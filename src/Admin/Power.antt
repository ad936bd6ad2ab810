-- ===== src/Admin/Power.antt =====
-- When the machine is restarted or switched off (`AdminView`, nasweb/frontend/src/js/app.js).
use ollozuna_nas.Prelude.{
  ℕ, String, Bool, true, false, Option, none, some, List, [], ◌∷◌, ◌++◌, ◌≡◌, refl, ap, ◌∙◌, arith,
  ◌⊎◌, inl, inr,
}
use ollozuna_nas.Api.Endpoints.{Call, admin_reboot, admin_shutdown}
use ollozuna_nas.Admin.{
  Admin, Action, reboot, shutdown, Line, initial, load, logs_come, logs_failed, choose_unit,
  choose_lines, can_ask, ask, dismiss, do_power, power_ends, power_call,
}

-- What happens on the page, each with the calls that it makes. A button is pressed when it is there
-- and enabled; the call of an action ends while the page is busy.
pub data Step (is_admin : Bool) : Admin → Admin → List Call → Type 0 where
  loads : (a : Admin) → Step is_admin a (load a).0 (load a).1
  comes : (a : Admin) (us : List String) (es : List Line) → Step is_admin a (logs_come a us es) []
  fails : (a : Admin) (message : String) → Step is_admin a (logs_failed a message) []
  unit_chosen : (a : Admin) (u : String) → Step is_admin a (choose_unit a u).0 (choose_unit a u).1
  lines_chosen : (a : Admin) (n : ℕ) → Step is_admin a (choose_lines a n).0 (choose_lines a n).1
  asks :
      (a : Admin) (action : Action) → can_ask is_admin a ≡ true → Step is_admin a (ask a action) []
  dismisses : (a : Admin) → a.busy ≡ false → Step is_admin a (dismiss a) []
  confirms :
      (a : Admin) (action : Action)
      → a.confirm ≡ some action
      → a.busy ≡ false
      → Step is_admin a (do_power a action).0 (do_power a action).1
  ends :
      (a : Admin) (action : Action) (answer : Option String)
      → a.busy ≡ true
      → Step is_admin a (power_ends a action answer) []

-- A run of the page, with the calls that it made.
pub data Run (is_admin : Bool) : Admin → List Call → Type 0 where
  start : Run is_admin initial []
  next :
      {a b : Admin} {calls more : List Call}
      → Run is_admin a calls
      → Step is_admin a b more
      → Run is_admin b (calls ++ more)

-- The page asks whether to go on only if the user is an administrator.
abbrev IsGuarded : Bool → Admin → Type 0
IsGuarded is_admin a = (a.confirm ≡ none) ⊎ (is_admin ≡ true)

asked-admin : (is_admin : Bool) (a : Admin) → can_ask is_admin a ≡ true → is_admin ≡ true
unfolding can_ask
asked-admin is_admin a h = ground arith

Step-IsGuarded :
    {is_admin : Bool} {a b : Admin} {more : List Call}
    → Step is_admin a b more
    → IsGuarded is_admin a
    → IsGuarded is_admin b
unfolding load logs_come logs_failed choose_unit choose_lines ask dismiss do_power power_ends
Step-IsGuarded (loads a) g = g
Step-IsGuarded (comes a us es) g = g
Step-IsGuarded (fails a m) g = g
Step-IsGuarded (unit_chosen a u) g = g
Step-IsGuarded (lines_chosen a n) g = g
Step-IsGuarded {is_admin} (asks a action can) g = inr (asked-admin is_admin a can)
Step-IsGuarded (dismisses a idle) g = inl refl
Step-IsGuarded (confirms a action e idle) g = g
Step-IsGuarded (ends a action none on) g = inl refl
Step-IsGuarded (ends a action (some m) on) g = inl refl

Run-IsGuarded :
    {is_admin : Bool} {a : Admin} {calls : List Call} → Run is_admin a calls → IsGuarded is_admin a
Run-IsGuarded start = inl refl
Run-IsGuarded (next r s) = Step-IsGuarded s (Run-IsGuarded r)

power_of : Call → Option Action
power_of admin_reboot = some reboot
power_of admin_shutdown = some shutdown
power_of _ = none

power_of-power_call : (action : Action) → power_of (power_call action) ≡ some action
unfolding power_call power_of
power_of-power_call reboot = refl
power_of-power_call shutdown = refl

first_power : List Call → Option Action
unfolding power_of
first_power [] = none
first_power (c ∷ _) = power_of c

-- What a step that asks to restart the machine or to switch it off has gone by.
AsksFor : Bool → Admin → Admin → Action → Type 0
AsksFor is_admin a b action =
    (is_admin ≡ true) × (a.confirm ≡ some action) × (a.busy ≡ false) × (b.busy ≡ true)

confirmed-admin :
    (is_admin : Bool) (a : Admin) (action : Action)
    → IsGuarded is_admin a
    → a.confirm ≡ some action
    → is_admin ≡ true
confirmed-admin is_admin a action (inl off) e = absurd (cc (off, e))
confirmed-admin is_admin a action (inr on) e = on

step-AsksFor :
    {is_admin : Bool} {a b : Admin} {more : List Call} (action : Action)
    → Step is_admin a b more
    → IsGuarded is_admin a
    → first_power more ≡ some action
    → AsksFor is_admin a b action
unfolding first_power power_of load choose_unit choose_lines do_power AsksFor
step-AsksFor action (loads a) g h = absurd (cc h)
step-AsksFor action (comes a us es) g h = absurd (cc h)
step-AsksFor action (fails a m) g h = absurd (cc h)
step-AsksFor action (unit_chosen a u) g h = absurd (cc h)
step-AsksFor action (lines_chosen a n) g h = absurd (cc h)
step-AsksFor action (asks a other can) g h = absurd (cc h)
step-AsksFor action (dismisses a idle) g h = absurd (cc h)
step-AsksFor action (ends a other answer on) g h = absurd (cc h)
step-AsksFor {is_admin} action (confirms a other e idle) g h =
    let same : other ≡ action = cc (power_of-power_call other, h) in
    (confirmed-admin is_admin a other g e, e ∙ ap some same, idle, refl)

-- In every run of the page, a restart or a switching off is asked of the server only for an
-- administrator, who has confirmed the question about just this action, and while no such call runs; the
-- page is busy from then on.
pub power-AsksFor :
    (is_admin : Bool) (a b : Admin) (calls more : List Call) (action : Action)
    → Run is_admin a calls
    → Step is_admin a b more
    → more ≡ power_call action ∷ []
    → (is_admin ≡ true) × (a.confirm ≡ some action) × (a.busy ≡ false) × (b.busy ≡ true)
unfolding AsksFor first_power
power-AsksFor is_admin a b calls more action r s h =
    step-AsksFor action s (Run-IsGuarded r) (ap first_power h ∙ power_of-power_call action)
