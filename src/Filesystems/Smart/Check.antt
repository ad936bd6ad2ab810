-- ===== src/Filesystems/Smart/Check.antt =====
-- How a check of a disk goes (`SmartPanel`, nasweb/frontend/src/js/app.js).
use ollozuna_nas.Prelude.{
  ℕ, zero, suc, ◌+◌, ◌≤◌, ◌<◌, String, true, false, some, List, [], ◌∷◌, ◌++◌, ◌==◌, leb, min,
  if◌then◌else◌, ◌≡◌, refl, sym, ap, ◌∙◌, arith, inl, inr, ◌⊎◌, Bool-cases,
}
use mathlib.Core.Path.{subst}
use ollozuna_nas.Api.Endpoints.{Call, smart, strip_dev}
use ollozuna_nas.Filesystems.Smart.{
  Panel, Timer, Answer, found, refused, run_check, steps_of, tick, tick_all, pass, settle, wait,
}

-- A wait after what its first step did.
then_wait : ℕ → Panel × List Call → Panel × List Call
then_wait n q = let later = wait n q.0 in (later.0, q.1 ++ later.1)

-- Nothing happens without a timer.
wait-idle : (n : ℕ) (p : Panel) → p.timers ≡ [] → wait n p ≡ (p, [])
unfolding wait pass then_wait tick_all
wait-idle zero p off = refl
wait-idle (suc n) p off =
    ap (then_wait n) (ap (pass p) off ∙ ap (λ ts. (record p { timers = ts }, [])) (sym off))
    ∙ wait-idle n p off

-- The calls that a timer has made after so many ticks.
due : Timer → ℕ → List Call
due t n = if leb t.steps (t.step + n) then smart (strip_dev t.disk) ∷ [] else []

-- What a running check has come to after so many ticks.
record Runs (r : Panel × List Call) (t : Timer) (n : ℕ) : Type 0 where
  asked : r.1 ≡ due t n
  on : r.0.checking ≡ true
  bar : r.0.progress ≤ 99
  left : (leb t.steps (t.step + n) ≡ false) ⊎ (r.0.timers ≡ [])

min_le : (n : ℕ) → min 99 n ≤ 99
min_le n = omega arith

due-last :
    (t : Timer) (n : ℕ)
    → leb t.steps (suc t.step) ≡ true
    → due t (suc n) ≡ smart (strip_dev t.disk) ∷ []
unfolding due
due-last t n last = ground arith

below : (t : Timer) → leb t.steps (suc t.step) ≡ false → suc t.step < t.steps
below t more = ground arith

due-more : (t : Timer) (n : ℕ) → due (record t { step = suc t.step }) n ≡ due t (suc n)
unfolding due
due-more t n = ground arith

next_Runs :
    (t : Timer) (n : ℕ) (r : Panel × List Call)
    → Runs r (record t { step = suc t.step }) n
    → Runs r t (suc n)
next_Runs t n r k = record {
  asked = k.asked ∙ due-more t n;
  on = k.on;
  bar = k.bar;
  left = elim k.left [ inl more ↦ inl (ground arith) | inr done ↦ inr done ];
}

wait-Runs :
    (n : ℕ) (p : Panel) (t : Timer)
    → p.timers ≡ t ∷ []
    → t.step < t.steps
    → p.checking ≡ true
    → p.progress ≤ 99
    → Runs (wait n p) t n
unfolding wait pass due then_wait tick tick_all
wait-Runs zero p t e lt c b = record {
  asked = ground arith;
  on = c;
  bar = b;
  left = inl (ground arith);
}
wait-Runs (suc n) p t e lt c b =
    subst (λ q. Runs (then_wait n q) t (suc n)) (sym (ap (pass p) e))
      (elim (Bool-cases (leb t.steps (suc t.step))) [
        | inl last ↦ rw last (record {
          asked =
              ap (λ r. smart (strip_dev t.disk) ∷ r.1) (wait-idle n _ refl)
              ∙ sym (due-last t n last);
          on = ap (λ r. r.0.checking) (wait-idle n _ refl) ∙ c;
          bar = subst (λ r. r.0.progress ≤ 99) (sym (wait-idle n _ refl)) (min_le _);
          left = inr (ap (λ r. r.0.timers) (wait-idle n _ refl));
        })
        | inr more ↦ rw more (
            next_Runs t n _
              (wait-Runs n _ (record t { step = suc t.step }) refl (below t more) c (min_le _)))
      ])

-- What the panel shows of an answer.
pub Shows : Panel → String → Answer → Type 0
Shows p kind (found info) = (p.result ≡ some (info, kind)) × (p.progress ≡ 100)
Shows p kind (refused m) = p.err ≡ m

settle-Shows :
    (p : Panel) (kind : String) (answer : Answer)
    → ((settle p kind answer).checking ≡ false) × Shows (settle p kind answer) kind answer
unfolding settle Shows
settle-Shows p kind (found info) = (refl, (refl, refl))
settle-Shows p kind (refused m) = (refl, refl)

-- How many tenths of a second a check of this kind takes.
abbrev pub duration : String → ℕ
duration kind = if kind == "short" then 40 else 100

due-start :
    (t : Timer) (n : ℕ)
    → t.step ≡ 0
    → due t n ≡ (if leb t.steps n then smart (strip_dev t.disk) ∷ [] else [])
unfolding due
due-start t n e = ground arith

steps_pos : (kind : String) → 0 < steps_of kind
unfolding steps_of
steps_pos kind = ground arith

started : Panel → String → Timer
started p kind = record { step = 0; steps = steps_of kind; disk = p.sel; kind = kind }

started-Runs :
    (p : Panel) (kind : String) (n : ℕ)
    → (p.sel == "") ≡ false
    → p.timers ≡ []
    → Runs (wait n (run_check p kind)) (started p kind) n
unfolding run_check started
started-Runs p kind n chosen idle = rw chosen (
    wait-Runs n _ (started p kind) (ap (λ ts. ts ++ (started p kind ∷ [])) idle) (steps_pos kind)
      refl (omega arith))

-- The timer of a check has stopped once its time is over.
started-stopped :
    (p : Panel) (kind : String) (k : ℕ)
    → (p.sel == "") ≡ false
    → p.timers ≡ []
    → (wait (duration kind + k) (run_check p kind)).0.timers ≡ []
unfolding steps_of started
started-stopped p kind k chosen idle =
    elim (started-Runs p kind (duration kind + k) chosen idle).left [
      | inl more ↦ absurd (ground arith)
      | inr done ↦ done
    ]

settle-timers :
    (p : Panel) (kind : String) (answer : Answer) → (settle p kind answer).timers ≡ p.timers
unfolding settle
settle-timers p kind (found info) = refl
settle-timers p kind (refused m) = refl

asked_at :
    (p : Panel) (kind : String) (n : ℕ)
    → due (started p kind) n ≡ (if leb (duration kind) n then smart (strip_dev p.sel) ∷ [] else [])
unfolding started steps_of
asked_at p kind n = due-start _ n refl

-- A check of a disk, started on a panel with no check under way, ends. After its number of tenths of a
-- second, 40 for a short check and 100 for another, it has asked the server once, for the disk that
-- was chosen when it started, and before that not at all; it is under way with its bar at 99 percent
-- at most. The answer that comes any time later, a report or a refusal, ends it: from then on, however long one
-- waits, no more calls are made, the panel is free and shows the answer.
pub check-settles :
    (p : Panel) (kind : String) (n k m : ℕ) (answer : Answer)
    → (p.sel == "") ≡ false
    → p.timers ≡ []
    → ((wait n (run_check p kind)).1
        ≡ (if leb (duration kind) n then smart (strip_dev p.sel) ∷ [] else []))
      × ((wait n (run_check p kind)).0.checking ≡ true)
      × ((wait n (run_check p kind)).0.progress ≤ 99)
      × ((wait m (settle (wait (duration kind + k) (run_check p kind)).0 kind answer)).1 ≡ [])
      × ((wait m (settle (wait (duration kind + k) (run_check p kind)).0 kind answer)).0.checking
          ≡ false)
      × Shows
          (wait m (settle (wait (duration kind + k) (run_check p kind)).0 kind answer)).0
          kind
          answer
check-settles p kind n k m answer chosen idle =
    let r = started-Runs p kind n chosen idle in
    let asked = (wait (duration kind + k) (run_check p kind)).0 in
    let (ended, shown) = settle-Shows asked kind answer in
    let still =
      wait-idle m (settle asked kind answer)
        (settle-timers asked kind answer ∙ started-stopped p kind k chosen idle) in
    (
      r.asked ∙ asked_at p kind n,
      r.on,
      r.bar,
      ap (λ q. q.1) still,
      ap (λ q. q.0.checking) still ∙ ended,
      subst (λ q. Shows q.0 kind answer) (sym still) shown,
    )
