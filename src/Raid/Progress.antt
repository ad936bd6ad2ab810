-- ===== src/Raid/Progress.antt =====
-- The timers of `startProgress` (nasweb/frontend/src/js/app.js) run out.
use ollozuna_nas.Prelude.{
  ℕ, zero, suc, ◌+◌, ◌-◌, ◌⊎◌, inl, inr, ◌≤◌, ◌<◌, Bool, true, false, Option, none, some, List, [],
  leb, min, ◌≡◌, refl, sym, ◌∙◌, ap, arith, lookup, lookup-put, lookup-remove, eq_refl, holds_from,
  test_of_holds_from,
}
use mathlib.Core.Path.{subst}
use native.Mathlib.Nat.{le_trans, le_of_eq}
use ollozuna_nas.Number.{round_percent}
use ollozuna_nas.Api.Endpoints.{Call}
use ollozuna_nas.Raid.Page.{Page, Timer, tick, load, load_calls, status_of, show_status, finish}

-- A live timer goes on.
resume :
    (Page → Timer → Page × Option Timer × List Call)
    → Page × Option Timer × List Call
    → Page × Option Timer × List Call
resume go (q, none, calls) = (q, none, calls)
resume go (q, some u, _) = go q u

-- The ticks of one timer, as long as it lives.
pub ticks : ℕ → Page → Timer → Page × Option Timer × List Call
unfolding resume
ticks zero p t = (p, some t, [])
ticks (suc n) p t = resume (ticks n) (tick p t)

abbrev next : Timer → Timer
next t = record t { step = suc t.step }

leb-le : (a b : ℕ) → leb a b ≡ true → a ≤ b
leb-le a b h = ground arith

lt-leb : (a b : ℕ) → b < a → leb a b ≡ false
lt-leb a b h = ground arith

eq-leb : (a b : ℕ) → b ≡ a → leb a b ≡ true
eq-leb a b h = ground arith

tick_before :
    (p : Page) (t : Timer)
    → suc t.step < t.total
    → tick p t ≡ (show_status p (next t), some (next t), [])
unfolding tick
tick_before p t h = rw (lt-leb t.total (suc t.step) h)

tick_last :
    (p : Page) (t : Timer)
    → suc t.step ≡ t.total
    → tick p t ≡ (
      (finish (show_status p (next t)) (next t)).0,
      none,
      (finish (show_status p (next t)) (next t)).1,
    )
unfolding tick
tick_last p t h = rw (eq-leb t.total (suc t.step) h)

-- The last tick of a timer, wherever it stood before.
abbrev pub Ends : Page → Timer → Page × Option Timer × List Call → Type 0
Ends p t r =
    (r.1 ≡ none)
    × (r.2 ≡ load_calls)
    × (lookup t.device r.0.status_map ≡ none)
    × (r.0.failed_map ≡ p.failed_map)
    × (r.0.added_disks_map ≡ p.added_disks_map)
    × (r.0.modal ≡ p.modal)

finish-Ends : (p : Page) (t : Timer) → suc t.step ≡ t.total → Ends p t (tick p t)
unfolding finish load show_status
finish-Ends p t h =
    rw (tick_last p t h) (refl, refl, rw (lookup-remove, eq_refl) refl, refl, refl, refl)

ticks-Ends :
    (k : ℕ) (p : Page) (t : Timer) → t.step + suc k ≡ t.total → Ends p t (ticks (suc k) p t)
unfolding ticks show_status
ticks-Ends zero p t h =
    subst (λ r. Ends p t (resume (ticks 0) r)) (sym (tick_last p t (omega arith)))
      (subst (Ends p t) (tick_last p t (omega arith)) (finish-Ends p t (omega arith)))
ticks-Ends (suc k) p t h =
    subst (λ r. Ends p t (resume (ticks (suc k)) r)) (sym (tick_before p t (omega arith)))
      (ticks-Ends k (show_status p (next t)) (next t) (omega arith))

ticks-lives :
    (k : ℕ) (p : Page) (t : Timer)
    → t.step + k < t.total
    → (ticks k p t).1 ≡ some (record t { step = t.step + k })
unfolding ticks
ticks-lives zero p t h = ap (λ (n : ℕ). some (record t { step = n })) (omega arith)
ticks-lives (suc k) p t h =
    subst (λ r. (resume (ticks k) r).1 ≡ some (record t { step = t.step + suc k }))
      (sym (tick_before p t (omega arith)))
      (ticks-lives k (show_status p (next t)) (next t) (omega arith)
        ∙ ap (λ (n : ℕ). some (record t { step = n })) (omega arith))

shows_self :
    (p : Page) (t : Timer) → lookup t.device (show_status p t).status_map ≡ some (status_of t)
unfolding show_status
shows_self p t = rw (lookup-put, eq_refl) refl

status_of-le : (t : Timer) → (status_of t).progress ≤ 99
unfolding status_of
status_of-le t = omega arith

ticks-shows :
    (k : ℕ) (p : Page) (t : Timer)
    → t.step + suc k < t.total
    → lookup t.device (ticks (suc k) p t).0.status_map
      ≡ some (status_of (record t { step = t.step + suc k }))
unfolding ticks
ticks-shows zero p t h =
    subst
      (λ r.
        lookup t.device (resume (ticks 0) r).0.status_map
        ≡ some (status_of (record t { step = t.step + 1 })))
      (sym (tick_before p t (omega arith)))
      (shows_self p (next t)
        ∙ ap (λ (n : ℕ). some (status_of (record t { step = n }))) (omega arith))
ticks-shows (suc k) p t h =
    subst
      (λ r.
        lookup t.device (resume (ticks (suc k)) r).0.status_map
        ≡ some (status_of (record t { step = t.step + suc (suc k) })))
      (sym (tick_before p t (omega arith)))
      (ticks-shows k (show_status p (next t)) (next t) (omega arith)
        ∙ ap (λ (n : ℕ). some (status_of (record t { step = n }))) (omega arith))

-- A timer that was just started lives for all its ticks but the last: after fewer ticks it shows
-- its phase with the percentage of the ticks that are over, at most 99.
pub timer_runs :
    (p : Page) (t : Timer) (k : ℕ)
    → t.step ≡ 0
    → suc k < t.total
    → ((ticks (suc k) p t).1 ≡ some (record t { step = suc k }))
      × (lookup t.device (ticks (suc k) p t).0.status_map
          ≡ some (status_of (record t { step = suc k })))
      × ((status_of (record t { step = suc k })).progress ≤ 99)
timer_runs p t k z h = (
  ticks-lives (suc k) p t (omega arith)
      ∙ ap (λ (n : ℕ). some (record t { step = n })) (omega arith),
  ticks-shows k p t (omega arith)
      ∙ ap (λ (n : ℕ). some (status_of (record t { step = n }))) (omega arith),
  status_of-le _,
)

-- A timer that was just started is over after its total of ticks: the last tick takes the status
-- of its array away and loads the page, and the disks marked and added and the open dialog are as
-- they were.
pub timer-Ends : (p : Page) (t : Timer) → t.step ≡ 0 → 0 < t.total → Ends p t (ticks t.total p t)
timer-Ends p t z pos = ends t.total refl
  where
    ends : (n : ℕ) → n ≡ t.total → Ends p t (ticks n p t)
    ends zero e = absurd (omega arith)
    ends (suc k) e = ticks-Ends k p t (omega arith)

grows : ℕ → ℕ → Bool
grows total i = leb (round_percent i total) (round_percent (suc i) total)

grows_table : (holds_from (grows 25) 0 26 ≡ true) × (holds_from (grows 40) 0 41 ≡ true)
unfolding holds_from grows round_percent
grows_table = (refl, refl)

grows-le :
    (total i : ℕ) → grows total i ≡ true → round_percent i total ≤ round_percent (suc i) total
unfolding grows
grows-le total i h = leb-le _ _ h

percent_mono :
    (total i k : ℕ)
    → holds_from (grows total) 0 (suc total) ≡ true
    → i + k ≤ total
    → round_percent i total ≤ round_percent (i + k) total
percent_mono total i zero h le = le_of_eq (ap (λ (n : ℕ). round_percent n total) (omega arith))
percent_mono total i (suc k) h le =
    let step =
      grows-le total i
        (test_of_holds_from (grows total) 0 (suc total) i h (omega arith) (omega arith)) in
    let rest = percent_mono total (suc i) k h (omega arith) in
    le_trans step (le_trans rest (le_of_eq (ap (λ (n : ℕ). round_percent n total) (omega arith))))

-- The percentages of an expansion (25 ticks) and of a rebuild (40 ticks) never fall from one tick
-- to a later one, although a few are rounded in the wrong direction.
pub progress_mono :
    (total i j : ℕ)
    → (total ≡ 25) ⊎ (total ≡ 40)
    → i ≤ j
    → j ≤ total
    → min 99 (round_percent i total) ≤ min 99 (round_percent j total)
progress_mono total i j c le h =
    let table : holds_from (grows total) 0 (suc total) ≡ true = elim c [
      | inl e ↦ rw e grows_table.0
      | inr e ↦ rw e grows_table.1
    ] in
    let same : round_percent (i + (j - i)) total ≡ round_percent j total =
      ap (λ (n : ℕ). round_percent n total) (omega arith) in
    omega (arith, percent_mono total i (j - i) table (omega arith), same)
