-- ===== src/Qbt/Invariant.antt =====
-- What the wizard applies (`QbtWizard`, nasweb/frontend/src/js/app.js).
use ollozuna_nas.Prelude.{ℕ, true, false, ◌≡◌, refl, arith, inl, inr}
use ollozuna_nas.Api.Endpoints.{qbt_configure}
use ollozuna_nas.Qbt.{
  Form, Verdict, given, refusal, volumes_come, can_apply, back, next, form_json, go_validate,
  validated, do_apply, applied, browse, picked, cancel_pick, set_perms, set_port,
}
use ollozuna_nas.Qbt.Reach.{
  World, Step, volumes, press_back, press_next, press_validate, judged, not_judged, press_apply,
  apply_end, press_browse, pick, cancel, choose_perms, type_port, Reach, start, further, SameDirs,
  IsValid,
}
use ollozuna_nas.Qbt.Reach.Validity.{
  SameDirs-refl, AllSame-none, taken, back-early, next-early, at_three, at_four, Judged-at,
  ready_for, volumes_known, back-ready, next-ready, keeps, still, initial-IsValid, picker_early,
  nothing_asked, runs_not,
}

Step-IsValid :
    {judge : ℕ → Form → Verdict} {x y : World}
    → Step judge x y
    → y.hasty ≡ false
    → IsValid judge x
    → IsValid judge y
unfolding volumes_come back next go_validate validated do_apply applied browse picked cancel_pick
    set_perms set_port
Step-IsValid (volumes x none_yet first (given vs)) calm v = record {
  ready = inr (first, nothing_asked x none_yet v);
  verdict = inl (omega (arith, first));
  picking = elim v.picking [ inl e ↦ inl e | inr p ↦ inr p ];
  same = AllSame-none (volumes_come x.wizard (given vs)).form x.asked (nothing_asked x none_yet v);
}
Step-IsValid (volumes x none_yet first (refusal m)) calm v = record {
  ready = v.ready;
  verdict = inl (omega (arith, first));
  picking = v.picking;
  same = v.same;
}
Step-IsValid (press_back x closed h) calm v = record {
  ready = inl (back-ready x v h);
  verdict = inl (back-early x.wizard h).0;
  picking = inl closed;
  same = v.same;
}
Step-IsValid (press_next x closed h) calm v = record {
  ready = inl (next-ready x.wizard h);
  verdict = inl (next-early x.wizard h);
  picking = inl closed;
  same = v.same;
}
Step-IsValid (press_validate x closed h) calm v = record {
  ready = inl (volumes_known x 2 v (at_three x.wizard h));
  verdict = inl (omega (arith, at_three x.wizard h));
  picking = inl closed;
  same = (SameDirs-refl x.wizard.form, v.same);
}
Step-IsValid (judged x before f after time e) calm v =
    let (here, rest) = taken x before f after e v in
    let (known, closed) = ready_for x before f after e v in
    record {
      ready = inl known;
      verdict = inr (record { time = time; form = f; verdict = refl; same = here });
      picking = inl closed;
      same = rest;
    }
Step-IsValid (not_judged x before f after m e) calm v =
    let (known, closed) = ready_for x before f after e v in
    record {
      ready = inl known;
      verdict = still x.wizard _ refl refl refl v.verdict;
      picking = inl closed;
      same = (taken x before f after e v).1;
    }
Step-IsValid (press_apply x closed h) calm v =
    let (four, _) = at_four x.wizard h in
    let j = Judged-at x v four in
    record {
      ready = inl (volumes_known x 3 v four);
      verdict = inr (record { time = j.time; form = j.form; verdict = j.verdict; same = j.same });
      picking = inl closed;
      same = v.same;
    }
Step-IsValid (apply_end x (given r) on) calm v = record {
  ready = v.ready;
  verdict = still x.wizard _ refl refl refl v.verdict;
  picking = v.picking;
  same = v.same;
}
Step-IsValid (apply_end x (refusal m) on) calm v = record {
  ready = v.ready;
  verdict = still x.wizard _ refl refl refl v.verdict;
  picking = v.picking;
  same = v.same;
}
Step-IsValid (press_browse x closed pos lt) calm v = record {
  ready = v.ready;
  verdict = inl lt;
  picking = inr (lt, (runs_not x.asked x.hasty calm).0);
  same = v.same;
}
Step-IsValid (pick x k p opened) calm v =
    let (lt, empty) = picker_early x k opened v in
    record {
      ready = v.ready;
      verdict = inl lt;
      picking = inl refl;
      same = AllSame-none (picked x.wizard p).form x.asked empty;
    }
Step-IsValid (cancel x) calm v = record {
  ready = v.ready;
  verdict = still x.wizard _ refl refl refl v.verdict;
  picking = inl refl;
  same = v.same;
}
Step-IsValid (choose_perms x mode closed e) calm v =
    keeps x _ v e (record { temps = refl; torfiles = refl; downloads = refl })
Step-IsValid (type_port x port closed e) calm v =
    keeps x _ v e (record { temps = refl; torfiles = refl; downloads = refl })

-- A run that was never hasty was not before, either.
Step-calm :
    {judge : ℕ → Form → Verdict} {x y : World} → Step judge x y → y.hasty ≡ false → x.hasty ≡ false
Step-calm (press_browse x closed pos lt) calm = (runs_not x.asked x.hasty calm).1
Step-calm (volumes _ _ _ _) calm = calm
Step-calm (press_back _ _ _) calm = calm
Step-calm (press_next _ _ _) calm = calm
Step-calm (press_validate _ _ _) calm = calm
Step-calm (judged _ _ _ _ _ _) calm = calm
Step-calm (not_judged _ _ _ _ _ _) calm = calm
Step-calm (press_apply _ _ _) calm = calm
Step-calm (apply_end _ _ _) calm = calm
Step-calm (pick _ _ _ _) calm = calm
Step-calm (cancel _) calm = calm
Step-calm (choose_perms _ _ _ _) calm = calm
Step-calm (type_port _ _ _ _) calm = calm

Reach-IsValid :
    {judge : ℕ → Form → Verdict} {x : World} → Reach judge x → x.hasty ≡ false → IsValid judge x
Reach-IsValid {judge} start calm = initial-IsValid judge
Reach-IsValid (further r s) calm = Step-IsValid s calm (Reach-IsValid r (Step-calm s calm))

-- Wherever the wizard was led without opening a folder picker while a validation was running, pressing the
-- button that applies sends the configuration in the form, and the server has passed, when it was
-- asked, a form with these three directories. The mode and the port may be others than those that it
-- passed.
pub apply-judged :
    (judge : ℕ → Form → Verdict) (x : World)
    → Reach judge x
    → x.hasty ≡ false
    → can_apply x.wizard ≡ true
    → ((do_apply x.wizard).1 ≡ qbt_configure (form_json x.wizard.form))
      × ((time : ℕ) × ((f : Form) × ((judge time f).ok ≡ true) × SameDirs f x.wizard.form))
unfolding do_apply
apply-judged judge x r calm h =
    let (four, passed) = at_four x.wizard h in
    let j = Judged-at x (Reach-IsValid r calm) four in
    (refl, (j.time, (j.form, rw j.verdict at passed, j.same)))
