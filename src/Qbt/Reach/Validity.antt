-- ===== src/Qbt/Reach/Validity.antt =====
-- What holds of a wizard that was led anywhere, and what its buttons show of it (`QbtWizard`,
-- nasweb/frontend/src/js/app.js).
use ollozuna_nas.Prelude.{
  ℕ, suc, ◌-◌, ◌<◌, Bool, true, false, none, some, List, [], ◌∷◌, ◌++◌, All, ◌≡◌, refl, sym, ◌∙◌,
  arith, ◌⊎◌, inl, inr, if◌then◌else◌,
}
use mathlib.Core.Path.{subst}
use ollozuna_nas.Qbt.{
  Form, Field, Verdict, Wizard, has_volumes, can_back, can_next, can_validate, passes, can_apply,
}
use ollozuna_nas.Qbt.Reach.{World, beginning, at, runs, SameDirs, Judged, IsValid}

pub SameDirs-refl : (f : Form) → SameDirs f f
SameDirs-refl f = record { temps = refl; torfiles = refl; downloads = refl }

SameDirs-trans : (f g h : Form) → SameDirs f g → SameDirs g h → SameDirs f h
SameDirs-trans f g h s t = record {
  temps = s.temps ∙ t.temps;
  torfiles = s.torfiles ∙ t.torfiles;
  downloads = s.downloads ∙ t.downloads;
}

abbrev AllSame : Form → List Form → Type 0
AllSame g = All (λ (f : Form). SameDirs f g)

pub AllSame-none : (g : Form) (fs : List Form) → fs ≡ [] → AllSame g fs
AllSame-none g fs e = subst (AllSame g) (sym e) tt

AllSame-trans : (g h : Form) (fs : List Form) → SameDirs g h → AllSame g fs → AllSame h fs
AllSame-trans g h [] s a = tt
AllSame-trans g h (f ∷ fs) s (here, rest) =
    (SameDirs-trans f g h here s, AllSame-trans g h fs s rest)

-- A form taken out of the list.
AllSame-taken :
    (g : Form) (before : List Form) (f : Form) (after : List Form)
    → AllSame g (before ++ (f ∷ after))
    → SameDirs f g × AllSame g (before ++ after)
AllSame-taken g [] f after (here, rest) = (here, rest)
AllSame-taken g (b ∷ before) f after (here, rest) =
    let taken = AllSame-taken g before f after rest in (taken.0, (here, taken.1))

pub taken :
    {judge : ℕ → Form → Verdict} (x : World) (before : List Form) (f : Form) (after : List Form)
    → x.asked ≡ before ++ (f ∷ after)
    → IsValid judge x
    → SameDirs f x.wizard.form × AllSame x.wizard.form (before ++ after)
taken x before f after e v =
    AllSame-taken x.wizard.form before f after (subst (AllSame x.wizard.form) e v.same)

not_empty :
    {A : Type 0} (before : List Form) (f : Form) (after : List Form)
    → before ++ (f ∷ after) ≡ []
    → A
not_empty [] f after e = absurd (cc e)
not_empty (b ∷ before) f after e = absurd (cc e)

pub back-early : (w : Wizard) → can_back w ≡ true → (w.step - 1 < 4) × (w.step < 5)
unfolding can_back
back-early w h = (ground arith, ground arith)

pub next-early : (w : Wizard) → can_next w ≡ true → suc w.step < 4
unfolding can_next
next-early w h = ground arith

pub at_three : (w : Wizard) → can_validate w ≡ true → w.step ≡ 3
unfolding can_validate
at_three w h = ground arith

pub at_four : (w : Wizard) → can_apply w ≡ true → (w.step ≡ 4) × (passes w.val ≡ true)
unfolding can_apply
at_four w h = (ground arith, ground arith)

pub Judged-at :
    {judge : ℕ → Form → Verdict} (x : World)
    → IsValid judge x
    → x.wizard.step ≡ 4
    → Judged judge x.wizard
Judged-at x v e = elim v.verdict [ inl h ↦ absurd (omega (arith, h, e)) | inr j ↦ j ]

-- While a validation runs there are volumes, and no picker is open.
pub ready_for :
    {judge : ℕ → Form → Verdict} (x : World) (before : List Form) (f : Form) (after : List Form)
    → x.asked ≡ before ++ (f ∷ after)
    → IsValid judge x
    → (has_volumes x.wizard.vols ≡ true) × (x.wizard.picker ≡ none)
ready_for x before f after e v = (
  elim v.ready [ inl h ↦ h | inr (_, none_left) ↦ not_empty before f after (sym e ∙ none_left) ],
  elim v.picking [ inl h ↦ h | inr (_, none_left) ↦ not_empty before f after (sym e ∙ none_left) ],
)

-- A validation can be asked for on the fourth of the pages only, which needs volumes.
pub volumes_known :
    {judge : ℕ → Form → Verdict} (x : World) (n : ℕ)
    → IsValid judge x
    → x.wizard.step ≡ suc n
    → has_volumes x.wizard.vols ≡ true
volumes_known x n v e = elim v.ready [
  | inl h ↦ h
  | inr (zero_step, _) ↦ absurd (omega (arith, e, zero_step))
]

pub back-ready :
    {judge : ℕ → Form → Verdict} (x : World)
    → IsValid judge x
    → can_back x.wizard ≡ true
    → has_volumes x.wizard.vols ≡ true
unfolding can_back
back-ready x v h = elim v.ready [
  | inl k ↦ k
  | inr (zero_step, _) ↦
      absurd (let pos : 0 < x.wizard.step = ground arith in omega (arith, pos, zero_step))
]

pub next-ready : (w : Wizard) → can_next w ≡ true → has_volumes w.vols ≡ true
unfolding can_next
next-ready w h = ground arith

-- A change of the form that keeps the directories.
pub keeps :
    {judge : ℕ → Form → Verdict} (x : World) (g : Form)
    → IsValid judge x
    → x.wizard.step ≡ 4
    → SameDirs x.wizard.form g
    → IsValid judge (at x (record x.wizard { form = g }))
keeps x g v e s =
    let j = Judged-at x v e in
    record {
      ready = v.ready;
      verdict = inr (record {
        time = j.time;
        form = j.form;
        verdict = j.verdict;
        same = SameDirs-trans j.form x.wizard.form g j.same s;
      });
      picking = v.picking;
      same = AllSame-trans x.wizard.form g x.asked s v.same;
    }

-- What a step leaves of the verdict: the page, the form and the verdict itself are as they were.
pub still :
    {judge : ℕ → Form → Verdict} (u w : Wizard)
    → w.step ≡ u.step
    → w.form ≡ u.form
    → w.val ≡ u.val
    → (u.step < 4) ⊎ Judged judge u
    → (w.step < 4) ⊎ Judged judge w
still u w step form val (inl h) = inl (omega (arith, step, h))
still u w step form val (inr j) = inr (record {
  time = j.time;
  form = j.form;
  verdict = val ∙ j.verdict;
  same = subst (SameDirs j.form) (sym form) j.same;
})

pub initial-IsValid : (judge : ℕ → Form → Verdict) → IsValid judge beginning
initial-IsValid judge = record {
  ready = inr (refl, refl);
  verdict = inl (omega arith);
  picking = inl refl;
  same = tt;
}

-- A picker is open on a page for a directory, with no validation running.
pub picker_early :
    {judge : ℕ → Form → Verdict} (x : World) (k : Field)
    → x.wizard.picker ≡ some k
    → IsValid judge x
    → (x.wizard.step < 4) × (x.asked ≡ [])
picker_early x k e v = elim v.picking [ inl c ↦ absurd (cc (c, e)) | inr lt ↦ lt ]

-- With no volumes known yet, nothing is asked.
pub nothing_asked :
    {judge : ℕ → Form → Verdict} (x : World) → x.wizard.vols ≡ none → IsValid judge x → x.asked ≡ []
nothing_asked x e v = elim v.ready [ inl h ↦ absurd (cc (e, h)) | inr (_, empty) ↦ empty ]

pub runs_not :
    (fs : List Form) (b : Bool) → (if runs fs then true else b) ≡ false → (fs ≡ []) × (b ≡ false)
runs_not [] b h = (refl, h)
runs_not (f ∷ fs) b h = absurd (cc h)
