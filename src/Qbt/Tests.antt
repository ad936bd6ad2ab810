-- ===== src/Qbt/Tests.antt =====
-- Runs of the wizard, and its theorem at an input that meets its hypotheses.
use ollozuna_nas.Prelude.{ℕ, true, [], ◌∷◌, ◌≡◌, refl, arith}
use ollozuna_nas.Api.Endpoints.{qbt_configure}
use ollozuna_nas.Qbt.{
  Form, Verdict, given, initial, volumes_come, next, browse, picked, go_validate, validated,
  set_port, do_apply, can_next, can_validate, can_apply, form_json, set_dir,
}
use ollozuna_nas.Qbt.Reach.{
  World, beginning, at, asking, browsing, Reach, start, further, volumes, press_next,
  press_validate, judged, press_browse, pick, type_port, SameDirs,
}
use ollozuna_nas.Qbt.Invariant.{apply-judged}

-- A server that passes every form.
abbrev lenient : ℕ → Form → Verdict
lenient _ _ = record { ok = true; errors = []; warnings = [] }

abbrev third : World
third = at beginning (next (next (next (volumes_come initial (given ("/mnt/md0" ∷ []))))))

abbrev waiting : World
waiting = asking third

abbrev passed : World
passed = record waiting {
  wizard = validated waiting.wizard (given (lenient 0 third.wizard.form));
  asked = [];
}

abbrev summary : World
summary = at passed (set_port passed.wizard 0)

waiting-Reach : Reach lenient waiting
unfolding volumes_come next can_next can_validate
waiting-Reach =
    further
      (further
        (further
          (further (further start (volumes beginning refl refl (given ("/mnt/md0" ∷ []))))
            (press_next _ refl refl))
          (press_next _ refl refl))
        (press_next _ refl refl))
      (press_validate third refl refl)

summary-Reach : Reach lenient summary
unfolding volumes_come next go_validate validated
summary-Reach =
    further (further waiting-Reach (judged waiting [] third.wizard.form [] 0 refl))
      (type_port passed 0 refl refl)

can_apply-summary : can_apply summary.wizard ≡ true
unfolding can_apply set_port validated
can_apply-summary = refl

apply-judged_example :
    ((do_apply summary.wizard).1 ≡ qbt_configure (form_json summary.wizard.form))
    × ((time : ℕ) × ((f : Form) × ((lenient time f).ok ≡ true) × SameDirs f summary.wizard.form))
apply-judged_example = apply-judged lenient summary summary-Reach refl can_apply-summary

-- A directory that is chosen while the validation runs is applied unseen.
abbrev changed : World
changed = at (browsing waiting) (picked (browsing waiting).wizard "/mnt/md1")

abbrev unseen : World
unseen = record changed {
  wizard = validated changed.wizard (given (lenient 0 third.wizard.form));
  asked = [];
}

unseen-Reach : Reach lenient unseen
unfolding volumes_come next go_validate browse
unseen-Reach =
    further
      (further (further waiting-Reach (press_browse waiting refl (omega arith) (omega arith)))
        (pick (browsing waiting) _ "/mnt/md1" refl))
      (judged changed [] third.wizard.form [] 0 refl)

unseen_tests :
    (can_apply unseen.wizard ≡ true)
    × (unseen.wizard.form.downloads_dir ≡ "/mnt/md1")
    × (third.wizard.form.downloads_dir ≡ "/mnt/md0/qbittorrent/downloads")
unfolding can_apply validated picked set_dir browse go_validate next volumes_come
unseen_tests = (refl, refl, refl)
