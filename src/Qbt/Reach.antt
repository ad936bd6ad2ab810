-- ===== src/Qbt/Reach.antt =====
-- What a user of the wizard can reach, and what it applies (`QbtWizard`, nasweb/frontend/src/js/app.js).
pub mod Validity
use ollozuna_nas.Prelude.{
  ℕ, ◌<◌, String, Bool, true, false, none, some, List, [], ◌∷◌, ◌++◌, All, if◌then◌else◌, ◌≡◌, ◌⊎◌,
}
use ollozuna_nas.Qbt.{
  Form, Field, Verdict, Answer, given, refusal, Outcome, Wizard, initial, volumes_come, has_volumes,
  can_back, can_next, can_validate, can_apply, back, next, go_validate, validated, do_apply,
  applied, browse, picked, cancel_pick, set_perms, set_port,
}

-- The wizard, the forms whose validation has no answer yet, and whether a folder picker was ever
-- opened while there were any.
pub record World : Type 0 where
  pub wizard : Wizard
  pub asked : List Form
  pub hasty : Bool

abbrev pub beginning : World
beginning = record { wizard = initial; asked = []; hasty = false }

abbrev pub at : World → Wizard → World
at x w = record x { wizard = w }

abbrev pub runs : List Form → Bool
runs [] = false
runs (_ ∷ _) = true

abbrev pub browsing : World → World
browsing x = record x { wizard = browse x.wizard; hasty = if runs x.asked then true else x.hasty }

abbrev pub asking : World → World
asking x = record x { wizard = (go_validate x.wizard).0; asked = x.wizard.form ∷ x.asked }

-- What happens to the wizard, for a server that judges a form in this way at each time; validations
-- are answered in any order. The folder picker lies over the dialog: as long as it is open, nothing but its
-- own buttons can be pressed.
pub data Step (judge : ℕ → Form → Verdict) : World → World → Type 0 where
  volumes :
      (x : World)
      → x.wizard.vols ≡ none
      → x.wizard.step ≡ 0
      → (a : Answer (List String)) → Step judge x (at x (volumes_come x.wizard a))
  press_back :
      (x : World)
      → x.wizard.picker ≡ none
      → can_back x.wizard ≡ true
      → Step judge x (at x (back x.wizard))
  press_next :
      (x : World)
      → x.wizard.picker ≡ none
      → can_next x.wizard ≡ true
      → Step judge x (at x (next x.wizard))
  press_validate :
      (x : World) → x.wizard.picker ≡ none → can_validate x.wizard ≡ true → Step judge x (asking x)
  judged :
      (x : World) (before : List Form) (f : Form) (after : List Form) (time : ℕ)
      → x.asked ≡ before ++ (f ∷ after)
      → Step judge x
          (record x { wizard = validated x.wizard (given (judge time f)); asked = before ++ after })
  not_judged :
      (x : World) (before : List Form) (f : Form) (after : List Form) (m : String)
      → x.asked ≡ before ++ (f ∷ after)
      → Step judge x (record x { wizard = validated x.wizard (refusal m); asked = before ++ after })
  press_apply :
      (x : World)
      → x.wizard.picker ≡ none
      → can_apply x.wizard ≡ true
      → Step judge x (at x (do_apply x.wizard).0)
  apply_end :
      (x : World) (a : Answer Outcome)
      → x.wizard.applying ≡ true
      → Step judge x (at x (applied x.wizard a))
  press_browse :
      (x : World)
      → x.wizard.picker ≡ none
      → 0 < x.wizard.step
      → x.wizard.step < 4
      → Step judge x (browsing x)
  pick :
      (x : World) (k : Field) (p : String)
      → x.wizard.picker ≡ some k
      → Step judge x (at x (picked x.wizard p))
  cancel : (x : World) → Step judge x (at x (cancel_pick x.wizard))
  choose_perms :
      (x : World) (mode : String)
      → x.wizard.picker ≡ none
      → x.wizard.step ≡ 4
      → Step judge x (at x (set_perms x.wizard mode))
  type_port :
      (x : World) (port : ℕ)
      → x.wizard.picker ≡ none
      → x.wizard.step ≡ 4
      → Step judge x (at x (set_port x.wizard port))

pub data Reach (judge : ℕ → Form → Verdict) : World → Type 0 where
  start : Reach judge beginning
  further : {x y : World} → Reach judge x → Step judge x y → Reach judge y

-- The two forms name the same three directories.
pub record SameDirs (f g : Form) : Type 0 where
  pub temps : f.temp_dir ≡ g.temp_dir
  pub torfiles : f.torfile_dir ≡ g.torfile_dir
  pub downloads : f.downloads_dir ≡ g.downloads_dir

-- The verdict at hand is the server's, on a form with the directories of this one.
pub record Judged (judge : ℕ → Form → Verdict) (w : Wizard) : Type 0 where
  pub time : ℕ
  pub form : Form
  pub verdict : w.val ≡ some (judge time form)
  pub same : SameDirs form w.form

pub record IsValid (judge : ℕ → Form → Verdict) (x : World) : Type 0 where
  pub ready : (has_volumes x.wizard.vols ≡ true) ⊎ ((x.wizard.step ≡ 0) × (x.asked ≡ []))
  pub verdict : (x.wizard.step < 4) ⊎ Judged judge x.wizard
  pub picking : (x.wizard.picker ≡ none) ⊎ ((x.wizard.step < 4) × (x.asked ≡ []))
  pub same : All (λ (f : Form). SameDirs f x.wizard.form) x.asked
