-- ===== src/Qbt.antt =====
-- The wizard that sets up qBittorrent: `QbtWizard` of nasweb/frontend/src/js/app.js. A handler that calls the
-- server is in two parts: up to its call, and what follows the answer, which comes at any time later.
pub mod Reach
pub mod Invariant
pub mod Picker
pub mod Page
mod Tests
use ollozuna_nas.Prelude.{
  ℕ, zero, suc, ◌-◌, String, Bool, true, false, not, ◌&&◌, Option, none, some, List, [], ◌∷◌, ◌==◌,
  eqb, ltb, if◌then◌else◌, ◌+++◌,
}
use ollozuna_nas.Json.{Json, num, str, obj, member, empty}
use ollozuna_nas.Api.Endpoints.{Call, qbt_configure, qbt_validate}

pub record Form : Type 0 where
  pub temp_dir : String
  pub torfile_dir : String
  pub downloads_dir : String
  pub perms_mode : String
  pub webui_port : ℕ

-- The key of a directory's field, which the folder picker is opened for.
pub data Field : Type 0 where
  temp torfile downloads : Field

pub record Verdict : Type 0 where
  pub ok : Bool
  pub errors : List String
  pub warnings : List String

-- What the server answers, or the message of a refusal.
pub data Answer {ℓ} (A : Type ℓ) : Type ℓ where
  given : A → Answer A
  refusal : String → Answer A

-- The steps of the result and the password of the web interface.
pub record Outcome : Type 0 where
  pub steps : List (String × Bool)
  pub webui_password : String

pub record Wizard : Type 0 where
  pub vols : Option (List String)
  pub step : ℕ
  pub form : Form
  pub picker : Option Field
  pub val : Option Verdict
  pub applying : Bool
  pub result : Option Outcome
  pub err : String

abbrev pub initial : Wizard
initial = record {
  vols = none;
  step = 0;
  form = record {
    temp_dir = "";
    torfile_dir = "";
    downloads_dir = "";
    perms_mode = "2770";
    webui_port = 8080;
  };
  picker = none;
  val = none;
  applying = false;
  result = none;
  err = "";
}

-- The directories that are proposed below a volume, where there is one.
propose : List String → Form → Form
propose [] f = f
propose (mount_point ∷ _) f =
    let base = mount_point +++ "/qbittorrent" in
    record f {
      temp_dir = base +++ "/temp";
      torfile_dir = base +++ "/torrents";
      downloads_dir = base +++ "/downloads";
    }

-- The answer to `qbtVolumes`: the mount points.
unfoldable pub volumes_come : Wizard → Answer (List String) → Wizard
unfolding propose
volumes_come w (given vs) = record w { vols = some vs; form = propose vs w.form }
volumes_come w (refusal m) = record w { err = m }

-- The buttons below the step that is shown, each with the condition for being there and enabled.
abbrev pub has_volumes : Option (List String) → Bool
has_volumes none = false
has_volumes (some []) = false
has_volumes (some (_ ∷ _)) = true

unfoldable pub can_back : Wizard → Bool
can_back w = ltb 0 w.step && ltb w.step 5

unfoldable pub can_next : Wizard → Bool
can_next w = ltb w.step 3 && has_volumes w.vols

unfoldable pub can_validate : Wizard → Bool
can_validate w = eqb w.step 3

-- `disabled=${val && !val.ok}`.
abbrev pub passes : Option Verdict → Bool
passes none = true
passes (some v) = v.ok

unfoldable pub can_apply : Wizard → Bool
can_apply w = eqb w.step 4 && passes w.val

unfoldable pub can_finish : Wizard → Bool
can_finish w = eqb w.step 5 && not w.applying

-- The cross in the corner, and a click beside the dialog.
unfoldable pub can_close : Wizard → Bool
can_close w = not w.applying

unfoldable pub back : Wizard → Wizard
back w = record w { step = w.step - 1 }

unfoldable pub next : Wizard → Wizard
next w = record w { step = suc w.step }

unfoldable pub form_json : Form → Json
form_json f = obj (
    member "temp_dir" (str f.temp_dir) (
      member "torfile_dir" (str f.torfile_dir) (
        member "downloads_dir" (str f.downloads_dir)
          (member "perms_mode" (str f.perms_mode) (member "webui_port" (num f.webui_port) empty)))))

-- `goValidate` up to its call, and what follows its answer. Nothing is locked meanwhile.
unfoldable pub go_validate : Wizard → Wizard × Call
unfolding form_json
go_validate w = (record w { err = "" }, qbt_validate (form_json w.form))

unfoldable pub validated : Wizard → Answer Verdict → Wizard
validated w (given v) = record w { val = some v; step = 4 }
validated w (refusal m) = record w { err = m }

-- `doApply` up to its call, and what follows its answer.
unfoldable pub do_apply : Wizard → Wizard × Call
unfolding form_json
do_apply w = (record w { applying = true; err = ""; step = 5 }, qbt_configure (form_json w.form))

unfoldable pub applied : Wizard → Answer Outcome → Wizard
applied w (given r) = record w { result = some r; applying = false }
applied w (refusal m) = record w { err = m; applying = false }

-- The folder picker of a step for a directory, and the two fields of the summary.
unfoldable pub set_dir : Field → String → Form → Form
set_dir temp p f = record f { temp_dir = p }
set_dir torfile p f = record f { torfile_dir = p }
set_dir downloads p f = record f { downloads_dir = p }

-- The button of a step for a directory.
field_of_step : ℕ → Option Field
field_of_step (suc zero) = some temp
field_of_step (suc (suc zero)) = some torfile
field_of_step (suc (suc (suc zero))) = some downloads
field_of_step _ = none

unfoldable pub browse : Wizard → Wizard
unfolding field_of_step
browse w = record w { picker = field_of_step w.step }

close_picker : Option Field → String → Form → Form
unfolding set_dir
close_picker none p f = f
close_picker (some k) p f = set_dir k p f

unfoldable pub picked : Wizard → String → Wizard
unfolding close_picker
picked w p = record w { form = close_picker w.picker p w.form; picker = none }

unfoldable pub cancel_pick : Wizard → Wizard
cancel_pick w = record w { picker = none }

unfoldable pub set_perms : Wizard → String → Wizard
set_perms w mode = record w { form = record w.form { perms_mode = mode } }

unfoldable pub set_port : Wizard → ℕ → Wizard
set_port w port = record w { form = record w.form { webui_port = port } }
