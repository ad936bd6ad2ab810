-- ===== src/Dlna.antt =====
-- The page of the media server: `DlnaView` with `MediaLibrary`, of nasweb/frontend/src/js/app.js. A handler that
-- awaits a call is given the message of its refusal or none, and gives the new state and its calls.
mod Tests
use ollozuna_nas.Prelude.{
  ℕ, String, Bool, true, false, Option, none, some, List, [], ◌∷◌, ◌==◌, if◌then◌else◌, length,
}
use ollozuna_nas.Json.{Json, str, obj, member, empty}
use ollozuna_nas.Api.Endpoints.{
  Call, list_media_dirs, list_media_files, add_media_dir, remove_media_dir, dlna_rescan,
}

-- A media folder, and the form for one.
pub record MediaDir : Type 0 where
  pub path : String
  pub type : String

-- The page; `msg` is whether the note that the catalogue is built again is shown.
pub record Dlna : Type 0 where
  pub dirs : Option (List MediaDir)
  pub err : String
  pub msg : Bool
  pub form : MediaDir
  pub picker : Bool

abbrev pub blank : MediaDir
blank = record { path = ""; type = "" }

abbrev pub initial : Dlna
initial = record { dirs = none; err = ""; msg = false; form = blank; picker = false }

abbrev load_calls : List Call
load_calls = list_media_dirs ∷ []

-- The answer to `listMediaDirs`.
unfoldable pub dirs_come : Dlna → List MediaDir → Dlna
dirs_come d dirs = record d { dirs = some dirs }

unfoldable pub dirs_failed : Dlna → String → Dlna
dirs_failed d message = record d { err = message }

dir_json : MediaDir → Json
dir_json m = obj (member "path" (str m.path) (member "type" (str m.type) empty))

added : Dlna → Option String → Dlna × List Call
added d none = (record d { form = blank }, load_calls)
added d (some message) = (record d { err = message }, [])

unfoldable pub add : Dlna → Option String → Dlna × List Call
unfolding added dir_json
add d answer =
    let e : Dlna = record d { err = "" } in
    let r = added e answer in
    if d.form.path == "" then (e, []) else (r.0, add_media_dir (dir_json d.form) ∷ r.1)

removed : Dlna → Option String → Dlna × List Call
removed d none = (d, load_calls)
removed d (some message) = (record d { err = message }, [])

unfoldable pub remove : Dlna → String → Option String → Dlna × List Call
unfolding removed
remove d path answer = let r = removed d answer in (r.0, remove_media_dir path ∷ r.1)

rescanned : Dlna → Option String → Dlna
rescanned d none = record d { msg = true }
rescanned d (some message) = record d { err = message }

unfoldable pub rescan : Dlna → Option String → Dlna × List Call
unfolding rescanned
rescan d answer = (rescanned (record d { err = ""; msg = false }) answer, dlna_rescan ∷ [])

unfoldable pub type_path : Dlna → String → Dlna
type_path d v = record d { form = record d.form { path = v } }

unfoldable pub choose_type : Dlna → String → Dlna
choose_type d v = record d { form = record d.form { type = v } }

unfoldable pub set_picker : Dlna → Bool → Dlna
set_picker d shown = record d { picker = shown }

unfoldable pub picked : Dlna → String → Dlna
picked d v = record d { form = record d.form { path = v }; picker = false }

-- `MediaLibrary`: the files of the three categories, and the one that is shown.
pub record MediaFile : Type 0 where
  pub name : String
  pub size : ℕ
  pub path : String

pub record MediaFiles : Type 0 where
  pub video : List MediaFile
  pub pictures : List MediaFile
  pub audio : List MediaFile

pub data Tab : Type 0 where
  video_tab pictures_tab audio_tab : Tab

pub record Library : Type 0 where
  pub files : Option MediaFiles
  pub tab : Tab
  pub err : String

abbrev pub initial_library : Library
initial_library = record { files = none; tab = video_tab; err = "" }

unfoldable pub load_library : Library → Library × List Call
load_library l = (record l { err = "" }, list_media_files ∷ [])

-- The answer to `listMediaFiles`; none is a value that counts as false.
unfoldable pub files_come : Library → Option MediaFiles → Library
files_come l none = record l { files = some (record { video = []; pictures = []; audio = [] }) }
files_come l (some files) = record l { files = some files }

unfoldable pub files_failed : Library → String → Library
files_failed l message = record l { err = message }

files_of : MediaFiles → Tab → List MediaFile
files_of f video_tab = f.video
files_of f pictures_tab = f.pictures
files_of f audio_tab = f.audio

unfoldable pub shown : Option MediaFiles → Tab → List MediaFile
unfolding files_of
shown none tab = []
shown (some f) tab = files_of f tab

unfoldable pub set_tab : Library → Tab → Library
set_tab l tab = record l { tab = tab }

-- The number on a tab, once the files are there.
unfoldable pub count : Option MediaFiles → Tab → Option ℕ
unfolding files_of
count none tab = none
count (some f) tab = some (length (files_of f tab))
