-- ===== src/Qbt/Picker.antt =====
-- The dialog that chooses a folder on the data volumes: `QbtFolderPicker` of nasweb/frontend/src/js/app.js. The
-- stack has its top first; a handler gives the new state and its calls. The call of `newFolder` is answered
-- at once, and a folder's path is not the one of the folder that it is in.
pub mod Listed
use ollozuna_nas.Prelude.{
  String, Bool, true, false, not, Option, none, some, List, [], ◌∷◌, ◌==◌, if◌then◌else◌,
}
use ollozuna_nas.Api.Endpoints.{Call, qbt_browse, qbt_make_dir}

pub record Folder : Type 0 where
  pub name : String
  pub path : String

-- `cur`, and what stands below it on the stack.
pub record Picker : Type 0 where
  pub cur : String
  pub rest : List String
  pub entries : Option (List Folder)
  pub err : String

-- `start ? start : ""`.
unfoldable pub opened : Option String → Picker
opened none = record { cur = ""; rest = []; entries = none; err = "" }
opened (some start) = record { cur = start; rest = []; entries = none; err = "" }

unfoldable pub load : Picker → Picker × List Call
load p = (record p { err = ""; entries = none }, qbt_browse p.cur ∷ [])

-- The answer to `qbtBrowse`.
unfoldable pub browsed : Picker → List Folder → Picker
browsed p folders = record p { entries = some folders }

unfoldable pub browse_failed : Picker → String → Picker
browse_failed p message = record p { err = message; entries = some [] }

unfoldable pub enter : Picker → Folder → Picker × List Call
unfolding load
enter p f = load (record p { cur = f.path; rest = p.cur ∷ p.rest })

-- The row for the folder above is there while the stack has more than one.
climb : Picker → List String → Picker × List Call
unfolding load
climb p [] = (p, [])
climb p (above ∷ rest) = load (record p { cur = above; rest = rest })

unfoldable pub up : Picker → Picker × List Call
unfolding climb
up p = climb p p.rest

-- `newFolder`, with the message for the list of volumes, the answer to its question, and the message of a
-- refusal of its call, or none.
made : Picker → Option String → Picker × List Call
unfolding load
made p none = load p
made p (some message) = (record p { err = message }, [])

named : Picker → Option String → Option String → Picker × List Call
unfolding made
named p none answer = (p, [])
named p (some name) answer =
    let r = made p answer in if name == "" then (p, []) else (r.0, qbt_make_dir p.cur name ∷ r.1)

unfoldable pub new_folder : String → Picker → Option String → Option String → Picker × List Call
unfolding named
new_folder hint p name answer =
    if p.cur == "" then (record p { err = hint }, []) else named p name answer

-- The button that chooses the folder is disabled on the list of volumes.
unfoldable pub selected : Picker → Option String
selected p = if p.cur == "" then none else some p.cur
