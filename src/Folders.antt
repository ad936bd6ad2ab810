-- ===== src/Folders.antt =====
-- The dialog that chooses a folder for a share or a mount point: `FolderPicker` of
-- nasweb/frontend/src/js/app.js, with `root` at its default. A handler gives the new state and its calls;
-- the call of `newFolder` is answered at once.
pub mod Walk
mod Tests
use ollozuna_nas.Prelude.{
  ℕ, String, Bool, true, false, Option, none, some, List, [], ◌∷◌, ◌==◌, if◌then◌else◌, ◌+++◌,
  filterb, has_char,
}
use ollozuna_nas.Api.Endpoints.{Call, list_files, make_dir}
use ollozuna_nas.Files.{Entry}
use ollozuna_nas.Files.Paths.{last_slash, prefix_of}

pub record Picker : Type 0 where
  pub rel : String
  pub entries : Option (List Entry)
  pub err : String

abbrev pub initial : Picker
initial = record { rel = ""; entries = none; err = "" }

abbrev pub root : String
root = "/srv"

-- `base ? base + "/" + name : name`.
unfoldable pub below : String → String → String
below base name = if base == "" then name else base +++ "/" +++ name

-- The path that is shown and chosen.
unfoldable pub abs : String → String
abs rel = root +++ (if rel == "" then "" else "/" +++ rel)

unfoldable pub load : Picker → String → Picker × List Call
load p r = (record p { err = ""; entries = none }, list_files r ∷ [])

-- The answer to `listFiles`, of which the folders are kept.
unfoldable pub listed : Picker → List Entry → Picker
listed p list = record p { entries = some (filterb (λ (e : Entry). e.is_dir) list) }

unfoldable pub list_failed : Picker → String → Picker
list_failed p message = record p { err = message; entries = some [] }

-- A change of the folder loads it.
unfoldable pub enter : Picker → String → Picker × List Call
unfolding below load
enter p name = let rel = below p.rel name in load (record p { rel = rel }) rel

slice_at : String → Option ℕ → String
unfolding prefix_of
slice_at rel none = ""
slice_at rel (some i) = prefix_of i rel

unfoldable pub up_of : String → String
unfolding slice_at last_slash
up_of rel = slice_at rel (last_slash rel)

unfoldable pub up : Picker → Picker × List Call
unfolding up_of load
up p = load (record p { rel = up_of p.rel }) (up_of p.rel)

-- `newFolder`, with the answer to its question and the message of a refusal of its call, or none.
made : Picker → Option String → Picker × List Call
unfolding load
made p none = load p p.rel
made p (some message) = (record p { err = message }, [])

unfoldable pub new_folder : Picker → Option String → Option String → Picker × List Call
unfolding made below
new_folder p none answer = (p, [])
new_folder p (some name) answer =
    let r = made p answer in
    if name == "" then (p, []) else (r.0, make_dir (below p.rel name) ∷ r.1)
