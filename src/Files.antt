-- ===== src/Files.antt =====
-- The file manager: `FilesView` of nasweb/frontend/src/js/app.js. A handler gives the new state and what it
-- asks of the server, in order. An awaited call is asked of `Server`, which answers with the
-- message of a refusal.
pub mod Paths
pub mod Removal
mod Tests
use ollozuna_nas.Prelude.{
  ℕ, String, Bool, true, false, Option, none, some, List, [], ◌∷◌, ◌==◌, ◌||◌, if◌then◌else◌, put,
}
use ollozuna_nas.Api.Endpoints.{
  Call, list_files, make_dir, rename_path, chmod as chmod_call, remove_path,
}
use ollozuna_nas.Files.Paths.{join_path, parent_path}

pub record Entry : Type 0 where
  pub name : String
  pub path : String
  pub mode : String
  pub is_dir : Bool

pub record Files : Type 0 where
  pub path : String
  pub entries : Option (List Entry)
  pub err : String
  pub selected : List (String × Bool)
  pub progress : Option (String × ℕ)
  pub dragging : Bool

abbrev pub initial : Files
initial = record {
  path = "/";
  entries = none;
  err = "";
  selected = [];
  progress = none;
  dragging = false;
}

-- A call of the API, or an upload of files into a directory.
pub data Asked : Type 0 where
  call : Call → Asked
  upload : String → List String → Asked

abbrev pub Server : Type 0
Server = Asked → Option String

unfoldable pub load : Files → String → Files × List Asked
load f p = (record f { selected = [] }, call (list_files p) ∷ [])

-- What the answer to `listFiles` brings; `none` is a value that counts as false.
abbrev entries_or_empty : Option (List Entry) → List Entry
entries_or_empty none = []
entries_or_empty (some es) = es

unfoldable pub listed : Files → Option (List Entry) → Files
listed f es = record f { entries = some (entries_or_empty es) }

unfoldable pub refused : Files → String → Files
refused f message = record f { err = message }

-- `setPath`, and the effect that runs when the path changes.
unfoldable pub navigate : Files → String → Files × List Asked
unfolding load
navigate f p = if p == f.path then (f, []) else load (record f { path = p; err = "" }) p

-- The event `file.progress`: whether it is over, the file, and the bytes so far, 0 where they are missing.
unfoldable pub on_event : Files → String → Bool → String → ℕ → Files
on_event f kind done name bytes =
    if kind == "file.progress"
    then (if done then record f { progress = none } else record f { progress = some (name, bytes) })
    else f

-- The checkbox of an entry.
unfoldable pub check : Files → Entry → Bool → Files
check f e checked = record f { selected = put e.path checked f.selected }

-- `try { await …; load(path); } catch (e) { setErr(e.message); }`.
attempt_end : Files → Option String → Files × List Asked
unfolding load refused
attempt_end f none = load f f.path
attempt_end f (some message) = (refused f message, [])

unfoldable pub attempt : Server → Files → Asked → Files × List Asked
unfolding attempt_end
attempt server f a = ((attempt_end f (server a)).0, a ∷ (attempt_end f (server a)).1)

-- What a prompt gives: `none` where it is cancelled.
unfoldable pub mkdir : Server → Files → Option String → Files × List Asked
unfolding attempt
mkdir server f none = (f, [])
mkdir server f (some name) =
    if name == "" then (f, []) else attempt server f (call (make_dir (join_path f.path name)))

unfoldable pub rename : Server → Files → Entry → Option String → Files × List Asked
unfolding attempt
rename server f e none = (f, [])
rename server f e (some name) =
    if name == "" || name == e.name
    then (f, [])
    else attempt server f (call (rename_path e.path (join_path (parent_path e.path) name)))

unfoldable pub chmod : Server → Files → Entry → Option String → Files × List Asked
unfolding attempt
chmod server f e none = (f, [])
chmod server f e (some mode) =
    if mode == "" then (f, []) else attempt server f (call (chmod_call e.path mode))

unfoldable pub del_one : Server → Files → Entry → Bool → Files × List Asked
unfolding attempt
del_one server f e confirmed =
    if confirmed then attempt server f (call (remove_path e.path)) else (f, [])

-- `Object.keys(selected).filter((k) => selected[k])`.
unfoldable pub selected_paths : List (String × Bool) → List String
selected_paths [] = []
selected_paths ((p, true) ∷ m) = p ∷ selected_paths m
selected_paths ((p, false) ∷ m) = selected_paths m

-- The loop: one removal after another, up to the first refusal; and then the list again.
after_removal : Files → Call → Files × List Asked → Option String → Files × List Asked
unfolding refused
after_removal f c rest none = (rest.0, call c ∷ rest.1)
after_removal f c rest (some message) = (refused f message, call c ∷ [])

unfoldable pub remove_all : Server → Files → List String → Files × List Asked
unfolding load after_removal
remove_all server f [] = load f f.path
remove_all server f (p ∷ ps) =
    after_removal f (remove_path p) (remove_all server f ps) (server (call (remove_path p)))

unfoldable pub del_paths : Server → Files → Bool → List String → Files × List Asked
unfolding remove_all
del_paths server f confirmed [] = (f, [])
del_paths server f confirmed (p ∷ ps) = if confirmed then remove_all server f (p ∷ ps) else (f, [])

unfoldable pub del_selected : Server → Files → Bool → Files × List Asked
unfolding del_paths selected_paths
del_selected server f confirmed = del_paths server f confirmed (selected_paths f.selected)

-- `doUpload`: the progress is taken away whether or not the upload succeeds.
uploaded : Files → Option String → Files × List Asked
unfolding load
uploaded f none = load (record f { progress = none }) f.path
uploaded f (some message) = (record f { err = message; progress = none }, [])

unfoldable pub do_upload : Server → Files → List String → Files × List Asked
unfolding uploaded
do_upload server f [] = (f, [])
do_upload server f (n ∷ ns) =
    let g : Files = record f { err = "" } in
    let r = uploaded g (server (upload f.path (n ∷ ns))) in (r.0, upload f.path (n ∷ ns) ∷ r.1)

-- Files are dragged over the list or away from it, and dropped.
unfoldable pub drag : Files → Bool → Files
drag f over = record f { dragging = over }

unfoldable pub on_drop : Server → Files → List String → Files × List Asked
unfolding do_upload drag
on_drop server f names = do_upload server (drag f false) names
