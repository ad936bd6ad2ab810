-- ===== src/Files/Removal.antt =====
-- What the handlers of `FilesView` (nasweb/frontend/src/js/app.js) ask of the server.
use ollozuna_nas.Prelude.{
  String, true, false, ◌||◌, none, some, List, [], ◌∷◌, ◌++◌, map, ◌==◌, ◌≡◌, ◌≢◌, refl, ap, arith,
  eq_iff, Option-cases, inl, inr, ◌⊎◌,
}
use ollozuna_nas.Api.Endpoints.{list_files, rename_path, remove_path}
use ollozuna_nas.Files.{
  Entry, Files, Asked, call, Server, load, refused, attempt, rename, remove_all, after_removal,
  selected_paths, del_selected, del_paths,
}
use ollozuna_nas.Files.Paths.{join_path}
use ollozuna_nas.Files.Paths.Parents.{IsDirectory, IsName, parent_path-join_path}

abbrev pub removal : String → Asked
removal p = call (remove_path p)

-- The server lets all of these be removed.
abbrev pub Allowed : Server → List String → Type 0
Allowed server [] = Unit
Allowed server (p ∷ ps) = (server (removal p) ≡ none) × Allowed server ps

-- A run of removals that a refusal ended: what was removed before, and the path refused.
pub record Stopped (server : Server) (f : Files) (ps : List String) (r : Files × List Asked)
    : Type 0 where
  pub before : List String
  pub at : String
  pub after : List String
  pub message : String
  pub split : ps ≡ before ++ at ∷ after
  pub allowed : Allowed server before
  pub is_refused : server (removal at) ≡ some message
  pub asked : r.1 ≡ map removal (before ++ at ∷ [])
  pub shown : r.0 ≡ refused f message

-- A run of removals that went through: all of them, and then the list again.
pub record Finished (server : Server) (f : Files) (ps : List String) (r : Files × List Asked)
    : Type 0 where
  pub allowed : Allowed server ps
  pub asked : r.1 ≡ map removal ps ++ call (list_files f.path) ∷ []
  pub shown : r.0 ≡ (load f f.path).0

remove_all-cases :
    (server : Server) (f : Files) (ps : List String)
    → Finished server f ps (remove_all server f ps) ⊎ Stopped server f ps (remove_all server f ps)
unfolding remove_all after_removal load
remove_all-cases server f [] = inl (record { allowed = tt; asked = refl; shown = refl })
remove_all-cases server f (p ∷ ps) = elim (Option-cases (server (removal p))) [
  | inl e ↦ rw e (elim (remove_all-cases server f ps) [
    | inl d ↦
        inl
          (record { allowed = (e, d.allowed); asked = ap (removal p ∷◌) d.asked; shown = d.shown })
    | inr s ↦ inr (record {
      before = p ∷ s.before;
      at = s.at;
      after = s.after;
      message = s.message;
      split = ap (p ∷◌) s.split;
      allowed = (e, s.allowed);
      is_refused = s.is_refused;
      asked = ap (removal p ∷◌) s.asked;
      shown = s.shown;
    })
  ])
  | inr (m, e) ↦ rw e (
      inr (record {
        before = [];
        at = p;
        after = ps;
        message = m;
        split = refl;
        allowed = tt;
        is_refused = e;
        asked = refl;
        shown = refl;
      }))
]

-- The removal of the selection, once confirmed, either removes every selected path, in order, and
-- lists the directory again, or stops at the first path that the server refuses: every selected
-- path before it was removed, none behind it was asked for, and the message is shown. On a
-- refusal nothing else of the view changes, so it still lists and selects what was removed.
pub del_selected-cases :
    (server : Server) (f : Files)
    → selected_paths f.selected ≢ []
    → Finished server f (selected_paths f.selected) (del_selected server f true)
      ⊎ Stopped server f (selected_paths f.selected) (del_selected server f true)
unfolding del_selected del_paths
del_selected-cases server f h = confirmed_cases (selected_paths f.selected) h
  where
    confirmed_cases :
        (ps : List String)
        → ps ≢ []
        → Finished server f ps (del_paths server f true ps)
          ⊎ Stopped server f ps (del_paths server f true ps)
    confirmed_cases [] h = absurd (h refl)
    confirmed_cases (p ∷ ps) h = remove_all-cases server f (p ∷ ps)

-- The answer of the server to a single call decides what follows it.
attempt-first :
    (server : Server) (f : Files) (a : Asked)
    → (rest : List Asked) × ((attempt server f a).1 ≡ a ∷ rest)
unfolding attempt
attempt-first server f a = (_, refl)

-- A file stays in its directory when it is renamed, whatever the server answers: with a new name that
-- is neither empty nor the old one, the first call moves its path to the path of the new name in
-- the same directory.
pub rename-moves :
    (server : Server) (f : Files) (e : Entry) (base name : String)
    → IsDirectory base
    → IsName e.name
    → IsName name
    → name ≢ e.name
    → e.path ≡ join_path base e.name
    → (rest : List Asked) × ((rename server f e (some name)).1
        ≡ call (rename_path (join_path base e.name) (join_path base name)) ∷ rest)
unfolding rename
rename-moves server f e base name dir old new differs at =
    rw (asks name e.name new.0 differs, at, parent_path-join_path base e.name dir old)
      (attempt-first server f (call (rename_path (join_path base e.name) (join_path base name))))
  where
    asks : (n m : String) → n ≢ "" → n ≢ m → (n == "" || n == m) ≡ false
    asks n m h k = ground (arith, eq_iff n "", eq_iff n m)
