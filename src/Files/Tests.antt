-- ===== src/Files/Tests.antt =====
-- Runs of the file manager, and its theorems at inputs that meet their hypotheses.
use ollozuna_nas.Prelude.{
  true, false, none, some, [], ◌∷◌, ◌≡◌, ◌≢◌, refl, ◌⊎◌, inr, arith, eq_iff, split, ◌==◌,
  if◌then◌else◌,
}
use ollozuna_nas.Api.Endpoints.{remove_path}
use ollozuna_nas.Files.{Files, initial, call, Server, selected_paths, del_selected}
use ollozuna_nas.Files.Paths.{join_path, parent_path, segments, crumbs, ends_with_slash}
use ollozuna_nas.Files.Paths.Parents.{IsName, IsDirectory, parent_path-join_path}
use ollozuna_nas.Files.Removal.{Finished, Stopped, del_selected-cases}

path_tests :
    (join_path "/" "a" ≡ "/a")
    × (join_path "/m" "a" ≡ "/m/a")
    × (parent_path "/m/a/" ≡ "/m")
    × (parent_path "/a" ≡ "/")
    × (parent_path "" ≡ "/")
    × (crumbs "//m/a" ≡ "/m" ∷ "/m/a" ∷ [])
unfolding join_path parent_path crumbs segments split
path_tests = (refl, refl, refl, refl, refl, refl)

IsName-a : IsName "a"
IsName-a = (ground (arith, eq_iff "a" ""), refl)

media : IsDirectory "/m"
unfolding ends_with_slash
media = inr (ground (arith, eq_iff "/m" ""), refl)

parent_path-join_path_example : parent_path (join_path "/m" "a") ≡ "/m"
parent_path-join_path_example = parent_path-join_path "/m" "a" media IsName-a

-- A server that refuses every call but the removal of one path.
abbrev strict : Server
strict (call (remove_path p)) = if p == "/m/a" then none else some "forbidden"
strict _ = some "forbidden"

abbrev ticked : Files
ticked = record initial { selected = ("/m/a", true) ∷ ("/m/x", false) ∷ ("/m/b", true) ∷ [] }

ticked_some : selected_paths ticked.selected ≢ []
unfolding selected_paths
ticked_some e = cc

del_selected-cases_example :
    Finished strict ticked (selected_paths ticked.selected) (del_selected strict ticked true)
    ⊎ Stopped strict ticked (selected_paths ticked.selected) (del_selected strict ticked true)
del_selected-cases_example = del_selected-cases strict ticked ticked_some
