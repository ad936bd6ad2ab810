-- ===== src/Folders/Tests.antt =====
-- Runs of the dialog that chooses a folder, and its theorem at inputs that meet its hypotheses.
use ollozuna_nas.Prelude.{none, some, [], ◌∷◌, ◌+++◌, ◌≡◌, refl}
use ollozuna_nas.Api.Endpoints.{make_dir, list_files}
use ollozuna_nas.Folders.{Picker, initial, abs, enter, up, new_folder, load, below}
use ollozuna_nas.Folders.Walk.{enter-up}

abbrev media : Picker
media = (enter initial "media").0

walk_tests :
    (abs initial.rel ≡ "/srv")
    × ((new_folder media (some "x") (some "no")).1 ≡ make_dir "media/x" ∷ [])
    × ((new_folder media (some "x") none).1 ≡ make_dir "media/x" ∷ list_files "media" ∷ [])
unfolding abs new_folder enter load below
walk_tests = (refl, refl, refl)

enter-up_example :
    (abs (enter media "films").0.rel ≡ abs media.rel +++ "/" +++ "films")
    × ((up (enter media "films").0).0.rel ≡ media.rel)
enter-up_example = enter-up media "films" refl refl
