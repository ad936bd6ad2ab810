-- ===== src/Dlna/Tests.antt =====
-- Runs of the page of the media server.
use ollozuna_nas.Prelude.{none, some, [], ◌∷◌, ◌≡◌, refl}
use ollozuna_nas.Api.Endpoints.{list_media_dirs, remove_media_dir}
use ollozuna_nas.Dlna.{Dlna, initial, add, type_path, remove, blank}

abbrev typed : Dlna
typed = type_path initial "/srv/media"

-- Nothing is asked for an empty path, a success empties the form, and a refusal keeps it.
add_tests :
    ((add initial none).1 ≡ [])
    × ((add typed none).0.form ≡ blank)
    × ((add typed (some "no")).0.form.path ≡ "/srv/media")
    × ((add typed (some "no")).0.err ≡ "no")
    × ((remove typed "/a" none).1 ≡ remove_media_dir "/a" ∷ list_media_dirs ∷ [])
unfolding add type_path remove
add_tests = (refl, refl, refl, refl, refl)
