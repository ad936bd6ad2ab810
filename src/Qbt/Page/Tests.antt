-- ===== src/Qbt/Page/Tests.antt =====
-- Runs of the page of qBittorrent and of its dialog for folders, and their theorems there.
use ollozuna_nas.Prelude.{
  ℕ, zero, suc, String, true, false, Option, none, some, List, [], ◌∷◌, ◌==◌, if◌then◌else◌, ◌≡◌,
  refl,
}
use ollozuna_nas.Api.Endpoints.{qbt_stop}
use ollozuna_nas.Qbt.Picker.{Folder, Picker, opened, load, browsed, enter, new_folder, selected}
use ollozuna_nas.Qbt.Picker.Listed
use ollozuna_nas.Qbt.Picker.Listed.{
  IsListed, origin, inside, answers, enters, makes, Reach, begin, selected-IsListed,
}
use ollozuna_nas.Qbt.Page
use ollozuna_nas.Qbt.Page.{Status, state_of, stop, can_press, press}

abbrev volume : Folder
volume = record { name = "md0"; path = "/mnt/md0" }

-- A server with one volume and no folder.
abbrev movies : Folder
movies = record { name = "movies"; path = "/mnt/md0/movies" }

-- A server with an empty volume, on which a folder is made after the first listings.
abbrev serves : ℕ → String → List Folder
serves zero path = if path == "" then volume ∷ [] else []
serves (suc _) path =
    if path == "" then volume ∷ [] else if path == "/mnt/md0" then movies ∷ [] else []

abbrev first : Picker
first = browsed (load (opened none)).0 (serves 0 "")

first_Reach : Reach serves none first
unfolding opened
first_Reach = Listed.next begin (answers (load (opened none)).0 0 "" origin)

volume_shown : first.entries ≡ some (volume ∷ [])
unfolding browsed
volume_shown = refl

abbrev inside_volume : Picker
inside_volume = (enter first volume).0

abbrev renewed : Picker
renewed = (new_folder "first a volume" inside_volume (some "movies") none).0

abbrev listed_again : Picker
listed_again = browsed renewed (serves 1 "/mnt/md0")

listed_again_Reach : Reach serves none listed_again
unfolding opened
listed_again_Reach =
    Listed.next
      (Listed.next (Listed.next first_Reach (enters first (volume ∷ []) 0 volume volume_shown refl))
        (makes "first a volume" inside_volume (some "movies") none))
      (answers renewed 1 "/mnt/md0" (inside 0 "" 0 volume origin refl))

movies_shown : listed_again.entries ≡ some (movies ∷ [])
unfolding browsed
movies_shown = refl

movies_selected : selected (enter listed_again movies).0 ≡ some "/mnt/md0/movies"
unfolding selected enter load
movies_selected = refl

selected-IsListed_example :
    (("/mnt/md0/movies" == "") ≡ false) × IsListed serves none "/mnt/md0/movies"
selected-IsListed_example =
    selected-IsListed serves none (enter listed_again movies).0 "/mnt/md0/movies"
      (Listed.next listed_again_Reach
        (enters listed_again (movies ∷ []) 0 movies movies_shown refl))
      movies_selected

abbrev running : Option Status
running = some (record {
  state = "running";
  temp_dir = "/mnt/md0/t";
  torfile_dir = "/mnt/md0/f";
  downloads_dir = "/mnt/md0/d";
  webui_port = 8080;
})

stop_can : can_press true (state_of running) Page.initial stop ≡ true
unfolding can_press state_of
stop_can = refl

stop_call : (press Page.initial stop).1 ≡ some qbt_stop
unfolding press
stop_call = refl
