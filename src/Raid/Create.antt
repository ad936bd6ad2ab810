-- ===== src/Raid/Create.antt =====
-- The form for a new array: `CreateArrayModal` of nasweb/frontend/src/js/app.js.
pub mod Reach
use ollozuna_nas.Prelude.{
  ℕ, String, Bool, true, false, ◌&&◌, ◌||◌, not, Option, none, some, List, [], ◌∷◌, ◌++◌, map, ◌==◌,
  eqb, ltb, if◌then◌else◌, ◌+++◌, includes, length, filterb,
}
use ollozuna_nas.Json.{Json, bool, str, arr, obj, nil, cons, empty, member, Items}
use ollozuna_nas.Api.Endpoints.{Call, create_array, strip_dev}
use ollozuna_nas.Raid.{Disk}
use ollozuna_nas.Raid.Capacity.{calc_raid_capacity, min_size, members}

pub record Form : Type 0 where
  pub selected : List String
  pub level : String
  pub name : String
  pub err : String

abbrev pub new : Form
new = record { selected = []; level = ""; name = "md0"; err = "" }

-- `next.delete(device)` if it is there, else `next.add(device)`.
unfoldable pub toggle_set : List String → String → List String
toggle_set set device =
    if includes set device then filterb (λ d. not (d == device)) set else set ++ device ∷ []

unfoldable pub toggle : Form → String → Form
unfolding toggle_set
toggle f device = record f { selected = toggle_set f.selected device; level = "" }

-- The values of `levelOptions`.
unfoldable pub level_options : ℕ → List String
level_options count =
    if ltb count 2
    then []
    else if eqb count 2
    then "0" ∷ "1" ∷ []
    else if eqb count 3
    then "0" ∷ "5" ∷ []
    else "0" ∷ "1" ∷ "5" ∷ "6" ∷ "10" ∷ []

unfoldable pub est_capacity : List Disk → Form → ℕ
unfolding calc_raid_capacity min_size members
est_capacity available f =
    if f.level == ""
    then 0
    else calc_raid_capacity f.level (length f.selected) (min_size (members f.selected available))

-- The button that submits.
unfoldable pub submit_disabled : Form → Bool
submit_disabled f = f.level == "" || ltb (length f.selected) 2

items : List String → Items
items [] = nil
items (s ∷ ss) = cons (str s) (items ss)

-- `"/dev/" + name.replace(/^\/dev\//, "")`.
unfoldable pub md_device : String → String
unfolding strip_dev
md_device name = "/dev/" +++ strip_dev name

unfoldable pub array_json : Form → Json
unfolding md_device items
array_json f = obj (
    member "device" (str (md_device f.name)) (
      member "level" (str f.level)
        (member "devices" (arr (items f.selected)) (member "confirm" (bool true) empty))))

-- `submit` up to the call: the argument is the answer to the question that it asks, and the text
-- that it shows where no level is chosen.
unfoldable pub submit : Bool → String → Form → Form × Option Call
unfolding array_json
submit confirmed select_level f =
    if f.level == ""
    then (record f { err = select_level }, none)
    else if confirmed
    then (record f { err = "" }, some (create_array (array_json f)))
    else (record f { err = "" }, none)

-- A refusal of the call: the message is shown in the dialog, and handed on to the page.
unfoldable pub submit_refused : Form → String → Form × String
submit_refused f message = (record f { err = message }, message)
