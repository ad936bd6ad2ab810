-- ===== src/Raid/Expand.antt =====
-- The dialogs on an array that exists: `ExpandModal`, `MarkFailedModal` and `RebuildModal` of
-- nasweb/frontend/src/js/app.js.
pub mod Sends
use ollozuna_nas.Prelude.{
  ℕ, ◌+◌, ◌%◌, String, Bool, true, false, ◌&&◌, ◌||◌, not, Option, none, some, List, [], ◌∷◌, ◌++◌,
  ◌==◌, eqb, if◌then◌else◌, includes, length, filterb,
}
use ollozuna_nas.Raid.{Disk, Row}
use ollozuna_nas.Raid.Capacity.{calc_raid_capacity, min_size, members}
use ollozuna_nas.Raid.Create.{toggle_set}

pub record ExpandForm : Type 0 where
  pub selected : List String
  pub err : String

abbrev pub new : ExpandForm
new = record { selected = []; err = "" }

unfoldable pub can_expand : Row → Bool
can_expand a = not (includes ("0" ∷ "1" ∷ []) a.level)

unfoldable pub needs_pairs : Row → Bool
needs_pairs a = a.level == "10"

unfoldable pub toggle : ExpandForm → String → ExpandForm
unfolding toggle_set
toggle f device = record { selected = toggle_set f.selected device; err = "" }

-- The two texts that the dialog may show.
pub record Texts : Type 0 where
  pub select_at_least_one : String
  pub raid10_hint : String

-- `confirm`: the devices that are handed on, or the message.
unfoldable pub confirm : Texts → Row → ExpandForm → ExpandForm × Option (List String)
unfolding can_expand needs_pairs
confirm t a f =
    if not (can_expand a)
    then (f, none)
    else if eqb (length f.selected) 0
    then (record f { err = t.select_at_least_one }, none)
    else if needs_pairs a && not (eqb (length f.selected % 2) 0)
    then (record f { err = t.raid10_hint }, none)
    else (f, some f.selected)

unfoldable pub expand_disabled : Row → ExpandForm → Bool
unfolding can_expand
expand_disabled a f = not (can_expand a) || eqb (length f.selected) 0

unfoldable pub current_capacity : Row → List Disk → ℕ
unfolding calc_raid_capacity min_size members
current_capacity a all =
    calc_raid_capacity a.level (length a.devices) (min_size (members a.devices all))

-- The chosen disks among the available ones join the members.
unfoldable pub new_capacity : Row → List Disk → List Disk → ExpandForm → ℕ
unfolding calc_raid_capacity min_size members
new_capacity a all available f =
    let new_objs = members f.selected available in
    calc_raid_capacity a.level (length a.devices + length new_objs)
      (min_size (members a.devices all ++ new_objs))

-- `MarkFailedModal`: the disks that it offers, and its button; the argument is the answer to the
-- question that it asks.
unfoldable pub active_disks : Row → List String
active_disks a = filterb (λ d. not (includes a.failed_devices d)) a.devices

unfoldable pub mark_failed : String → Bool → Option String
mark_failed sel confirmed = if sel == "" then none else if confirmed then some sel else none

-- `RebuildModal`: the disk that it replaces, and what its button hands on.
unfoldable pub failed_disk : Row → String
failed_disk a = elim a.failed_devices [ [] ↦ "" | d ∷ _ ↦ d ]

unfoldable pub rebuild : Row → String → Option (String × String)
unfolding failed_disk
rebuild a sel = if sel == "" then none else some (failed_disk a, sel)
