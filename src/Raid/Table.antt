-- ===== src/Raid/Table.antt =====
-- What `RaidView` of nasweb/frontend/src/js/app.js shows of its state: the rows of the arrays, the disks
-- that are free and those that failed, and the buttons of each row.
pub mod Disks
pub mod Marks
pub mod Added
use ollozuna_nas.Prelude.{
  ℕ, ◌+◌, ◌<◌, String, Bool, true, false, not, ◌&&◌, ◌||◌, Option, none, some, List, [], ◌∷◌, ◌++◌,
  map, ◌==◌, eqb, ltb, if◌then◌else◌, includes, length, filterb, lookup, get_or,
}
use ollozuna_nas.Raid.{Disk, ArrayInfo, Row, Status}
use ollozuna_nas.Raid.Capacity.{calc_raid_capacity, min_size, members}
use ollozuna_nas.Raid.Page.{Page, list_at}

-- `new Set(xs)`.
unfoldable pub to_set : List String → List String
to_set [] = []
to_set (x ∷ xs) = x ∷ filterb (λ y. not (x == y)) (to_set xs)

-- `ovr ? ovr.phase : hasFailed ? "degraded" : state`.
abbrev pub shown_state : Option Status → Bool → String → String
shown_state (some status) failed state = status.phase
shown_state none failed state = if failed then "degraded" else state

abbrev pub shown_progress : Option Status → Option ℕ
shown_progress none = none
shown_progress (some status) = some status.progress

-- A set is not empty.
abbrev pub has_failed : Row → Bool
has_failed a = not (eqb (length a.failed_devices) 0)

unfoldable pub enrich : Page → ArrayInfo → Row
unfolding to_set
enrich p a =
    let failed = to_set (list_at a.device p.failed_map) in
    let override = lookup a.device p.status_map in
    record {
      device = a.device;
      level = a.level;
      devices = get_or a.devices [] ++ list_at a.device p.added_disks_map;
      failed_devices = failed;
      display_state = shown_state override (not (eqb (length failed) 0)) a.state;
      progress = shown_progress override;
    }

unfoldable pub rows : Page → List Row
unfolding enrich
rows p = map (enrich p) (get_or p.arrays [])

-- `usedDevices`, `allFailedDevices`.
flat_devices : List Row → List String
flat_devices [] = []
flat_devices (r ∷ rs) = r.devices ++ flat_devices rs

unfoldable pub used_devices : Page → List String
unfolding rows flat_devices
used_devices p = flat_devices (rows p)

flat_values : List (String × List String) → List String
flat_values [] = []
flat_values ((k, ds) ∷ m) = ds ++ flat_values m

unfoldable pub all_failed_devices : Page → List String
unfolding flat_values
all_failed_devices p = flat_values p.failed_map

unfoldable pub available_disks : Page → List Disk
unfolding used_devices all_failed_devices
available_disks p =
    filterb
      (λ (d : Disk).
        not (includes (used_devices p) d.device) && not (includes (all_failed_devices p) d.device))
      (get_or p.disks [])

unfoldable pub failed_disks : Page → List Disk
unfolding all_failed_devices
failed_disks p =
    filterb (λ (d : Disk). includes (all_failed_devices p) d.device) (get_or p.disks [])

-- A row of the table: what it says of the size and the state, and which buttons are disabled.
pub record Cells : Type 0 where
  pub total_size : ℕ
  pub busy : Bool
  pub healthy : Bool
  pub expand_off : Bool
  pub mark_failed_off : Bool
  pub rebuild_off : Bool
  pub delete_off : Bool

unfoldable pub cells : List Disk → Row → Cells
unfolding calc_raid_capacity min_size members
cells all a =
    let busy = a.display_state == "expanding" || a.display_state == "rebuilding" in
    record {
      total_size = calc_raid_capacity a.level (length a.devices) (min_size (members a.devices all));
      busy = busy;
      healthy = a.display_state == "clean" || a.display_state == "active";
      expand_off = busy;
      mark_failed_off = busy || has_failed a;
      rebuild_off = not (has_failed a) || busy;
      delete_off = busy;
    }
