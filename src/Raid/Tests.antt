-- ===== src/Raid/Tests.antt =====
-- Runs of the RAID page, and its theorems at inputs that meet their hypotheses.
use ollozuna_nas.Prelude.{
  ◌-◌, ◌*◌, ◌%◌, ◌≤◌, ◌<◌, String, true, none, some, List, [], ◌∷◌, ◌++◌, ◌≡◌, ◌≢◌, ◌⊎◌, inr, refl,
  arith, includes, length, get_or, All,
}
use ollozuna_nas.Api.Endpoints.{create_array}
use ollozuna_nas.Raid.{Disk, ArrayInfo, Row}
use ollozuna_nas.Raid.Capacity.{calc_raid_capacity}
use ollozuna_nas.Raid.Capacity.Bounds.{capacity-le}
use ollozuna_nas.Raid.Create.{
  Form, toggle, level_options, array_json, submit, toggle_set, md_device,
}
use ollozuna_nas.Raid.Create as Creation
use ollozuna_nas.Raid.Create.Reach.{
  Reach, start, next, tick, choose, Distinct, create-sends, offered-capacity,
}
use ollozuna_nas.Raid.Expand as Expansion
use ollozuna_nas.Raid.Expand.{ExpandForm, Texts, confirm, expand_disabled, needs_pairs, can_expand}
use ollozuna_nas.Raid.Expand.Sends as Sending
use ollozuna_nas.Raid.Expand.Sends.{expand-sends, expand-enabled}
use ollozuna_nas.Raid.Page.{Page, initial, list_at, handle_expand, receive, got_arrays, Timer}
use ollozuna_nas.Raid.Page.Message.{replace_first}
use ollozuna_nas.Raid.Progress.{ticks, Ends, timer-Ends}
use ollozuna_nas.Raid.Table.{enrich, available_disks}
use ollozuna_nas.Raid.Table.Disks.{MemberNowhere, FailedNowhere, available-unused}
use ollozuna_nas.Raid.Table.Added.{grown, expand-reloaded}

abbrev two_disks : Form
two_disks = toggle (toggle Creation.new "/dev/sda") "/dev/sdb"

abbrev mirror : Form
mirror = record two_disks { level = "1" }

mirror_offered : includes (level_options (length two_disks.selected)) "1" ≡ true
unfolding toggle level_options
mirror_offered = refl

mirror-Reach : Reach mirror
mirror-Reach =
    next (next (next start (tick _ "/dev/sda")) (tick _ "/dev/sdb"))
      (choose two_disks "1" (inr mirror_offered))

mirror_sent : (submit true "?" mirror).1 ≡ some (create_array (array_json mirror))
unfolding submit
mirror_sent = refl

create-sends_example :
    (create_array (array_json mirror) ≡ create_array (array_json mirror))
    × (true ≡ true)
    × Distinct mirror.selected
    × (includes (level_options (length mirror.selected)) mirror.level ≡ true)
    × (2 ≤ length mirror.selected)
create-sends_example =
    create-sends mirror true "?" (create_array (array_json mirror)) mirror-Reach mirror_sent

abbrev md0_row : Row
md0_row = record {
  device = "/dev/md0";
  level = "5";
  devices = "/dev/sda" ∷ "/dev/sdb" ∷ "/dev/sdc" ∷ [];
  failed_devices = [];
  display_state = "clean";
  progress = none;
}

abbrev md0 : ArrayInfo
md0 = record {
  device = "/dev/md0";
  level = "5";
  devices = some ("/dev/sda" ∷ "/dev/sdb" ∷ "/dev/sdc" ∷ []);
  state = "clean";
}

abbrev one_more : ExpandForm
one_more = Expansion.toggle Expansion.new "/dev/sdd"

abbrev hints : Texts
hints = record { select_at_least_one = "one"; raid10_hint = "pairs" }

abbrev added : List String
added = "/dev/sdd" ∷ []

one_more_sent : (confirm hints md0_row one_more).1 ≡ some added
unfolding confirm Expansion.toggle
one_more_sent = refl

expand-sends_example :
    (added ≡ one_more.selected)
    × Distinct added
    × (md0_row.level ≢ "0")
    × (md0_row.level ≢ "1")
    × (0 < length added)
    × ((md0_row.level ≢ "10") ⊎ (length added % 2 ≡ 0))
expand-sends_example =
    expand-sends hints md0_row one_more added (Sending.tick Sending.start "/dev/sdd") one_more_sent

capacity-le_example :
    (calc_raid_capacity "10" 5 100 ≤ 100 * 5)
    × (calc_raid_capacity "5" 5 100 ≤ 100 * (5 - 1))
    × (calc_raid_capacity "6" 5 100 ≤ 100 * (5 - 2))
capacity-le_example = capacity-le "10" 5 100

raid6_offered : includes (level_options 4) "6" ≡ true
unfolding level_options
raid6_offered = refl

offered-capacity_example : 0 < calc_raid_capacity "6" 4 100
offered-capacity_example = offered-capacity 4 100 "6" (omega arith) raid6_offered

abbrev shown_page : Page
shown_page = record initial {
  arrays = some (md0 ∷ []);
  disks = some (record { device = "/dev/sdd"; size_bytes = 100 } ∷ []);
}

available-unused_example :
    All
      (λ (d : Disk).
        MemberNowhere d.device shown_page (get_or shown_page.arrays [])
        × FailedNowhere d.device shown_page.failed_map)
      (available_disks shown_page)
available-unused_example = available-unused shown_page

expand-reloaded_example :
    (enrich
      (receive
        (handle_expand shown_page md0_row added).0
        (got_arrays (grown md0 ("/dev/sda" ∷ []) added ∷ [])))
      (grown md0 ("/dev/sda" ∷ []) added)).devices
    ≡ (("/dev/sda" ∷ []) ++ added) ++ (list_at "/dev/md0" shown_page.added_disks_map ++ added)
expand-reloaded_example = expand-reloaded shown_page md0_row md0 ("/dev/sda" ∷ []) added refl []

abbrev growing : Timer
growing = record { device = "/dev/md0"; phase = "expanding"; step = 0; total = 25 }

timer-Ends_example : Ends shown_page growing (ticks 25 shown_page growing)
timer-Ends_example = timer-Ends shown_page growing refl (omega arith)

message_test : replace_first "{md}" "/dev/md0" "Delete {md} and {md}?" ≡ "Delete /dev/md0 and {md}?"
unfolding replace_first
message_test = refl

device_test : (md_device "/dev/md0" ≡ "/dev/md0") × (md_device "md0" ≡ "/dev/md0")
unfolding md_device
device_test = (refl, refl)
