-- ===== src/Raid/Page.antt =====
-- The state of `RaidView` of nasweb/frontend/src/js/app.js and its handlers. A handler gives the new state and
-- the calls that it starts; what the calls bring back comes in later, as an answer.
pub mod Message
use ollozuna_nas.Prelude.{
  ℕ, suc, ◌/◌, String, Bool, true, false, not, Option, none, some, List, [], ◌∷◌, ◌++◌, map, ◌==◌,
  if◌then◌else◌, filterb, lookup, put, remove, get_or, leb, min,
}
use ollozuna_nas.Number.{round_percent}
use ollozuna_nas.Api.Endpoints.{
  Call, list_arrays, list_disks, list_filesystems, add_disk, remove_disk, wipe_disk, delete_array,
}
use ollozuna_nas.Raid.{Disk, ArrayInfo, Filesystem, Status, Row}

pub data Modal : Type 0 where
  closed create : Modal
  expand mark_failed rebuild : Row → Modal
  wipe : String → Modal

-- A timer of `startProgress`: its array, the phase that it shows, and the ticks so far and in all.
pub record Timer : Type 0 where
  pub device : String
  pub phase : String
  pub step : ℕ
  pub total : ℕ

pub record Page : Type 0 where
  pub arrays : Option (List ArrayInfo)
  pub disks : Option (List Disk)
  pub filesystems : Option (List Filesystem)
  pub err : String
  pub failed_map : List (String × List String)
  pub status_map : List (String × Status)
  pub added_disks_map : List (String × List String)
  pub modal : Modal
  pub timers : List Timer

abbrev pub initial : Page
initial = record {
  arrays = none;
  disks = none;
  filesystems = none;
  err = "";
  failed_map = [];
  status_map = [];
  added_disks_map = [];
  modal = closed;
  timers = [];
}

abbrev pub load_calls : List Call
load_calls = list_arrays ∷ list_disks ∷ list_filesystems ∷ []

unfoldable pub load : Page → Page × List Call
load p = (record p { err = "" }, load_calls)

-- An event of the channel: `raid.status` loads the page.
unfoldable pub on_event : Page → String → Page × List Call
unfolding load
on_event p kind = if kind == "raid.status" then load p else (p, [])

-- `setModal`, and `onCreated` of the dialog for a new array.
unfoldable pub show_modal : Page → Modal → Page
show_modal p m = record p { modal = m }

unfoldable pub created : Page → Page × List Call
unfolding load
created p = load (record p { modal = closed })

-- What comes back. A refused list of filesystems counts as empty; any other refusal is shown.
pub data Answer : Type 0 where
  got_arrays : List ArrayInfo → Answer
  got_disks : List Disk → Answer
  got_filesystems : List Filesystem → Answer
  no_filesystems : Answer
  refused : String → Answer

unfoldable pub receive : Page → Answer → Page
receive p (got_arrays list) = record p { arrays = some list }
receive p (got_disks ds) = record p { disks = some ds }
receive p (got_filesystems fs) = record p { filesystems = some fs }
receive p no_filesystems = record p { filesystems = some [] }
receive p (refused message) = record p { err = message }

-- `m[k] || []`.
abbrev pub list_at : String → List (String × List String) → List String
list_at k m = get_or (lookup k m) []

-- `startProgress` up to the first tick: a tick every 200 milliseconds.
start_progress : Page → String → String → ℕ → Page
start_progress p device phase duration = record p {
  timers =
      p.timers ++ record { device = device; phase = phase; step = 0; total = duration / 200 } ∷ [];
}

add_disks : Page → String → List String → Page
add_disks p device ds = record p {
  added_disks_map = put device (list_at device p.added_disks_map ++ ds) p.added_disks_map;
}

unfoldable pub handle_expand : Page → Row → List String → Page × List Call
unfolding start_progress add_disks
handle_expand p a new_devices = (
  start_progress (add_disks (record p { modal = closed }) a.device new_devices) a.device "expanding"
      5000,
  map (add_disk a.device) new_devices,
)

unfoldable pub handle_mark_failed : Page → Row → String → Page × List Call
handle_mark_failed p a disk = (
  record p {
    modal = closed;
    failed_map = put a.device (list_at a.device p.failed_map ++ disk ∷ []) p.failed_map;
  },
  remove_disk a.device disk ∷ [],
)

unfoldable pub handle_rebuild : Page → Row → String → String → Page × List Call
unfolding start_progress add_disks
handle_rebuild p a failed new_disk =
    let q : Page = record p {
      modal = closed;
      failed_map =
          put a.device (filterb (λ d. not (d == failed)) (list_at a.device p.failed_map))
            p.failed_map;
    } in
    (
      start_progress (add_disks q a.device (new_disk ∷ [])) a.device "rebuilding" 8000,
      add_disk a.device new_disk ∷ [],
    )

-- `handleWipeDisk` up to its call, and what follows when the call succeeds; a refusal is shown.
unfoldable pub handle_wipe : Page → String → Page × List Call
handle_wipe p device = (record p { err = "" }, wipe_disk device ∷ [])

unfoldable pub wiped : Page → Page × List Call
unfolding load
wiped p = load (record p { modal = closed })

-- `handleDelete` behind the question; when the call succeeds the page is loaded again.
unfoldable pub handle_delete : Page → Row → Bool → Page × List Call
handle_delete p a confirmed = (p, if confirmed then delete_array a.device ∷ [] else [])

-- What a tick shows: never more than 99 percent.
unfoldable pub status_of : Timer → Status
status_of t = record { phase = t.phase; progress = min 99 (round_percent t.step t.total) }

unfoldable pub show_status : Page → Timer → Page
show_status p t = record p { status_map = put t.device (status_of t) p.status_map }

-- The last tick takes the status away, and `onDone` loads the page.
unfoldable pub finish : Page → Timer → Page × List Call
unfolding load
finish p t = load (record p { status_map = remove t.device p.status_map })

-- A tick: the page, the timer unless it is over, and the calls that the last tick starts.
unfoldable pub tick : Page → Timer → Page × Option Timer × List Call
tick p t =
    let next : Timer = record t { step = suc t.step } in
    let shown = show_status p next in
    if leb t.total next.step
    then ((finish shown next).0, none, (finish shown next).1)
    else (shown, some next, [])
