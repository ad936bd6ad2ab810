-- ===== src/Raid/Table/Marks.antt =====
-- Marking a disk as failed, and replacing it: what the table shows after `handleMarkFailed` and
-- `handleRebuild`.
use ollozuna_nas.Prelude.{
  String, Bool, true, false, not, ◌&&◌, ◌||◌, none, List, [], ◌∷◌, ◌++◌, ◌==◌, eqb, if◌then◌else◌,
  includes, get_or, length, ◌≡◌, refl, arith, eq_iff, eq_refl, Bool-cases, inl, inr, lookup, put,
  lookup-put, includes-append, includes-filterb_eq, sym,
}
use mathlib.Core.List.{append_assoc}
use ollozuna_nas.Raid.{Disk, ArrayInfo, Row}
use ollozuna_nas.Raid.Page.{Page, list_at, handle_mark_failed, handle_rebuild}
use ollozuna_nas.Raid.Table.{enrich, to_set, has_failed, cells}

includes-to_set : (xs : List String) (x : String) → includes (to_set xs) x ≡ includes xs x
unfolding to_set
includes-to_set [] x = refl
includes-to_set (y ∷ xs) x =
    ground (
      arith,
      eq_iff y x,
      includes-filterb_eq (λ z. not (y == z)) (to_set xs) x,
      includes-to_set xs x,
    )

nonempty_of_includes :
    (xs : List String) (x : String) → includes xs x ≡ true → not (eqb (length xs) 0) ≡ true
nonempty_of_includes [] x h = cc
nonempty_of_includes (y ∷ xs) x h = ground arith

pub list_at-put :
    (k j : String) (v : List String) (m : List (String × List String))
    → list_at j (put k v m) ≡ (if k == j then v else list_at j m)
list_at-put k j v m = elim (Bool-cases (k == j)) [
  | inl e ↦ rw (lookup-put, e) refl
  | inr e ↦ rw (lookup-put, e) refl
]

or_true : (b : Bool) → (b || true) ≡ true
or_true b = ground arith

degraded-cells :
    (all : List Disk) (r : Row)
    → r.display_state ≡ "degraded"
    → has_failed r ≡ true
    → ((cells all r).mark_failed_off ≡ true) × ((cells all r).rebuild_off ≡ false)
unfolding cells
degraded-cells all r e h = (rw (e, h) refl, rw (e, h) refl)

enrich-degraded :
    (p : Page) (info : ArrayInfo)
    → lookup info.device p.status_map ≡ none
    → has_failed (enrich p info) ≡ true
    → (enrich p info).display_state ≡ "degraded"
unfolding enrich
enrich-degraded p info quiet h = rw (quiet, h) refl

module _ (p : Page) (a : Row) (info : ArrayInfo) (disk : String)
    (same : a.device ≡ info.device) where
  abbrev marked : Page
  marked = (handle_mark_failed p a disk).0

  marked-list :
      list_at info.device marked.failed_map ≡ list_at info.device p.failed_map ++ disk ∷ []
  unfolding handle_mark_failed
  marked-list = rw (same, list_at-put info.device info.device, eq_refl) refl

  marked-includes : includes (to_set (list_at info.device marked.failed_map)) disk ≡ true
  marked-includes = rw (includes-to_set, marked-list, includes-append, eq_refl) (or_true _)

  marked-in_row : includes (enrich marked info).failed_devices disk ≡ true
  unfolding enrich
  marked-in_row = marked-includes

  marked-has_failed : has_failed (enrich marked info) ≡ true
  marked-has_failed = nonempty_of_includes (enrich marked info).failed_devices disk marked-in_row

  -- After a disk of an array was marked as failed while no change of the array was in progress, the
  -- row of the array counts it among the failed ones and shows `degraded`, its button for marking is off
  -- and the one for rebuilding is on.
  pub mark_failed-row :
      (all : List Disk)
      → lookup info.device p.status_map ≡ none
      → (includes (enrich marked info).failed_devices disk ≡ true)
        × ((enrich marked info).display_state ≡ "degraded")
        × ((cells all (enrich marked info)).mark_failed_off ≡ true)
        × ((cells all (enrich marked info)).rebuild_off ≡ false)
  unfolding handle_mark_failed
  mark_failed-row all quiet =
      let degraded = enrich-degraded marked info quiet marked-has_failed in
      let buttons = degraded-cells all (enrich marked info) degraded marked-has_failed in
      (marked-in_row, degraded, buttons.0, buttons.1)

-- Marking a disk of one array as failed leaves the row of every other array as it was.
pub mark_failed-others :
    (p : Page) (a : Row) (disk : String) (other : ArrayInfo)
    → (a.device == other.device) ≡ false
    → enrich (handle_mark_failed p a disk).0 other ≡ enrich p other
unfolding enrich handle_mark_failed
mark_failed-others p a disk other h = rw (list_at-put a.device other.device, h) refl

-- After a rebuild was started, the replaced disk is no longer among the failed ones of the array,
-- the others still are, the new disk is the last of its devices, and a timer of 40 ticks runs.
pub rebuild-row :
    (p : Page) (a : Row) (info : ArrayInfo) (failed new_disk d : String)
    → a.device ≡ info.device
    → (includes (enrich (handle_rebuild p a failed new_disk).0 info).failed_devices d
        ≡ (not (d == failed) && includes (enrich p info).failed_devices d))
      × ((enrich (handle_rebuild p a failed new_disk).0 info).devices
          ≡ (enrich p info).devices ++ new_disk ∷ [])
      × ((handle_rebuild p a failed new_disk).0.timers
          ≡ p.timers
            ++ record { device = a.device; phase = "rebuilding"; step = 0; total = 40 } ∷ [])
unfolding enrich handle_rebuild
rebuild-row p a info failed new_disk d same = (
  rw (includes-to_set, includes-to_set, same, list_at-put info.device info.device, eq_refl)
      (includes-filterb_eq (λ x. not (x == failed)) (list_at info.device p.failed_map) d),
  rw (same, list_at-put info.device info.device, eq_refl)
      (sym (append_assoc (get_or info.devices []) (list_at info.device p.added_disks_map) _)),
  refl,
)
