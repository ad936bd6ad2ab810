-- ===== src/Raid/Table/Added.antt =====
-- The disks that an expansion adds, before and after the server reports them itself.
use ollozuna_nas.Prelude.{String, some, List, ◌∷◌, ◌++◌, ◌≡◌, refl, eq_refl, sym, map}
use mathlib.Core.List.{append_assoc}
use ollozuna_nas.Api.Endpoints.{add_disk}
use ollozuna_nas.Raid.{ArrayInfo, Row}
use ollozuna_nas.Raid.Page.{Page, list_at, handle_expand, receive, got_arrays}
use ollozuna_nas.Raid.Table.{enrich}
use ollozuna_nas.Raid.Table.Marks.{list_at-put}

-- The array as the server reports it once the new disks are in.
abbrev pub grown : ArrayInfo → List String → List String → ArrayInfo
grown info old new_devices = record info { devices = some (old ++ new_devices) }

module _ (p : Page) (a : Row) (info : ArrayInfo) (old new_devices : List String)
    (same : a.device ≡ info.device) where
  -- As soon as an expansion is confirmed, the row of the array shows the new disks behind those
  -- that it showed before, and a call for each of them is on its way.
  pub expand-row :
      ((enrich (handle_expand p a new_devices).0 info).devices
        ≡ (enrich p info).devices ++ new_devices)
      × ((handle_expand p a new_devices).1 ≡ map (add_disk a.device) new_devices)
  unfolding enrich handle_expand
  expand-row = (
    rw (same, list_at-put info.device info.device, eq_refl)
        (sym (append_assoc _ (list_at info.device p.added_disks_map) new_devices)),
    refl,
  )

  -- When the page is loaded again and the server reports the new disks among the array's devices,
  -- the row counts each of them twice: the disks remembered as added are not forgotten.
  pub expand-reloaded :
      (others : List ArrayInfo)
      → (enrich
          (receive
            (handle_expand p a new_devices).0
            (got_arrays (grown info old new_devices ∷ others)))
          (grown info old new_devices)).devices
        ≡ (old ++ new_devices) ++ (list_at info.device p.added_disks_map ++ new_devices)
  unfolding enrich handle_expand receive
  expand-reloaded others = rw (same, list_at-put info.device info.device, eq_refl) refl
