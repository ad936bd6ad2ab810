-- ===== src/Raid/Expand/Sends.antt =====
-- What the dialog for more disks hands on (`ExpandModal`).
use ollozuna_nas.Prelude.{
  ◌%◌, ◌<◌, String, true, false, none, some, List, ◌≡◌, ◌≢◌, arith, eq_iff, length, ◌⊎◌,
}
use ollozuna_nas.Raid.{Row}
use ollozuna_nas.Raid.Create.Reach.{Distinct, toggle_set-Distinct}
use ollozuna_nas.Raid.Expand.{ExpandForm, new, needs_pairs, toggle, Texts, confirm, expand_disabled}

pub data Reach : ExpandForm → Type 0 where
  start : Reach new
  tick : {f : ExpandForm} → Reach f → (device : String) → Reach (toggle f device)
  press : {f : ExpandForm} → Reach f → (t : Texts) (a : Row) → Reach (confirm t a f).0

confirm-keeps : (t : Texts) (a : Row) (f : ExpandForm) → (confirm t a f).0.selected ≡ f.selected
unfolding confirm
confirm-keeps t a f = ground arith

Reach-Distinct : {f : ExpandForm} → Reach f → Distinct f.selected
unfolding toggle
Reach-Distinct start = tt
Reach-Distinct (tick {f} r device) = toggle_set-Distinct f.selected device (Reach-Distinct r)
Reach-Distinct (press {f} r t a) = rw (confirm-keeps t a f) (Reach-Distinct r)

confirm-cases :
    (t : Texts) (a : Row) (f : ExpandForm) (ds : List String)
    → (confirm t a f).1 ≡ some ds
    → (ds ≡ f.selected)
      × (a.level ≢ "0")
      × (a.level ≢ "1")
      × (0 < length f.selected)
      × ((a.level ≢ "10") ⊎ (length f.selected % 2 ≡ 0))
unfolding confirm
confirm-cases t a f ds h =
    ground (arith, eq_iff "0" a.level, eq_iff "1" a.level, eq_iff a.level "10")

-- Whatever was ticked before, the dialog hands on the ticked disks, at least one and none twice,
-- never for RAID 0 or RAID 1, and for RAID 10 an even number of them.
pub expand-sends :
    (t : Texts) (a : Row) (f : ExpandForm) (ds : List String)
    → Reach f
    → (confirm t a f).1 ≡ some ds
    → (ds ≡ f.selected)
      × Distinct ds
      × (a.level ≢ "0")
      × (a.level ≢ "1")
      × (0 < length ds)
      × ((a.level ≢ "10") ⊎ (length ds % 2 ≡ 0))
expand-sends t a f ds r h =
    let (same, l0, l1, pos, even) = confirm-cases t a f ds h in
    (same, rw same (Reach-Distinct r), l0, l1, rw same pos, rw same even)

-- Where the button is enabled, the handler behind it hands on the ticked disks, or it shows the
-- hint about pairs, the latter only for RAID 10.
pub expand-enabled :
    (t : Texts) (a : Row) (f : ExpandForm)
    → expand_disabled a f ≡ false
    → ((confirm t a f).1 ≡ some f.selected)
      ⊎ ((needs_pairs a ≡ true) × (confirm t a f ≡ (record f { err = t.raid10_hint }, none)))
unfolding confirm expand_disabled
expand-enabled t a f h = ground arith
