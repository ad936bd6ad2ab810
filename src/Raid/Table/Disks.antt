-- ===== src/Raid/Table/Disks.antt =====
-- The disks that `RaidView` offers for new arrays, expansions and rebuilds.
use ollozuna_nas.Prelude.{
  String, Bool, true, false, not, ◌&&◌, List, [], ◌∷◌, includes, filterb, map, get_or, ◌≡◌, arith,
  All, Bool-cases, inl, inr, or-eq-false, includes-append,
}
use ollozuna_nas.Raid.{Disk, ArrayInfo, Row}
use ollozuna_nas.Raid.Page.{Page, list_at}
use ollozuna_nas.Raid.Table.{
  enrich, rows, flat_devices, used_devices, flat_values, all_failed_devices, available_disks,
}

-- The name stands in no row.
abbrev pub UsedNowhere : String → List Row → Type 0
UsedNowhere d = All (λ (r : Row). includes r.devices d ≡ false)

flat_devices-UsedNowhere :
    (d : String) (rs : List Row) → includes (flat_devices rs) d ≡ false → UsedNowhere d rs
unfolding flat_devices
flat_devices-UsedNowhere d [] h = tt
flat_devices-UsedNowhere d (r ∷ rs) h =
    let apart = or-eq-false _ _ (rw (includes-append r.devices (flat_devices rs) d) at h) in
    (apart.0, flat_devices-UsedNowhere d rs apart.1)

-- The name stands in no list of failed disks.
abbrev pub FailedNowhere : String → List (String × List String) → Type 0
FailedNowhere d [] = Unit
FailedNowhere d ((k, ds) ∷ m) = (includes ds d ≡ false) × FailedNowhere d m

flat_values-FailedNowhere :
    (d : String) (m : List (String × List String))
    → includes (flat_values m) d ≡ false
    → FailedNowhere d m
unfolding flat_values
flat_values-FailedNowhere d [] h = tt
flat_values-FailedNowhere d ((k, ds) ∷ m) h =
    let apart = or-eq-false _ _ (rw (includes-append ds (flat_values m) d) at h) in
    (apart.0, flat_values-FailedNowhere d m apart.1)

-- What a test lets through.
All-filterb :
    (t : Disk → Bool) (P : Disk → Type 0)
    → ((d : Disk) → t d ≡ true → P d)
    → (ds : List Disk) → All P (filterb t ds)
All-filterb t P h [] = tt
All-filterb t P h (d ∷ ds) = elim (Bool-cases (t d)) [
  | inl e ↦ rw e (h d e, All-filterb t P h ds)
  | inr e ↦ rw e (All-filterb t P h ds)
]

and-not : (a b : Bool) → (not a && not b) ≡ true → (a ≡ false) × (b ≡ false)
and-not a b h = ground arith

-- The name is neither among the devices that the server reports of an array nor among the disks that
-- were added to it since, for no array.
abbrev pub MemberNowhere : String → Page → List ArrayInfo → Type 0
MemberNowhere d p = All (λ (a : ArrayInfo).
    (includes (get_or a.devices []) d ≡ false)
    × (includes (list_at a.device p.added_disks_map) d ≡ false))

UsedNowhere-MemberNowhere :
    (d : String) (p : Page) (infos : List ArrayInfo)
    → UsedNowhere d (map (enrich p) infos)
    → MemberNowhere d p infos
unfolding enrich
UsedNowhere-MemberNowhere d p [] h = tt
UsedNowhere-MemberNowhere d p (a ∷ infos) (here, rest) = (
  or-eq-false _ _
      (rw (includes-append (get_or a.devices []) (list_at a.device p.added_disks_map) d) at here),
  UsedNowhere-MemberNowhere d p infos rest,
)

-- A disk that the page offers is none of the devices that the server reports of any array, none of the
-- disks that the user has added to one since, and is marked as failed for none.
pub available-unused :
    (p : Page)
    → All
        (λ (d : Disk).
          MemberNowhere d.device p (get_or p.arrays []) × FailedNowhere d.device p.failed_map)
        (available_disks p)
unfolding available_disks used_devices all_failed_devices rows
available-unused p =
    All-filterb _ _
      (λ d h.
        let apart = and-not _ _ h in
        (
          UsedNowhere-MemberNowhere d.device p (get_or p.arrays [])
              (flat_devices-UsedNowhere d.device (rows p) apart.0),
          flat_values-FailedNowhere d.device p.failed_map apart.1,
        ))
      (get_or p.disks [])
