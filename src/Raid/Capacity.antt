-- ===== src/Raid/Capacity.antt =====
-- `calcRaidCapacity` of nasweb/frontend/src/js/app.js, and the sizes that it is given.
pub mod Bounds
use ollozuna_nas.Prelude.{
  ℕ, zero, suc, ◌-◌, ◌*◌, ◌/◌, min, String, Bool, true, false, ◌||◌, List, [], ◌∷◌, map, ◌==◌, eqb,
  leb, ltb, if◌then◌else◌, includes, filterb,
}
use ollozuna_nas.Raid.{Disk}

unfoldable pub calc_raid_capacity : String → ℕ → ℕ → ℕ
calc_raid_capacity level n min_size =
    if eqb n 0 || eqb min_size 0
    then 0
    else if level == "0"
    then min_size * n
    else if level == "1"
    then min_size
    else if level == "5"
    then (if leb 3 n then min_size * (n - 1) else 0)
    else if level == "6"
    then (if leb 4 n then min_size * (n - 2) else 0)
    else if level == "10"
    then (if leb 4 n then min_size * (n / 2) else 0)
    else if level == "linear"
    then min_size * n
    else min_size

-- `Math.min(...sizes)` of at least one size.
minimum : ℕ → List ℕ → ℕ
minimum s [] = s
minimum s (r ∷ rs) = minimum (min s r) rs

-- `sizes.length > 0 ? Math.min(...sizes) : 0`, where `sizes` are the positive ones.
min_positive : List ℕ → ℕ
unfolding minimum
min_positive [] = 0
min_positive (s ∷ ss) = minimum s ss

unfoldable pub min_size : List Disk → ℕ
unfolding min_positive
min_size disks = min_positive (filterb (ltb 0) (map (λ d. d.size_bytes) disks))

-- `allDisks.filter((d) => devices.includes(d.device))`.
unfoldable pub members : List String → List Disk → List Disk
members devices disks = filterb (λ d. includes devices d.device) disks
