-- ===== src/Raid/Capacity/Bounds.antt =====
-- What `calcRaidCapacity` promises.
use ollozuna_nas.Prelude.{
  ℕ, zero, suc, ◌-◌, ◌*◌, ◌/◌, ◌≤◌, min, String, Bool, true, false, ◌==◌, eqb, leb, if◌then◌else◌,
  ◌≡◌, refl, arith, Bool-cases, inl, inr,
}
use ollozuna_nas.Raid.Capacity.{calc_raid_capacity}

-- The disks' worth of a level that holds data: all of them, or all but those that its redundancy
-- takes; 0 where the level cannot be built of so many disks.
unfoldable pub data_disks : String → ℕ → ℕ
data_disks level n =
    if level == "0"
    then n
    else if level == "1"
    then min 1 n
    else if level == "5"
    then (if leb 3 n then n - 1 else 0)
    else if level == "6"
    then (if leb 4 n then n - 2 else 0)
    else if level == "10"
    then (if leb 4 n then n / 2 else 0)
    else if level == "linear"
    then n
    else min 1 n

-- A product with a choice of factors.
if_mul :
    (b : Bool) (m : ℕ) (p q x y : ℕ)
    → p ≡ m * x
    → q ≡ m * y
    → (if b then p else q) ≡ m * (if b then x else y)
if_mul true m p q x y e f = e
if_mul false m p q x y e f = f

pub mul_mono : (m a b : ℕ) → a ≤ b → m * a ≤ m * b
mul_mono m a b h = grind arith

data_disks-le : (level : String) (n : ℕ) → data_disks level n ≤ n
unfolding data_disks
data_disks-le level n = ground arith

data_disks_zero : (level : String) (m : ℕ) → m * data_disks level 0 ≡ 0
data_disks_zero level m = omega (arith, mul_mono m (data_disks level 0) 0 (data_disks-le level 0))

calc-zero : (level : String) (n : ℕ) → calc_raid_capacity level n 0 ≡ 0
unfolding calc_raid_capacity
calc-zero level n = elim (Bool-cases (eqb n 0)) [ inl e ↦ rw e refl | inr e ↦ rw e refl ]

suc-ne-zero : (n : ℕ) → eqb (suc n) 0 ≡ false
suc-ne-zero n = ground arith

min_one : (n : ℕ) → min 1 (suc n) ≡ 1
min_one n = omega arith

single_disk : (n m : ℕ) → suc m ≡ suc m * min 1 (suc n)
single_disk n m = rw min_one (omega arith)

pub calc-eq-data_disks :
    (level : String) (n m : ℕ) → calc_raid_capacity level n m ≡ m * data_disks level n
unfolding calc_raid_capacity data_disks
calc-eq-data_disks level zero m = omega (arith, data_disks_zero level m)
calc-eq-data_disks level (suc n) zero = omega (arith, calc-zero level (suc n))
calc-eq-data_disks level (suc n) (suc m) = rw (suc-ne-zero n) (
    rw (suc-ne-zero m) (
      if_mul (level == "0") (suc m) _ _ _ _ refl (
        if_mul (level == "1") (suc m) _ _ _ _ (single_disk n m) (
          if_mul (level == "5") (suc m) _ _ _ _
            (if_mul (leb 3 (suc n)) (suc m) _ _ _ _ refl (omega arith))
            (if_mul (level == "6") (suc m) _ _ _ _
              (if_mul (leb 4 (suc n)) (suc m) _ _ _ _ refl (omega arith))
              (if_mul (level == "10") (suc m) _ _ _ _
                (if_mul (leb 4 (suc n)) (suc m) _ _ _ _ refl (omega arith))
                (if_mul (level == "linear") (suc m) _ _ _ _ refl (single_disk n m))))))))

data_disks-parity5 : (n : ℕ) → data_disks "5" n ≤ n - 1
unfolding data_disks
data_disks-parity5 n = ground arith

data_disks-parity6 : (n : ℕ) → data_disks "6" n ≤ n - 2
unfolding data_disks
data_disks-parity6 n = ground arith

data_disks_mono : (level : String) (n k : ℕ) → n ≤ k → data_disks level n ≤ data_disks level k
unfolding data_disks
data_disks_mono level n k h = ground arith

-- The capacity shown for a level never exceeds the raw size of the disks, each counted at the size
-- of the smallest. RAID 5 gives up at least one disk of it, and RAID 6 at least two.
pub capacity-le :
    (level : String) (n m : ℕ)
    → (calc_raid_capacity level n m ≤ m * n)
      × (calc_raid_capacity "5" n m ≤ m * (n - 1))
      × (calc_raid_capacity "6" n m ≤ m * (n - 2))
capacity-le level n m = (
  rw calc-eq-data_disks (mul_mono m _ _ (data_disks-le level n)),
  rw calc-eq-data_disks (mul_mono m _ _ (data_disks-parity5 n)),
  rw calc-eq-data_disks (mul_mono m _ _ (data_disks-parity6 n)),
)

-- A disk more never lowers the capacity shown, at the same smallest disk.
pub capacity_mono :
    (level : String) (n k m : ℕ)
    → n ≤ k
    → calc_raid_capacity level n m ≤ calc_raid_capacity level k m
capacity_mono level n k m h =
    rw calc-eq-data_disks (rw calc-eq-data_disks (grind (arith, data_disks_mono level n k h)))
