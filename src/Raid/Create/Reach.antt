-- ===== src/Raid/Create/Reach.antt =====
-- The forms that a user can reach, and what the modal sends from them.
use ollozuna_nas.Prelude.{
  ℕ, ◌≤◌, ◌<◌, String, Bool, true, false, some, List, [], ◌∷◌, ◌++◌, ◌≡◌, ◌≢◌, refl, arith, eq_iff,
  includes, length, filterb, ◌⊎◌, inl, inr, Bool-cases, All, All-includes, includes-append,
  includes-filterb,
}
use ollozuna_nas.Api.Endpoints.{Call, create_array}
use ollozuna_nas.Raid.Capacity.{calc_raid_capacity}
use ollozuna_nas.Raid.Capacity.Bounds.{data_disks, calc-eq-data_disks, mul_mono}
use ollozuna_nas.Raid.Create.{Form, new, toggle_set, toggle, level_options, array_json, submit}

-- What the user does: tick or untick a disk, choose one of the levels that the list offers or the
-- empty entry above them, type a name, or submit, with an answer to the question.
pub data Step : Form → Form → Type 0 where
  tick : (f : Form) (device : String) → Step f (toggle f device)
  choose :
      (f : Form) (level : String)
      → (level ≡ "") ⊎ (includes (level_options (length f.selected)) level ≡ true)
      → Step f (record f { level = level })
  rename : (f : Form) (name : String) → Step f (record f { name = name })
  press : (f : Form) (confirmed : Bool) (text : String) → Step f (submit confirmed text f).0

pub data Reach : Form → Type 0 where
  start : Reach new
  next : {f g : Form} → Reach f → Step f g → Reach g

-- No text stands twice in the list.
abbrev pub Distinct : List String → Type 0
Distinct [] = Unit
Distinct (x ∷ xs) = (includes xs x ≡ false) × Distinct xs

pub record IsValid (f : Form) : Type 0 where
  pub distinct : Distinct f.selected
  pub offered : (f.level ≡ "") ⊎ (includes (level_options (length f.selected)) f.level ≡ true)

Distinct-filterb : (p : String → Bool) (xs : List String) → Distinct xs → Distinct (filterb p xs)
Distinct-filterb p [] d = tt
Distinct-filterb p (x ∷ xs) (h, d) =
    ground (arith, includes-filterb p xs x h, Distinct-filterb p xs d)

Distinct-concat :
    (xs : List String) (y : String) → Distinct xs → includes xs y ≡ false → Distinct (xs ++ y ∷ [])
Distinct-concat [] y d h = (refl, tt)
Distinct-concat (x ∷ xs) y (k, d) h =
    ground (arith, includes-append xs (y ∷ []) x, Distinct-concat xs y d, eq_iff x y, eq_iff y x)

pub toggle_set-Distinct : (xs : List String) (y : String) → Distinct xs → Distinct (toggle_set xs y)
unfolding toggle_set
toggle_set-Distinct xs y d = elim (Bool-cases (includes xs y)) [
  | inl e ↦ rw e (Distinct-filterb _ xs d)
  | inr e ↦ rw e (Distinct-concat xs y d e)
]

submit-keeps :
    (confirmed : Bool) (text : String) (f : Form)
    → ((submit confirmed text f).0.selected ≡ f.selected)
      × ((submit confirmed text f).0.level ≡ f.level)
unfolding submit
submit-keeps confirmed text f = ground arith

Step-IsValid : {f g : Form} → Step f g → IsValid f → IsValid g
unfolding toggle submit
Step-IsValid (tick f device) v = record {
  distinct = toggle_set-Distinct f.selected device v.distinct;
  offered = inl refl;
}
Step-IsValid (choose f level h) v = record { distinct = v.distinct; offered = h }
Step-IsValid (rename f name) v = record { distinct = v.distinct; offered = v.offered }
Step-IsValid (press f confirmed text) v =
    let same = submit-keeps confirmed text f in
    record { distinct = rw same.0 v.distinct; offered = rw (same.0, same.1) v.offered }

pub Reach-IsValid : {f : Form} → Reach f → IsValid f
Reach-IsValid start = record { distinct = tt; offered = inl refl }
Reach-IsValid (next r s) = Step-IsValid s (Reach-IsValid r)

options-data_disks : (count : ℕ) → All (λ level. 0 < data_disks level count) (level_options count)
unfolding level_options data_disks
options-data_disks count = ground arith

offered-data_disks :
    (count : ℕ) (level : String)
    → includes (level_options count) level ≡ true
    → 0 < data_disks level count
offered-data_disks count level k =
    All-includes _ (level_options count) level (options-data_disks count) k

-- Every level that the list offers for a number of disks has a capacity, if the disks have a
-- size: the list offers no level that so many disks cannot make up.
pub offered-capacity :
    (count m : ℕ) (level : String)
    → 0 < m
    → includes (level_options count) level ≡ true
    → 0 < calc_raid_capacity level count m
offered-capacity count m level h k =
    rw calc-eq-data_disks
      (omega (arith, mul_mono m 1 (data_disks level count) (offered-data_disks count level k)))

offered-count :
    (count : ℕ) (level : String) → includes (level_options count) level ≡ true → 2 ≤ count
unfolding level_options
offered-count count level h = ground arith

submit-sends :
    (confirmed : Bool) (text : String) (f : Form) (c : Call)
    → (submit confirmed text f).1 ≡ some c
    → (confirmed ≡ true) × (f.level ≢ "") × (c ≡ create_array (array_json f))
unfolding submit
submit-sends confirmed text f c h = ground (arith, eq_iff f.level "")

-- Whatever a user did before, the modal asks the server for an array only after the question was
-- answered by yes, and then with at least two disks, none of them twice, and a level that the list
-- offers for that number of disks.
pub create-sends :
    (f : Form) (confirmed : Bool) (text : String) (c : Call)
    → Reach f
    → (submit confirmed text f).1 ≡ some c
    → (c ≡ create_array (array_json f))
      × (confirmed ≡ true)
      × Distinct f.selected
      × (includes (level_options (length f.selected)) f.level ≡ true)
      × (2 ≤ length f.selected)
create-sends f confirmed text c r h =
    let v = Reach-IsValid r in
    let sent = submit-sends confirmed text f c h in
    let offered : includes (level_options (length f.selected)) f.level ≡ true = elim v.offered [
      | inl e ↦ absurd (sent.1 e)
      | inr o ↦ o
    ] in
    (sent.2, sent.0, v.distinct, offered, offered-count _ f.level offered)
