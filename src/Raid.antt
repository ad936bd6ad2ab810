-- ===== src/Raid.antt =====
-- The RAID page: `RaidView` of nasweb/frontend/src/js/app.js and its modals. This module holds the data;
-- the capacities, the selections, the page's state and the table that it shows are its children.
pub mod Capacity
pub mod Create
pub mod Expand
pub mod Page
pub mod Wipe
pub mod Table
pub mod Progress
mod Tests
use ollozuna_nas.Prelude.{ℕ, String, Bool, Option, List}

-- What the page reads of a disk.
pub record Disk : Type 0 where
  pub device : String
  pub size_bytes : ℕ

-- What the server says of an array; `none` where it leaves the devices out.
pub record ArrayInfo : Type 0 where
  pub device : String
  pub level : String
  pub devices : Option (List String)
  pub state : String

-- What the page reads of a filesystem.
pub record Filesystem : Type 0 where
  pub device : String
  pub fstype : String
  pub mount_point : String
  pub is_mounted : Bool

-- The override of an array's state while it is being changed.
pub record Status : Type 0 where
  pub phase : String
  pub progress : ℕ

-- A row of `enrichedArrays`. A set is a list with no item twice, in the order of insertion.
pub record Row : Type 0 where
  pub device : String
  pub level : String
  pub devices : List String
  pub failed_devices : List String
  pub display_state : String
  pub progress : Option ℕ
