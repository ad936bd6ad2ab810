-- ===== src/Shares.antt =====
-- Network shares: `SharesView` of nasweb/frontend/src/js/app.js and the two mappings between what the
-- server keeps and what the forms edit. This module holds the data; a share's saved configuration is the
-- form as it was sent.
pub mod Mapping
pub mod View
pub mod Server
pub mod CifsModal
mod Forms
pub mod NfsModal
pub mod Rules
pub mod Lists
mod Tests
use ollozuna_nas.Prelude.{ℕ, String, Bool, Option, List}

pub record Quota : Type 0 where
  pub enabled : Bool
  pub size : ℕ
  pub unit : String
  pub warning_pct : ℕ

pub record Smb : Type 0 where
  pub network_name : String
  pub min_protocol : String
  pub signing : Bool
  pub encryption : Bool
  pub time_machine : Bool
  pub guest : Bool
  pub oplocks : String
  pub hide_dot_files : Bool
  pub case_sensitivity : String
  pub comment : String
  pub log_access : Bool

pub record UserPerm : Type 0 where
  pub username : String
  pub role : String
  pub perm : String

pub record GroupPerm : Type 0 where
  pub name : String
  pub perm : String

-- The form of a CIFS share; a new one has no id.
pub record CifsForm : Type 0 where
  pub id : Option ℕ
  pub name : String
  pub description : String
  pub volume : String
  pub path : String
  pub create_folder : Bool
  pub recycle_bin : Bool
  pub hidden : Bool
  pub quota : Quota
  pub smb : Smb
  pub users : List UserPerm
  pub groups : List GroupPerm
  pub default_perm : String
  pub status : String
  pub used_gb : ℕ
  pub connections : ℕ
  pub created_at : String
  pub modified_at : String

pub record Adv : Type 0 where
  pub sync : Bool
  pub no_root_squash : Bool
  pub root_squash : Bool
  pub all_squash : Bool
  pub anonuid : ℕ
  pub anongid : ℕ
  pub no_subtree_check : Bool
  pub secure : Bool
  pub crossmnt : Bool

pub record Rule : Type 0 where
  pub id : ℕ
  pub client : String
  pub perm : String
  pub adv_open : Bool
  pub adv : Adv

pub record Versions : Type 0 where
  pub v3 : Bool
  pub v4 : Bool
  pub v41 : Bool
  pub v42 : Bool

pub record Nfsv4 : Type 0 where
  pub domain : String
  pub kerberos : Bool
  pub kdc : String
  pub realm : String
  pub kerberos_mode : String

pub record Global : Type 0 where
  pub fsid : Bool
  pub fsid_num : ℕ
  pub acl : Bool
  pub pnfs : Bool
  pub sec : String
  pub description : String

pub record NfsForm : Type 0 where
  pub id : Option ℕ
  pub name : String
  pub description : String
  pub volume : String
  pub path : String
  pub create_folder : Bool
  pub log_access : Bool
  pub versions : Versions
  pub nfsv4 : Nfsv4
  pub rules : List Rule
  pub global : Global
  pub status : String
  pub created_at : String
  pub modified_at : String

pub data Share : Type 0 where
  cifs : CifsForm → Share
  nfs : NfsForm → Share

-- What is sent when a share is saved.
pub record Payload : Type 0 where
  pub name : String
  pub path : String
  pub protocol : String
  pub read_only : Bool
  pub allowed_ips : List String
  pub valid_users : List String
  pub enabled : Bool
  pub config : Option Share

-- What the server says of a share; lists that it leaves out are empty.
pub record Dto : Type 0 where
  pub id : ℕ
  pub saved : Payload

pub record AppUser : Type 0 where
  pub username : String
  pub role : String
