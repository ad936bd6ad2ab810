-- ===== src/Shares/View.antt =====
-- The state of `SharesView` of nasweb/frontend/src/js/app.js and its handlers. A handler is given the server's
-- answer to its call: the message of a refusal, or none.
pub mod Toggle
use ollozuna_nas.Prelude.{
  ℕ, String, Bool, true, false, not, ◌&&◌, ◌||◌, Option, none, some, List, [], ◌∷◌, ◌++◌, map, ◌==◌,
  eqb, if◌then◌else◌, ◌+++◌, filterb, find_first, length,
}
use ollozuna_nas.Raid.Page.Message.{replace_first}
use ollozuna_nas.Shares.{CifsForm, NfsForm, Share, cifs, nfs, Payload, Dto, AppUser}
use ollozuna_nas.Shares.Mapping.{map_share_from_api, map_cifs_to_api, map_nfs_to_api}

-- What the view reads of a mounted filesystem, a user and a group.
pub record Mounted : Type 0 where
  pub device : String
  pub level : String
  pub mount_point : String
  pub fstype : String
  pub used_bytes : ℕ
  pub state : String

pub record ApiUser : Type 0 where
  pub username : String
  pub is_admin : Bool

pub record Volume : Type 0 where
  pub name : String
  pub raid : String
  pub mount : String
  pub used_bytes : ℕ
  pub state : String

-- The view; the modal and the panel are known by whether they are open and by their share's id.
pub record View : Type 0 where
  pub cifs_list : List CifsForm
  pub nfs_list : List NfsForm
  pub volumes : List Volume
  pub app_users : List AppUser
  pub app_groups : List String
  pub loading : Bool
  pub api_err : Option String
  pub modal : Bool
  pub panel : Option ℕ

-- What a handler does besides: it asks for a change, an update with or without `confirm: true`, shows a
-- message, or loads everything again.
pub data Effect : Type 0 where
  create : Payload → Effect
  update : ℕ → Bool → Payload → Effect
  delete : ℕ → Effect
  toast : String → String → Effect
  reload : Effect

unfoldable pub volume : Mounted → Volume
volume fs = record {
  name = replace_first "/dev/" "" fs.device;
  raid = "RAID" +++ fs.level;
  mount = fs.mount_point;
  used_bytes = fs.used_bytes;
  state = fs.state;
}

unfoldable pub app_user : ApiUser → AppUser
app_user u = record { username = u.username; role = if u.is_admin then "Admin" else "User" }

-- The loop that sorts the shares by their protocol.
unfoldable pub cifs_shares : List AppUser → List Dto → List Share
cifs_shares ulist dtos =
    map (λ d. map_share_from_api d ulist) (filterb (λ (d : Dto). d.saved.protocol == "smb") dtos)

unfoldable pub nfs_shares : List AppUser → List Dto → List Share
nfs_shares ulist dtos =
    map (λ d. map_share_from_api d ulist)
      (filterb (λ (d : Dto). not (d.saved.protocol == "smb")) dtos)

-- `data.id ? …`: an id of 0 counts as none.
abbrev pub known_id : Option ℕ → Option ℕ
known_id none = none
known_id (some i) = if eqb i 0 then none else some i

-- The call that saves a form under its id, or makes a new share.
unfoldable pub saving : Option ℕ → Payload → Effect
saving none p = create p
saving (some i) p = update i true p

saved_message : Option ℕ → String → String
saved_message none name = "\"" +++ name +++ "\" created"
saved_message (some _) name = "\"" +++ name +++ "\" updated"

-- `e.message || fallback`.
abbrev message_or : String → String → String
message_or message fallback = if message == "" then fallback else message

load_all : View → View
load_all v = record v { loading = true }

unfoldable pub save_end : View → Option ℕ → String → Option String → View × List Effect
unfolding load_all saved_message
save_end v id name none =
    (load_all (record v { modal = false }), toast (saved_message id name) "ok" ∷ reload ∷ [])
save_end v id name (some m) = (v, toast (message_or m "Error saving share") "error" ∷ [])

unfoldable pub handle_save : View → Option ℕ → String → Payload → Option String → View × List Effect
unfolding save_end saving
handle_save v id name p answer =
    let r = save_end v (known_id id) name answer in (r.0, saving (known_id id) p ∷ r.1)

unfoldable pub handle_cifs_save : View → CifsForm → Option String → View × List Effect
unfolding handle_save
handle_cifs_save v f answer = handle_save v f.id f.name (map_cifs_to_api f) answer

unfoldable pub handle_nfs_save : View → NfsForm → Option String → View × List Effect
unfolding handle_save
handle_nfs_save v f answer = handle_save v f.id f.name (map_nfs_to_api f) answer

-- The panel of the deleted share is closed.
abbrev close_panel : Option ℕ → ℕ → Option ℕ
close_panel none id = none
close_panel (some i) id = if eqb i id then none else some i

unfoldable pub delete_end : View → ℕ → String → Option String → View × List Effect
unfolding load_all
delete_end v id name none = (
  load_all (record v { modal = false; panel = close_panel v.panel id }),
  toast ("\"" +++ name +++ "\" removed") "ok" ∷ reload ∷ [],
)
delete_end v id name (some m) = (v, toast (message_or m "Error deleting") "error" ∷ [])

unfoldable pub handle_delete : View → ℕ → String → Option String → View × List Effect
unfolding delete_end
handle_delete v id name answer = let r = delete_end v id name answer in (r.0, delete id ∷ r.1)

-- The share of a list with this id.
abbrev pub has_id : Option ℕ → ℕ → Bool
has_id none id = false
has_id (some i) id = eqb i id

unfoldable pub toggle_end : View → String → String → Option String → View × List Effect
unfolding load_all
toggle_end v name status none = (
  load_all v,
  toast
        (if status == "active"
          then "\"" +++ name +++ "\" disabled"
          else "\"" +++ name +++ "\" enabled")
        "ok"
      ∷ reload
      ∷ [],
)
toggle_end v name status (some m) = (v, toast (message_or m "Error") "error" ∷ [])

-- What is sent when the share with this status is switched on or off.
unfoldable pub toggled : Payload → String → Payload
toggled p status = record p { enabled = not (status == "active") }

unfoldable pub toggle_share :
    View → ℕ → String → String → Payload → Option String → View × List Effect
unfolding toggled toggle_end
toggle_share v id name status p answer =
    let r = toggle_end v name status answer in (r.0, update id true (toggled p status) ∷ r.1)

unfoldable pub toggle_cifs : View → ℕ → Option String → Option CifsForm → View × List Effect
unfolding toggle_share
toggle_cifs v id answer none = (v, [])
toggle_cifs v id answer (some f) = toggle_share v id f.name f.status (map_cifs_to_api f) answer

unfoldable pub toggle_nfs : View → ℕ → Option String → Option NfsForm → View × List Effect
unfolding toggle_share
toggle_nfs v id answer none = (v, [])
toggle_nfs v id answer (some f) = toggle_share v id f.name f.status (map_nfs_to_api f) answer

-- `handleToggle`: the first argument is whether the type is `cifs`.
unfoldable pub handle_toggle : Bool → View → ℕ → Option String → View × List Effect
unfolding toggle_cifs toggle_nfs
handle_toggle true v id answer =
    toggle_cifs v id answer (find_first (λ (f : CifsForm). has_id f.id id) v.cifs_list)
handle_toggle false v id answer =
    toggle_nfs v id answer (find_first (λ (f : NfsForm). has_id f.id id) v.nfs_list)

-- `loadAll`, once its four answers are there. A share of each protocol is of its own form, as the
-- server keeps the configuration that the form of its protocol sent.
unfoldable pub cifs_forms : List Share → List CifsForm
cifs_forms [] = []
cifs_forms (cifs f ∷ ss) = f ∷ cifs_forms ss
cifs_forms (nfs _ ∷ ss) = cifs_forms ss

unfoldable pub nfs_forms : List Share → List NfsForm
nfs_forms [] = []
nfs_forms (nfs f ∷ ss) = f ∷ nfs_forms ss
nfs_forms (cifs _ ∷ ss) = nfs_forms ss

unfoldable pub loaded : View → List Dto → List Mounted → List ApiUser → List String → View
unfolding volume app_user cifs_shares nfs_shares cifs_forms nfs_forms
loaded v dtos fs us gs =
    let ulist = map app_user us in
    record v {
      volumes =
          map volume
            (filterb (λ (m : Mounted). not (m.mount_point == "") && not (m.fstype == "")) fs);
      app_users = ulist;
      app_groups = filterb (λ g. not (g == "")) gs;
      cifs_list = cifs_forms (cifs_shares ulist dtos);
      nfs_list = nfs_forms (nfs_shares ulist dtos);
      api_err = none;
      loading = false;
    }

unfoldable pub load_failed : View → String → View
load_failed v message = record v { api_err = some message; loading = false }
