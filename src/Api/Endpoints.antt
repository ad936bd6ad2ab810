-- ===== src/Api/Endpoints.antt =====
-- The calls of the object `api` of nasweb/frontend/src/js/api.js, and the endpoint that each asks.
pub mod Devices
use ollozuna_nas.Prelude.{
  ℕ, String, true, Option, none, some, ◌==◌, eqb, if◌then◌else◌, ◌+++◌, show_ℕ, strip_prefix,
  get_or,
}
use ollozuna_nas.Json.{Json, bool, str, obj, empty, member}
use ollozuna_nas.Api.{Endpoint, Method, get, post, put, delete}
use ollozuna_nas.Api.Uri.{encode_uri_component as enc}

pub data Call : Type 0 where
  login : String → String → Call
  logout me list_users : Call
  create_user : Json → Call
  delete_user : String → Call
  set_password : String → String → Call
  list_groups list_arrays list_disks : Call
  create_array : Json → Call
  delete_array : String → Call
  list_filesystems : Call
  create_filesystem mount_filesystem : String → String → String → Call
  unmount_filesystem grow_filesystem : String → String → Call
  delete_filesystem smart wipe_disk : String → Call
  add_disk remove_disk : String → String → Call
  list_shares : Call
  create_share : Json → Call
  update_share : ℕ → Json → Call
  delete_share : ℕ → Call
  list_files make_dir : String → Call
  rename_path chmod : String → String → Call
  remove_path : String → Call
  list_media_dirs list_media_files qbt_status qbt_volumes : Call
  qbt_browse : String → Call
  qbt_make_dir : String → String → Call
  qbt_validate qbt_configure : Json → Call
  qbt_start qbt_stop : Call
  admin_logs : String → ℕ → Call
  admin_reboot admin_shutdown : Call
  add_media_dir : Json → Call
  remove_media_dir : String → Call
  dlna_rescan : Call

abbrev ask : Method → String → Endpoint
ask m path = record { method = m; path = path; body = none }

abbrev send : Method → String → Json → Endpoint
send m path v = record { method = m; path = path; body = some v }

abbrev field1 : String → Json → Json
field1 k v = obj (member k v empty)

abbrev field2 : String → Json → String → Json → Json
field2 k v j w = obj (member k v (member j w empty))

-- `md.replace(/^\/dev\//, "")`.
unfoldable pub strip_dev : String → String
unfolding strip_prefix
strip_dev md = get_or (strip_prefix "/dev/" md) md

array_path : String → String
array_path md = "/raid/arrays/" +++ enc (strip_dev md)

mount_body : String → String → Json
mount_body fstype mount_point = obj (
    member "fstype" (str fstype)
      (member "mount_point" (str mount_point) (member "confirm" (bool true) empty)))

unfoldable pub endpoint : Call → Endpoint
unfolding array_path mount_body
endpoint (login username password) =
    send post "/auth/login" (field2 "username" (str username) "password" (str password))
endpoint logout = ask post "/auth/logout"
endpoint me = ask get "/auth/me"
endpoint list_users = ask get "/users/"
endpoint (create_user u) = send post "/users/" u
endpoint (delete_user name) = ask delete ("/users/" +++ enc name)
endpoint (set_password name password) =
    send post ("/users/" +++ enc name +++ "/password") (field1 "password" (str password))
endpoint list_groups = ask get "/groups"
endpoint list_arrays = ask get "/raid/arrays"
endpoint list_disks = ask get "/raid/disks"
endpoint (create_array a) = send post "/raid/arrays" a
endpoint (delete_array md) = ask delete (array_path md +++ "?confirm=true")
endpoint list_filesystems = ask get "/raid/filesystems"
endpoint (create_filesystem md fstype mount_point) =
    send post (array_path md +++ "/filesystem") (mount_body fstype mount_point)
endpoint (mount_filesystem md fstype mount_point) =
    send post (array_path md +++ "/filesystem/mount") (mount_body fstype mount_point)
endpoint (unmount_filesystem md mount_point) =
    send post (array_path md +++ "/filesystem/unmount")
      (field2 "mount_point" (str mount_point) "confirm" (bool true))
endpoint (grow_filesystem md fstype) =
    send post (array_path md +++ "/filesystem/grow") (field1 "fstype" (str fstype))
endpoint (delete_filesystem md) = ask delete (array_path md +++ "/filesystem?confirm=true")
endpoint (smart device) = ask get ("/raid/disks/" +++ enc device +++ "/smart")
endpoint (wipe_disk device) =
    send post ("/raid/disks/" +++ enc (strip_dev device) +++ "/wipe") (field1 "confirm" (bool true))
endpoint (add_disk md disk) =
    send post ("/raid/arrays/" +++ enc md +++ "/disks") (field1 "disk" (str disk))
endpoint (remove_disk md disk) = ask delete ("/raid/arrays/" +++ enc md +++ "/disks/" +++ enc disk)
endpoint list_shares = ask get "/shares/"
endpoint (create_share s) = send post "/shares/" s
endpoint (update_share id s) = send put ("/shares/" +++ show_ℕ id) s
endpoint (delete_share id) = ask delete ("/shares/" +++ show_ℕ id +++ "?confirm=true")
endpoint (list_files path) = ask get ("/files/?path=" +++ enc path)
endpoint (make_dir path) = send post "/files/mkdir" (field1 "path" (str path))
endpoint (rename_path src dst) = send post "/files/rename" (field2 "src" (str src) "dst" (str dst))
endpoint (chmod path mode) = send post "/files/chmod" (field2 "path" (str path) "mode" (str mode))
endpoint (remove_path path) = ask delete ("/files/?path=" +++ enc path +++ "&confirm=true")
endpoint list_media_dirs = ask get "/dlna/dirs"
endpoint list_media_files = ask get "/dlna/files"
endpoint qbt_status = ask get "/apps/qbt/status"
endpoint qbt_volumes = ask get "/apps/qbt/volumes"
endpoint (qbt_browse path) = ask get ("/apps/qbt/browse?path=" +++ enc path)
endpoint (qbt_make_dir parent name) =
    send post "/apps/qbt/mkdir" (field2 "parent" (str parent) "name" (str name))
endpoint (qbt_validate cfg) = send post "/apps/qbt/validate" cfg
endpoint (qbt_configure cfg) = send post "/apps/qbt/configure" cfg
endpoint qbt_start = send post "/apps/qbt/start" (obj empty)
endpoint qbt_stop = send post "/apps/qbt/stop" (obj empty)
endpoint (admin_logs unit lines) =
    ask get (
      "/admin/logs?unit="
      +++ enc unit
      +++ "&lines="
      +++ show_ℕ (if eqb lines 0 then 300 else lines))
endpoint admin_reboot = send post "/admin/reboot" (obj empty)
endpoint admin_shutdown = send post "/admin/shutdown" (obj empty)
endpoint (add_media_dir d) = send post "/dlna/dirs" d
endpoint (remove_media_dir path) = ask delete ("/dlna/dirs?path=" +++ enc path)
endpoint dlna_rescan = ask post "/dlna/rescan"
