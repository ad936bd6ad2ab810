-- ===== src/Api/Endpoints/Devices.antt =====
-- How the calls of nasweb/frontend/src/js/api.js name an array in their URL.
use ollozuna_nas.Prelude.{String, ◌≡◌, ◌+++◌, strip_prefix-append}
use ollozuna_nas.Api.Uri.{encode_uri_component, encode_uri_component as enc}
use ollozuna_nas.Api.Uri.Safety.{encode-append}
use ollozuna_nas.Api.Endpoints.{
  delete_array, create_filesystem, mount_filesystem, unmount_filesystem, delete_filesystem,
  grow_filesystem, add_disk, remove_disk, strip_dev, endpoint,
}

strip_dev_of_dev : (name : String) → strip_dev ("/dev/" +++ name) ≡ name
unfolding strip_dev
strip_dev_of_dev name = rw (strip_prefix-append "/dev/" name)

enc-dev : (name : String) → enc ("/dev/" +++ name) ≡ "%2Fdev%2F" +++ enc name
unfolding encode_uri_component
enc-dev name = encode-append "/dev/" name

-- The segment of the URL that names the array: deleting an array, and making, mounting, unmounting, growing
-- and deleting its filesystem, drop a leading `/dev/` from the device's path, whereas `addDisk` and `removeDisk`
-- escape the whole path, so that for one and the same device they ask for another array,
-- `%2Fdev%2Fmd0` for `md0`.
pub array_segment :
    (name disk fstype mount_point : String)
    → ((endpoint (delete_array ("/dev/" +++ name))).path
        ≡ "/raid/arrays/" +++ enc name +++ "?confirm=true")
      × ((endpoint (create_filesystem ("/dev/" +++ name) fstype mount_point)).path
          ≡ "/raid/arrays/" +++ enc name +++ "/filesystem")
      × ((endpoint (mount_filesystem ("/dev/" +++ name) fstype mount_point)).path
          ≡ "/raid/arrays/" +++ enc name +++ "/filesystem/mount")
      × ((endpoint (unmount_filesystem ("/dev/" +++ name) mount_point)).path
          ≡ "/raid/arrays/" +++ enc name +++ "/filesystem/unmount")
      × ((endpoint (grow_filesystem ("/dev/" +++ name) fstype)).path
          ≡ "/raid/arrays/" +++ enc name +++ "/filesystem/grow")
      × ((endpoint (delete_filesystem ("/dev/" +++ name))).path
          ≡ "/raid/arrays/" +++ enc name +++ "/filesystem?confirm=true")
      × ((endpoint (add_disk ("/dev/" +++ name) disk)).path
          ≡ "/raid/arrays/" +++ ("%2Fdev%2F" +++ enc name) +++ "/disks")
      × ((endpoint (remove_disk ("/dev/" +++ name) disk)).path
          ≡ "/raid/arrays/" +++ ("%2Fdev%2F" +++ enc name) +++ "/disks/" +++ enc disk)
unfolding endpoint
array_segment name disk fstype mount_point = (
  rw strip_dev_of_dev,
  rw strip_dev_of_dev,
  rw strip_dev_of_dev,
  rw strip_dev_of_dev,
  rw strip_dev_of_dev,
  rw strip_dev_of_dev,
  rw enc-dev,
  rw enc-dev,
)
