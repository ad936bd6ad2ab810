-- ===== src/Api/Tests.antt =====
-- Runs of the client, and its theorems at inputs that meet their hypotheses.
use ollozuna_nas.Prelude.{
  ◌+◌, true, Option, none, some, List, [], ◌∷◌, ◌≡◌, ◌↔◌, refl, ◌+++◌, show_ℕ,
}
use ollozuna_nas.Json.{Json, str, obj, empty, member, find_member}
use ollozuna_nas.Api.{
  HttpRequest, Reply, download_url, upload_request, answered, returned, threw, error, request,
  prepare, failure, settle,
}
use ollozuna_nas.Api.Uri.{encode_uri_component}
use ollozuna_nas.Api.Paths.{Carries, paths-Carried}
use ollozuna_nas.Api.Endpoints.{
  list_users, delete_array, create_filesystem, mount_filesystem, unmount_filesystem,
  delete_filesystem, grow_filesystem, add_disk, remove_disk, list_files, remove_path, qbt_browse,
  endpoint,
}
use ollozuna_nas.Api.Endpoints.Devices.{array_segment}
use ollozuna_nas.Api.Replies.{Succeeds, request-returned_iff, request-expired_iff}
use ollozuna_nas.Api.Channel.{Channel, Event, shown, hidden, broken, timer, run, ws_url}
use ollozuna_nas.Api.Channel.Leak.{IsValid, channels, views, channels-run}

-- A server whose session is over.
abbrev refusing : HttpRequest → Reply
refusing _ = answered 401 none

request_tests :
    ((settle (answered 409 (some (obj (member "error" (str "in_use") empty))))).outcome
      ≡ threw (error "in_use"))
    × ((settle (answered 500 none)).outcome ≡ threw (error "http_500"))
    × ((settle (answered 200 none)).outcome ≡ returned (obj empty))
    × (ws_url "https:" "nas:8443" ≡ "wss://nas:8443/ws")
unfolding settle ws_url failure find_member show_ℕ
request_tests = (refl, refl, refl, refl)

paths-Carried_example :
    Carries (download_url "/a/b&c") "/api/files/download?path=" "" "/a/b&c"
    × Carries
        (upload_request none "/a/b&c" ("x.txt" ∷ [])).url
        "/api/files/upload?path="
        ""
        "/a/b&c"
    × Carries (endpoint (list_files "/a/b&c")).path "/files/?path=" "" "/a/b&c"
    × Carries (endpoint (qbt_browse "/a/b&c")).path "/apps/qbt/browse?path=" "" "/a/b&c"
    × Carries (endpoint (remove_path "/a/b&c")).path "/files/?path=" "&confirm=true" "/a/b&c"
paths-Carried_example = paths-Carried none "/a/b&c" ("x.txt" ∷ [])

array_segment_example :
    ((endpoint (delete_array ("/dev/" +++ "md0"))).path
      ≡ "/raid/arrays/" +++ encode_uri_component "md0" +++ "?confirm=true")
    × ((endpoint (create_filesystem ("/dev/" +++ "md0") "ext4" "/srv/a")).path
        ≡ "/raid/arrays/" +++ encode_uri_component "md0" +++ "/filesystem")
    × ((endpoint (mount_filesystem ("/dev/" +++ "md0") "ext4" "/srv/a")).path
        ≡ "/raid/arrays/" +++ encode_uri_component "md0" +++ "/filesystem/mount")
    × ((endpoint (unmount_filesystem ("/dev/" +++ "md0") "/srv/a")).path
        ≡ "/raid/arrays/" +++ encode_uri_component "md0" +++ "/filesystem/unmount")
    × ((endpoint (grow_filesystem ("/dev/" +++ "md0") "ext4")).path
        ≡ "/raid/arrays/" +++ encode_uri_component "md0" +++ "/filesystem/grow")
    × ((endpoint (delete_filesystem ("/dev/" +++ "md0"))).path
        ≡ "/raid/arrays/" +++ encode_uri_component "md0" +++ "/filesystem?confirm=true")
    × ((endpoint (add_disk ("/dev/" +++ "md0") "sdb")).path
        ≡ "/raid/arrays/" +++ ("%2Fdev%2F" +++ encode_uri_component "md0") +++ "/disks")
    × ((endpoint (remove_disk ("/dev/" +++ "md0") "sdb")).path
        ≡ "/raid/arrays/"
          +++ ("%2Fdev%2F" +++ encode_uri_component "md0")
          +++ "/disks/"
          +++ encode_uri_component "sdb")
array_segment_example = array_segment "md0" "sdb" "ext4" "/srv/a"

-- A server that answers with the fallback page, which is no JSON.
abbrev fallback : HttpRequest → Reply
fallback _ = answered 200 none

request-returned_iff_example :
    ((request fallback none (endpoint list_users)).outcome ≡ returned (obj empty))
    ↔ Succeeds (fallback (prepare none (endpoint list_users))) (obj empty)
request-returned_iff_example = request-returned_iff fallback none (endpoint list_users) (obj empty)

request-expired_iff_example : ((request refusing none (endpoint list_users)).expired ≡ true) ↔ (
    (body : Option Json) × (refusing (prepare none (endpoint list_users)) ≡ answered 401 body)
    × ((request refusing none (endpoint list_users)).outcome ≡ threw (error "unauthorized")))
request-expired_iff_example = request-expired_iff refusing none (endpoint list_users)

abbrev idle : Channel
idle = record { next = 0; live = []; timers = 0 }

abbrev visits : List Event
visits = shown ∷ hidden 0 ∷ timer ∷ broken 1 ∷ shown ∷ []

channels-run_example :
    IsValid (run idle visits) × (channels (run idle visits) ≡ channels idle + views visits)
channels-run_example = channels-run idle visits tt
