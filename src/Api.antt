-- ===== src/Api.antt =====
-- The client of the server's interface: nasweb/frontend/src/js/api.js. The browser's `fetch` is an
-- argument: a function from the request to what comes back.
pub mod Uri
pub mod Endpoints
pub mod Csrf
pub mod Replies
pub mod Paths
pub mod Channel
mod Tests
use ollozuna_nas.Prelude.{
  ℕ, String, Bool, true, false, ◌&&◌, not, Option, none, some, List, [], ◌∷◌, ◌++◌, map, ◌==◌, eqb,
  leb, if◌then◌else◌, ◌+++◌, show_ℕ, get_or,
}
use ollozuna_nas.Json.{
  Json, null, bool, num, str, arr, obj, empty, find_member, is_truthy, js_string,
}
use ollozuna_nas.Api.Uri.{encode_uri_component}

pub data Method : Type 0 where
  get post put delete : Method

-- What is asked of the server, before the headers are added.
pub record Endpoint : Type 0 where
  pub method : Method
  pub path : String
  pub body : Option Json

-- A request body: none, a JSON text (kept as the value that it stands for), or form data (the
-- field and the file name of each part; the contents pass through unseen).
pub data Body : Type 0 where
  nothing : Body
  json : Json → Body
  multipart : List (String × String) → Body

pub record HttpRequest : Type 0 where
  pub method : Method
  pub url : String
  pub headers : List (String × String)
  pub credentials : String
  pub body : Body

-- `fetch` fails with a message, or brings a status and, if its text is JSON, the value.
pub data Reply : Type 0 where
  unreachable : String → Reply
  answered : ℕ → Option Json → Reply

-- An `Error` with a message, or the `TypeError` of reading a member of `null`.
pub data Thrown : Type 0 where
  error : String → Thrown
  type_error : Thrown

pub data Outcome : Type 0 where
  returned : Json → Outcome
  threw : Thrown → Outcome

-- How a call ends, and whether the event `session-expired` was dispatched.
pub record Settled : Type 0 where
  pub outcome : Outcome
  pub expired : Bool

-- `csrfToken`: `null` before the login. An empty text counts as none.
abbrev pub Token : Type 0
Token = Option String

is_get : Method → Bool
is_get get = true
is_get _ = false

-- `csrfToken` is truthy.
abbrev csrf_header : Token → List (String × String)
csrf_header none = []
csrf_header (some token) = if token == "" then [] else ("X-CSRF-Token", token) ∷ []

abbrev json_body : Option Json → Body
json_body none = nothing
json_body (some v) = json v

-- The request that `request(method, path, body)` sends.
unfoldable pub prepare : Token → Endpoint → HttpRequest
unfolding is_get
prepare token e = record {
  method = e.method;
  url = "/api" +++ e.path;
  headers =
      ("Content-Type", "application/json") ∷ (if is_get e.method then [] else csrf_header token);
  credentials = "same-origin";
  body = json_body e.body;
}

-- `data.error || "http_" + status` of a reply that is not `ok`, as an error.
failure_message : ℕ → Option Json → Thrown
failure_message status none = error ("http_" +++ show_ℕ status)
failure_message status (some v) =
    error (if is_truthy v then js_string v else "http_" +++ show_ℕ status)

failure : ℕ → Json → Thrown
unfolding failure_message is_truthy js_string
failure status null = type_error
failure status (obj ms) = failure_message status (find_member "error" ms)
failure status _ = failure_message status none

-- `res.ok`.
abbrev pub is_ok : ℕ → Bool
is_ok status = leb 200 status && leb status 299

-- What `request` and `uploadFiles` make of a reply. A text that is not JSON reads as `{}`.
unfoldable pub settle : Reply → Settled
unfolding failure
settle (unreachable message) = record { outcome = threw (error message); expired = false }
settle (answered status body) =
    if eqb status 401
    then record { outcome = threw (error "unauthorized"); expired = true }
    else let v = get_or body (obj empty) in
      record {
        outcome = if is_ok status then returned v else threw (failure status v);
        expired = false;
      }

-- `request(method, path, body)`.
unfoldable pub request : (HttpRequest → Reply) → Token → Endpoint → Settled
request fetch token e = settle (fetch (prepare token e))

-- The request that `uploadFiles(dirPath, files)` sends; the files are given by their names.
unfoldable pub upload_request : Token → String → List String → HttpRequest
upload_request token dir files = record {
  method = post;
  url = "/api/files/upload?path=" +++ encode_uri_component dir;
  headers = csrf_header token;
  credentials = "same-origin";
  body = multipart (map (λ name. ("files", name)) files);
}

unfoldable pub upload_files : (HttpRequest → Reply) → Token → String → List String → Settled
upload_files fetch token dir files = settle (fetch (upload_request token dir files))

unfoldable pub download_url : String → String
download_url path = "/api/files/download?path=" +++ encode_uri_component path
