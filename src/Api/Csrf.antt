-- ===== src/Api/Csrf.antt =====
-- The CSRF token between the client and the server: the headers of `request`, nasweb/frontend/src/js/api.js,
-- and the test of `CSRF`, nasweb/backend/internal/middleware/middleware.go.
use ollozuna_nas.Prelude.{
  String, Bool, true, false, not, ◌&&◌, ◌||◌, Option, none, some, List, [], ◌∷◌, ◌==◌,
  if◌then◌else◌,
}
use ollozuna_nas.Api.{Method, get, HttpRequest}

-- `r.Header.Get`: the value of the first header with the name, or the empty text.
unfoldable pub header_of : String → List (String × String) → String
header_of name [] = ""
header_of name ((n, v) ∷ hs) = if n == name then v else header_of name hs

-- `r.Method == http.MethodGet`; the client uses neither `HEAD` nor `OPTIONS`.
unfoldable pub is_safe : Method → Bool
is_safe get = true
is_safe _ = false

-- Whether the header is the token of the session, if there is one.
unfoldable pub is_session : Option String → String → Bool
is_session none header = false
is_session (some token) header = not (header == "") && header == token

-- Whether `CSRF(enabled)` hands the request on, with the token of the session that `Auth` found.
unfoldable pub admits : Bool → Option String → HttpRequest → Bool
unfolding is_safe is_session header_of
admits enabled session r =
    not enabled || is_safe r.method || is_session session (header_of "X-CSRF-Token" r.headers)
