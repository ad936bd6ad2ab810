-- ===== src/Api/Paths.antt =====
-- How the calls of nasweb/frontend/src/js/api.js put a path of the file manager in a URL.
use ollozuna_nas.Prelude.{String, List, ◌≡◌, refl, sym, ◌+++◌}
use text.Mathlib.TextLemmas.{append-nil}
use ollozuna_nas.Api.{download_url, upload_request, Token}
use ollozuna_nas.Api.Uri.{encode_uri_component}
use ollozuna_nas.Api.Uri.Safety.{
  IsUriSafe, encode_uri_component-IsUriSafe, unescape, utf8_text, unescape-encode,
}
use ollozuna_nas.Api.Endpoints.{list_files, remove_path, qbt_browse, endpoint}

-- The URL is the two fixed texts around a part that is made of unreserved characters and percent
-- signs alone, and that reads back as the text in UTF-8.
pub record Carries (url before after plain : String) : Type 0 where
  pub part : String
  pub whole : url ≡ before +++ part +++ after
  pub safe : IsUriSafe part
  pub read_back : unescape part ≡ utf8_text plain

Carries-whole :
    (before after plain : String)
    → Carries (before +++ encode_uri_component plain +++ after) before after plain
Carries-whole before after plain = record {
  part = encode_uri_component plain;
  whole = refl;
  safe = encode_uri_component-IsUriSafe plain;
  read_back = unescape-encode plain;
}

Carries-last :
    (before plain : String) → Carries (before +++ encode_uri_component plain) before "" plain
Carries-last before plain = record {
  part = encode_uri_component plain;
  whole = sym (append-nil (before +++ encode_uri_component plain));
  safe = encode_uri_component-IsUriSafe plain;
  read_back = unescape-encode plain;
}

-- Whatever a file is called, the links and calls of the file manager carry its path whole: the
-- server reads the path back, and no character of it can end the parameter or add one, so that the
-- confirmation of a removal stays a parameter of its own.
pub paths-Carried :
    (token : Token) (path : String) (files : List String)
    → Carries (download_url path) "/api/files/download?path=" "" path
      × Carries (upload_request token path files).url "/api/files/upload?path=" "" path
      × Carries (endpoint (list_files path)).path "/files/?path=" "" path
      × Carries (endpoint (qbt_browse path)).path "/apps/qbt/browse?path=" "" path
      × Carries (endpoint (remove_path path)).path "/files/?path=" "&confirm=true" path
unfolding download_url upload_request endpoint
paths-Carried token path files = (
  Carries-last "/api/files/download?path=" path,
  Carries-last "/api/files/upload?path=" path,
  Carries-last "/files/?path=" path,
  Carries-last "/apps/qbt/browse?path=" path,
  Carries-whole "/files/?path=" "&confirm=true" path,
)
