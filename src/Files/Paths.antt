-- ===== src/Files/Paths.antt =====
-- The paths of the file manager: `joinPath`, `parentPath` and the breadcrumb of nasweb/frontend/src/js/app.js.
pub mod Parents
pub mod Crumbs
use Prim.Native.String
use ollozuna_nas.Prelude.{
  ℕ, zero, suc, String, code, Bool, true, false, not, ◌&&◌, Option, none, some, List, [], ◌∷◌, ◌++◌,
  ◌==◌, eqb, if◌then◌else◌, ◌+++◌, split, join, filterb, single,
}

-- `s.endsWith("/")`.
unfoldable pub ends_with_slash : String → Bool
ends_with_slash String.[] = false
ends_with_slash (String.◌∷◌ c String.[]) = eqb (code c) b'/'
ends_with_slash (String.◌∷◌ _ (String.◌∷◌ d s)) = ends_with_slash (String.◌∷◌ d s)

unfoldable pub join_path : String → String → String
unfolding ends_with_slash
join_path base name = (if ends_with_slash base then base else base +++ "/") +++ name

-- `p.replace(/\/+$/, "")`.
unfoldable pub trim_slashes : String → String
trim_slashes String.[] = ""
trim_slashes (String.◌∷◌ c s) =
    let rest = trim_slashes s in if eqb (code c) b'/' && rest == "" then "" else String.◌∷◌ c rest

-- `s.lastIndexOf("/")`; `none` is -1.
or_here : Bool → Option ℕ → Option ℕ
or_here here (some i) = some (suc i)
or_here true none = some 0
or_here false none = none

unfoldable pub last_slash : String → Option ℕ
unfolding or_here
last_slash String.[] = none
last_slash (String.◌∷◌ c s) = or_here (eqb (code c) b'/') (last_slash s)

-- `s.slice(0, i)`.
unfoldable pub prefix_of : ℕ → String → String
prefix_of zero s = ""
prefix_of (suc i) String.[] = ""
prefix_of (suc i) (String.◌∷◌ c s) = String.◌∷◌ c (prefix_of i s)

slice_parent : String → Option ℕ → String
unfolding prefix_of
slice_parent p none = "/"
slice_parent p (some zero) = "/"
slice_parent p (some (suc i)) = prefix_of (suc i) p

unfoldable pub parent_path : String → String
unfolding slice_parent trim_slashes last_slash
parent_path p = slice_parent p (last_slash (trim_slashes p))

-- `path.split("/").filter(Boolean)`.
unfoldable pub segments : String → List String
segments path = filterb (λ s. not (s == "")) (split b'/' path)

-- `"/" + segments.slice(0, i + 1).join("/")` for each segment.
crumbs_from : List String → List String → List String
crumbs_from before [] = []
crumbs_from before (s ∷ ss) =
    ("/" +++ join "/" (before ++ s ∷ [])) ∷ crumbs_from (before ++ s ∷ []) ss

unfoldable pub crumbs : String → List String
unfolding crumbs_from
crumbs path = crumbs_from [] (segments path)
