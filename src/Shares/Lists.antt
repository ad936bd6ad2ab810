-- ===== src/Shares/Lists.antt =====
-- The two lists of shares, `CIFSTab` and `NFSTab`, and `DeleteShareModal`, of nasweb/frontend/src/js/app.js. `lower` is
-- the browser's `toLowerCase`, with the tables of Unicode that it follows.
pub mod Found
use ollozuna_nas.Prelude.{
  ℕ, String, Bool, true, false, not, ◌&&◌, ◌||◌, List, [], ◌∷◌, ◌++◌, ◌==◌, filterb, contains, join,
  length, if◌then◌else◌,
}
use ollozuna_nas.Shares.{CifsForm, NfsForm, Versions}

abbrev matches : String → String → String → Bool
matches q name path = q == "" || contains q name || contains q path

abbrev pub has_version : String → Versions → Bool
has_version filter v =
    filter == "NFSv3" && v.v3
    || filter == "NFSv4" && v.v4
    || filter == "NFSv4.1" && v.v41
    || filter == "NFSv4.2" && v.v42

module _ (lower : String → String) where
  unfoldable pub filtered_cifs : String → String → String → List CifsForm → List CifsForm
  filtered_cifs search volume status shares =
      filterb
        (λ (s : CifsForm).
          matches (lower search) s.name s.path
          && (volume == "" || s.volume == volume)
          && (status == "" || s.status == status))
        shares

  unfoldable pub filtered_nfs : String → String → String → List NfsForm → List NfsForm
  filtered_nfs search volume version shares =
      filterb
        (λ (s : NfsForm).
          matches (lower search) s.name s.path
          && (volume == "" || s.volume == volume)
          && (version == "" || has_version version s.versions))
        shares

-- `renderVers`.
only_if : Bool → String → List String → List String
only_if b s rest = if b then s ∷ rest else rest

unfoldable pub render_vers : Versions → String
unfolding only_if
render_vers v =
    let text = join ", " (
      only_if v.v3 "NFSv3"
        (only_if v.v4 "NFSv4" (only_if v.v41 "NFSv4.1" (only_if v.v42 "NFSv4.2" [])))) in
    if text == "" then "—" else text

-- The numbers above the lists.
unfoldable pub cifs_active : List CifsForm → ℕ
cifs_active shares = length (filterb (λ (s : CifsForm). s.status == "active") shares)

unfoldable pub nfs_active : List NfsForm → ℕ
nfs_active shares = length (filterb (λ (s : NfsForm). s.status == "active") shares)

-- The button that removes a share is enabled once the box is checked.
pub record Removal : Type 0 where
  pub confirmed : Bool

unfoldable pub check_box : Bool → Removal
check_box b = record { confirmed = b }

unfoldable pub can_remove : Removal → Bool
can_remove r = r.confirmed
