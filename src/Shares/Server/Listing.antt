-- ===== src/Shares/Server/Listing.antt =====
-- What the view finds in its two lists once a listing is loaded (`loadAll` of `SharesView`,
-- nasweb/frontend/src/js/app.js).
use ollozuna_nas.Prelude.{
  ℕ, true, Option, none, some, List, [], ◌∷◌, ◌==◌, eqb, eqb_iff, find_first, All, ◌≡◌, refl, ap,
  ◌∙◌, arith, inl, inr, Bool-cases,
}
use mathlib.Core.Path.{subst}
use ollozuna_nas.Shares.{CifsForm, NfsForm, Share, cifs, nfs, Dto, AppUser}
use ollozuna_nas.Shares.Mapping.{map_share_from_api}
use ollozuna_nas.Shares.View.{cifs_shares, nfs_shares, cifs_forms, nfs_forms, has_id}
use ollozuna_nas.Shares.Server.{find_dto, Distinct, MatchesSelf, smb-IsCifs, other-IsNfs}

abbrev pub cifs_at : List CifsForm → ℕ → Option CifsForm
cifs_at fs id = find_first (λ (f : CifsForm). has_id f.id id) fs

abbrev pub nfs_at : List NfsForm → ℕ → Option NfsForm
nfs_at fs id = find_first (λ (f : NfsForm). has_id f.id id) fs

abbrev pub or_nfs : Option CifsForm → Option NfsForm → Option Share
or_nfs (some f) _ = some (cifs f)
or_nfs none (some f) = some (nfs f)
or_nfs none none = none

-- The share of a view's lists with an id.
unfoldable pub share_in : List CifsForm → List NfsForm → ℕ → Option Share
share_in cs ns id = or_nfs (cifs_at cs id) (nfs_at ns id)

abbrev pub shown : List AppUser → Option Dto → Option Share
shown ulist none = none
shown ulist (some d) = some (map_share_from_api d ulist)

abbrev pub cifs_part : Option Share → Option CifsForm
cifs_part (some (cifs f)) = some f
cifs_part _ = none

abbrev pub nfs_part : Option Share → Option NfsForm
nfs_part (some (nfs f)) = some f
nfs_part _ = none

abbrev pub AllMatch : List Dto → Type 0
AllMatch dtos = All (λ (d : Dto). MatchesSelf d.saved) dtos

found_alone :
    (d : Dto) (ds : List Dto) (id : ℕ)
    → find_dto ds d.id ≡ none
    → eqb d.id id ≡ true
    → find_dto ds id ≡ none
found_alone d ds id alone same = subst (λ k. find_dto ds k ≡ none) ((eqb_iff d.id id).0 same) alone

pub cifs_at-loaded :
    (ulist : List AppUser) (dtos : List Dto) (id : ℕ)
    → Distinct dtos
    → AllMatch dtos
    → cifs_at (cifs_forms (cifs_shares ulist dtos)) id ≡ cifs_part (shown ulist (find_dto dtos id))
unfolding cifs_forms cifs_shares Distinct map_share_from_api
cifs_at-loaded ulist [] id _ _ = refl
cifs_at-loaded ulist (d ∷ ds) id (alone, apart) (m, ms) =
    let rest = cifs_at-loaded ulist ds id apart ms in
    elim (Bool-cases (d.saved.protocol == "smb")) [
      | inl smb ↦
          let s = smb-IsCifs d ulist d.saved.config m smb in
          elim (Bool-cases (eqb d.id id)) [
            | inl same ↦ rw (smb, s.is_form, s.own_id, same, s.is_form) refl
            | inr differs ↦ rw (smb, s.is_form, s.own_id, differs) rest
          ]
      | inr other ↦
          let s = other-IsNfs d ulist d.saved.config m other in
          elim (Bool-cases (eqb d.id id)) [
            | inl same ↦
                rw (other, same, s.is_form)
                  (rest ∙ ap (λ o. cifs_part (shown ulist o)) (found_alone d ds id alone same))
            | inr differs ↦ rw (other, differs) rest
          ]
    ]

pub nfs_at-loaded :
    (ulist : List AppUser) (dtos : List Dto) (id : ℕ)
    → Distinct dtos
    → AllMatch dtos
    → nfs_at (nfs_forms (nfs_shares ulist dtos)) id ≡ nfs_part (shown ulist (find_dto dtos id))
unfolding nfs_forms nfs_shares Distinct map_share_from_api
nfs_at-loaded ulist [] id _ _ = refl
nfs_at-loaded ulist (d ∷ ds) id (alone, apart) (m, ms) =
    let rest = nfs_at-loaded ulist ds id apart ms in
    elim (Bool-cases (d.saved.protocol == "smb")) [
      | inl smb ↦
          let s = smb-IsCifs d ulist d.saved.config m smb in
          elim (Bool-cases (eqb d.id id)) [
            | inl same ↦
                rw (smb, same, s.is_form)
                  (rest ∙ ap (λ o. nfs_part (shown ulist o)) (found_alone d ds id alone same))
            | inr differs ↦ rw (smb, differs) rest
          ]
      | inr other ↦
          let s = other-IsNfs d ulist d.saved.config m other in
          elim (Bool-cases (eqb d.id id)) [
            | inl same ↦ rw (other, s.is_form, s.own_id, same, s.is_form) refl
            | inr differs ↦ rw (other, s.is_form, s.own_id, differs) rest
          ]
    ]

-- The two parts of a share are the share.
pub or_nfs-parts : (o : Option Share) → or_nfs (cifs_part o) (nfs_part o) ≡ o
or_nfs-parts none = refl
or_nfs-parts (some (cifs f)) = refl
or_nfs-parts (some (nfs f)) = refl

first_found : (d : Dto) (ds : List Dto) → find_dto (d ∷ ds) d.id ≡ some d
first_found d ds = ground (arith, eqb_iff d.id d.id)

later_found :
    (d e : Dto) (ds : List Dto) (id : ℕ)
    → find_dto ds d.id ≡ none
    → find_dto ds id ≡ some e
    → find_dto (d ∷ ds) id ≡ some e
later_found d e ds id alone h = elim (Bool-cases (eqb d.id id)) [
  | inl same ↦ absurd (cc (found_alone d ds id alone same, h))
  | inr differs ↦ rw differs h
]

-- What holds of every share that is found by its id holds of the whole listing.
pub all_found :
    (dtos : List Dto)
    → Distinct dtos
    → ((id : ℕ) (d : Dto) → find_dto dtos id ≡ some d → MatchesSelf d.saved)
    → AllMatch dtos
unfolding Distinct
all_found [] _ _ = tt
all_found (d ∷ ds) (alone, apart) found = (
  found d.id d (first_found d ds),
  all_found ds apart (λ id e h. found id e (later_found d e ds id alone h)),
)
