-- ===== src/Shares/Server/Settled.antt =====
-- A share as the view shows it has its id, the volume of its path and one of two states; what is
-- saved of a form is shown with these (nasweb/frontend/src/js/app.js).
use ollozuna_nas.Prelude.{
  ℕ, Bool, true, false, Option, none, some, List, ◌==◌, if◌then◌else◌, ◌≡◌, refl, inl, inr,
}
use ollozuna_nas.Shares.{CifsForm, NfsForm, Share, cifs, nfs, Dto, AppUser}
use ollozuna_nas.Shares.Mapping.{
  volume_of, status_text, is_enabled, with_server, share_of, legacy_cifs, legacy_nfs,
  map_share_from_api, map_cifs_to_api, map_nfs_to_api,
}
use ollozuna_nas.Shares.Mapping.Saved.{stored, IsStatus}
use ollozuna_nas.Shares.View.{toggled}
use ollozuna_nas.Shares.View.Toggle.{flipped, flipped_read}

abbrev pub IsShown : ℕ → Share → Type 0
IsShown id (cifs f) = (f.id ≡ some id) × (f.volume ≡ volume_of f.path) × IsStatus f.status
IsShown id (nfs f) = (f.id ≡ some id) × (f.volume ≡ volume_of f.path) × IsStatus f.status

status_text-IsStatus : (b : Bool) → IsStatus (status_text b)
status_text-IsStatus true = inl refl
status_text-IsStatus false = inr refl

pub share_of-IsShown :
    (d : Dto) (ulist : List AppUser) (c : Option Share) → IsShown d.id (share_of d ulist c)
unfolding share_of with_server legacy_cifs legacy_nfs
share_of-IsShown d ulist (some (cifs f)) = (refl, refl, status_text-IsStatus _)
share_of-IsShown d ulist (some (nfs f)) = (refl, refl, status_text-IsStatus _)
share_of-IsShown d ulist none = by_protocol (d.saved.protocol == "smb")
  where
    by_protocol :
        (b : Bool) → IsShown d.id (if b then cifs (legacy_cifs ulist d) else nfs (legacy_nfs d))
    by_protocol true = (refl, refl, status_text-IsStatus _)
    by_protocol false = (refl, refl, status_text-IsStatus _)

-- The share that the view shows of what is saved under an id.
abbrev pub saved_share : ℕ → Share → Share
saved_share id (cifs f) = cifs (record f {
  id = some id;
  volume = volume_of f.path;
  status = status_text (is_enabled f.status);
})
saved_share id (nfs f) = nfs (record f {
  id = some id;
  volume = volume_of f.path;
  status = status_text (is_enabled f.status);
})

-- The same share in the other state.
abbrev pub flip : Share → Share
flip (cifs f) = cifs (record f { status = flipped f.status })
flip (nfs f) = nfs (record f { status = flipped f.status })

pub cifs-saved :
    (id : ℕ) (f : CifsForm) (ulist : List AppUser)
    → map_share_from_api (stored id (map_cifs_to_api f)) ulist ≡ saved_share id (cifs f)
unfolding map_share_from_api share_of with_server map_cifs_to_api
cifs-saved id f ulist = refl

pub nfs-saved :
    (id : ℕ) (f : NfsForm) (ulist : List AppUser)
    → map_share_from_api (stored id (map_nfs_to_api f)) ulist ≡ saved_share id (nfs f)
unfolding map_share_from_api share_of with_server map_nfs_to_api
nfs-saved id f ulist = refl

pub cifs-flipped :
    (id : ℕ) (f : CifsForm) (ulist : List AppUser)
    → IsShown id (cifs f)
    → map_share_from_api (stored id (toggled (map_cifs_to_api f) f.status)) ulist ≡ flip (cifs f)
unfolding map_share_from_api share_of with_server map_cifs_to_api toggled
cifs-flipped id f ulist (same, vol, st) = cc (same, vol, flipped_read f.status st)

pub nfs-flipped :
    (id : ℕ) (f : NfsForm) (ulist : List AppUser)
    → IsShown id (nfs f)
    → map_share_from_api (stored id (toggled (map_nfs_to_api f) f.status)) ulist ≡ flip (nfs f)
unfolding map_share_from_api share_of with_server map_nfs_to_api toggled
nfs-flipped id f ulist (same, vol, st) = cc (same, vol, flipped_read f.status st)
