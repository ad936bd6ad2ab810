-- ===== src/Shares/Mapping/Saved.antt =====
-- A share that was saved is read back as it was (nasweb/frontend/src/js/app.js).
use ollozuna_nas.Prelude.{ℕ, String, some, List, ◌≡◌, refl, ◌⊎◌, inl, inr}
use ollozuna_nas.Shares.{CifsForm, NfsForm, cifs, nfs, Payload, Dto, AppUser}
use ollozuna_nas.Shares.Mapping.{
  volume_of, status_text, is_enabled, with_server, map_share_from_api, map_cifs_to_api,
  map_nfs_to_api,
}

-- The server keeps what it is sent, under an id, as it documents for the saved configuration.
abbrev pub stored : ℕ → Payload → Dto
stored id p = record { id = id; saved = p }

-- The status of a share that the server knows.
abbrev pub IsStatus : String → Type 0
IsStatus s = (s ≡ "active") ⊎ (s ≡ "disabled")

status_read : (s : String) → IsStatus s → status_text (is_enabled s) ≡ s
status_read s (inl e) = rw e refl
status_read s (inr e) = rw e refl

-- A CIFS share with an id that is saved and read back is the same in all its settings.
pub cifs-read_back :
    (id : ℕ) (f : CifsForm) (ulist : List AppUser)
    → f.id ≡ some id
    → f.volume ≡ volume_of f.path
    → IsStatus f.status
    → map_share_from_api (stored id (map_cifs_to_api f)) ulist ≡ cifs f
unfolding map_share_from_api with_server map_cifs_to_api
cifs-read_back id f ulist same vol st = cc (same, vol, status_read f.status st)

-- An NFS share with an id that is saved and read back is the same in all its settings.
pub nfs-read_back :
    (id : ℕ) (f : NfsForm) (ulist : List AppUser)
    → f.id ≡ some id
    → f.volume ≡ volume_of f.path
    → IsStatus f.status
    → map_share_from_api (stored id (map_nfs_to_api f)) ulist ≡ nfs f
unfolding map_share_from_api with_server map_nfs_to_api
nfs-read_back id f ulist same vol st = cc (same, vol, status_read f.status st)
