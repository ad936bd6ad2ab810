-- ===== src/Shares/View/Toggle.antt =====
-- What the handlers of `SharesView` (nasweb/frontend/src/js/app.js) send.
use ollozuna_nas.Prelude.{
  ℕ, String, true, false, not, Option, some, List, ◌∷◌, ◌==◌, if◌then◌else◌, find_first, ◌≡◌, refl,
  inl, inr,
}
use ollozuna_nas.Shares.{CifsForm, NfsForm, Share, cifs, nfs, Payload, AppUser}
use ollozuna_nas.Shares.Mapping.{
  volume_of, status_text, with_server, map_share_from_api, map_cifs_to_api, map_nfs_to_api,
}
use ollozuna_nas.Shares.Mapping.Saved.{stored, IsStatus}
use ollozuna_nas.Shares.View.{
  View, Effect, update, toggled, toggle_share, handle_toggle, toggle_cifs, toggle_nfs, has_id,
}

abbrev pub flipped : String → String
flipped status = if status == "active" then "disabled" else "active"

pub flipped_read : (s : String) → IsStatus s → status_text (not (s == "active")) ≡ flipped s
flipped_read s (inl e) = rw e refl
flipped_read s (inr e) = rw e refl

-- The first effect updates the share with a confirmation, and the share that the server then reports is this one.
pub record Updates (id : ℕ) (effects : List Effect) (ulist : List AppUser) (share : Share)
    : Type 0 where
  pub payload : Payload
  pub rest : List Effect
  pub sent : effects ≡ update id true payload ∷ rest
  pub read_back : map_share_from_api (stored id payload) ulist ≡ share

-- Switching a listed CIFS share on or off first updates it, and what the server reports of it then
-- is the same share in all its settings with the other state, whatever the other shares are.
pub toggle-cifs :
    (v : View) (id : ℕ) (f : CifsForm) (ulist : List AppUser) (answer : Option String)
    → find_first (λ (g : CifsForm). has_id g.id id) v.cifs_list ≡ some f
    → f.id ≡ some id
    → f.volume ≡ volume_of f.path
    → IsStatus f.status
    → Updates id
        (handle_toggle true v id answer).1
        ulist
        (cifs (record f { status = flipped f.status }))
unfolding handle_toggle toggle_cifs toggle_share toggled map_share_from_api with_server
    map_cifs_to_api
toggle-cifs v id f ulist answer found same vol st = rw found (record {
  payload = toggled (map_cifs_to_api f) f.status;
  rest = _;
  sent = refl;
  read_back = cc (same, vol, flipped_read f.status st);
})

-- Switching a listed NFS share on or off first updates it, and what the server reports of it then
-- is the same share in all its settings with the other state.
pub toggle-nfs :
    (v : View) (id : ℕ) (f : NfsForm) (ulist : List AppUser) (answer : Option String)
    → find_first (λ (g : NfsForm). has_id g.id id) v.nfs_list ≡ some f
    → f.id ≡ some id
    → f.volume ≡ volume_of f.path
    → IsStatus f.status
    → Updates id
        (handle_toggle false v id answer).1
        ulist
        (nfs (record f { status = flipped f.status }))
unfolding handle_toggle toggle_nfs toggle_share toggled map_share_from_api with_server
    map_nfs_to_api
toggle-nfs v id f ulist answer found same vol st = rw found (record {
  payload = toggled (map_nfs_to_api f) f.status;
  rest = _;
  sent = refl;
  read_back = cc (same, vol, flipped_read f.status st);
})
