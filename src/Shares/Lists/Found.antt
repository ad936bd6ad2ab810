-- ===== src/Shares/Lists/Found.antt =====
-- Which shares the filter by volume finds (`CIFSTab`, nasweb/frontend/src/js/app.js).
use ollozuna_nas.Prelude.{
  ℕ, String, false, some, List, ◌∷◌, ◌==◌, ◌+++◌, find_first, ◌≡◌, sym, ap, ◌∙◌, arith,
}
use ollozuna_nas.Shares.{CifsForm, cifs, AppUser}
use ollozuna_nas.Shares.Mapping.{map_cifs_to_api, map_share_from_api}
use ollozuna_nas.Shares.Mapping.Saved.{stored}
use ollozuna_nas.Shares.View.{Volume}
use ollozuna_nas.Shares.CifsModal.{Modal, type_name}
use ollozuna_nas.Shares.CifsModal.Saves.{volume_shown, default_mount-volume}
use ollozuna_nas.Shares.Lists.{filtered_cifs}

other_volume :
    (lower : String → String) (search volume status : String) (f : CifsForm)
    (shares : List CifsForm)
    → (volume == "") ≡ false
    → (f.volume == volume) ≡ false
    → filtered_cifs lower search volume status (f ∷ shares)
      ≡ filtered_cifs lower search volume status shares
unfolding filtered_cifs
other_volume lower search volume status f shares given other = ground (arith, given, other)

-- A new share on a volume with the mount point that the dialogs of filesystems propose, below
-- `/srv/nas/`, is not found by the filter for that volume once it is saved and read back, unless the
-- volume is called `nas`.
pub default_mount-hidden :
    (lower : String → String) (search status : String) (volumes : List Volume) (m : Modal)
    (v : Volume) (device name : String) (id : ℕ) (ulist : List AppUser) (f : CifsForm)
    (shares : List CifsForm)
    → m.is_edit ≡ false
    → (m.form.volume == "") ≡ false
    → find_first (λ (w : Volume). w.name == m.form.volume) volumes ≡ some v
    → v.mount ≡ "/srv/nas/" +++ device
    → (name == "") ≡ false
    → (v.name == "") ≡ false
    → ("nas" == v.name) ≡ false
    → map_share_from_api (stored id (map_cifs_to_api (type_name volumes m name).form)) ulist
      ≡ cifs f
    → filtered_cifs lower search v.name status (f ∷ shares)
      ≡ filtered_cifs lower search v.name status shares
default_mount-hidden lower search status volumes m v device name id ulist f shares fresh chosen
      found mounted named given other read =
    let shown =
      (default_mount-volume volumes m v device name id ulist fresh chosen found mounted named).2 in
    let volume : f.volume ≡ "nas" = ap volume_shown (sym read) ∙ shown in
    other_volume lower search v.name status f shares given (ap (λ x. x == v.name) volume ∙ other)
