-- ===== src/Shares/Tests.antt =====
-- Runs of the mappings of shares, and their theorems at inputs that meet their hypotheses.
use ollozuna_nas.Prelude.{true, none, some, [], ◌∷◌, ◌≡◌, refl, split, strip_prefix}
use ollozuna_nas.Shares.{CifsForm, NfsForm, Dto}
use ollozuna_nas.Shares.Mapping.{volume_of, legacy_cifs, legacy_nfs}

volume_tests :
    (volume_of "/mnt/md0/media" ≡ "md0")
    × (volume_of "/srv/data/x" ≡ "data")
    × (volume_of "/mnt/" ≡ "")
unfolding volume_of split strip_prefix
volume_tests = (refl, refl, refl)

abbrev old_share : Dto
old_share = record {
  id = 7;
  saved = record {
    name = "media";
    path = "/mnt/md0/media";
    protocol = "smb";
    read_only = true;
    allowed_ips = [];
    valid_users = "@staff" ∷ "bob" ∷ [];
    enabled = true;
    config = none;
  };
}

abbrev media : CifsForm
media = legacy_cifs [] old_share

abbrev media_nfs : NfsForm
media_nfs = legacy_nfs old_share

media_id : media.id ≡ some 7
unfolding legacy_cifs
media_id = refl

media_volume : media.volume ≡ volume_of media.path
unfolding legacy_cifs
media_volume = refl

media_status : media.status ≡ "active"
unfolding legacy_cifs
media_status = refl
