-- ===== src/Shares/Server/Tests.antt =====
-- A session of the shares with a table for a server, and the refinement at it.
use ollozuna_nas.Prelude.{true, false, none, some, List, [], ◌∷◌, eqb, if◌then◌else◌, ◌≡◌, refl}
use ollozuna_nas.Shares.{CifsForm, cifs, Payload}
use ollozuna_nas.Shares.Mapping.{legacy_cifs, map_share_from_api}
use ollozuna_nas.Shares.Mapping.Saved.{stored}
use ollozuna_nas.Shares.View.{handle_toggle, handle_delete, loaded, View}
use ollozuna_nas.Shares.Server.Session.{
  Event, Reply, accepted, refused, apply_failed, save_cifs, delete_share, toggle, run, share_at,
  opened,
}
use ollozuna_nas.Shares.Server.Fates.{fate, fates, labels}
use ollozuna_nas.Shares.Server.Settled.{flip}
use ollozuna_nas.Shares.Server.Table.{Table, get, table_server}

abbrev media : Payload
media = record {
  name = "media";
  path = "/mnt/md0/media";
  protocol = "smb";
  read_only = false;
  allowed_ips = [];
  valid_users = [];
  enabled = true;
  config = none;
}

abbrev media_form : CifsForm
media_form = legacy_cifs [] (stored 7 media)

abbrev table : Table
table = record { next = 8; rows = λ id. if eqb id 7 then some media else none }

abbrev blank : View
blank = record {
  cifs_list = [];
  nfs_list = [];
  volumes = [];
  app_users = [];
  app_groups = [];
  loading = true;
  api_err = none;
  modal = false;
  panel = none;
}

-- The share is switched off, a copy of it is made, and its removal is refused.
abbrev events : List (Event × Reply)
events =
    (toggle true 7, accepted)
    ∷ (save_cifs (record media_form { id = none; name = "copy" }), accepted)
    ∷ (delete_share 7 "media", refused "busy")
    ∷ []

fates_test :
    fates
      (labels table_server [] [] [] (opened table_server [] [] [] table blank) events)
      7
      (some (cifs media_form))
    ≡ some (flip (cifs media_form))
unfolding fates labels fate table_server run legacy_cifs handle_toggle loaded map_share_from_api
fates_test = refl

-- A deletion that is written but fails to be applied leaves the share in the view.
partial_tests :
    let st =
      run table_server [] [] []
        (opened table_server [] [] [] table blank)
        ((delete_share 7 "media", apply_failed "apply_failed: smbd") ∷ []) in
    (get st.kept 7 ≡ none)
    × (share_at table_server [] [] [] st 7
        ≡ share_at table_server [] [] [] (opened table_server [] [] [] table blank) 7)
unfolding table_server run loaded handle_delete
partial_tests = (refl, refl)
