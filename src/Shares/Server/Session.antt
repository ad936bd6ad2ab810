-- ===== src/Shares/Server/Session.antt =====
-- A session of `SharesView` of nasweb/frontend/src/js/app.js with a server: what the administrator does,
-- the server's answer, and the loading again that follows a success, which is taken to be answered.
use ollozuna_nas.Prelude.{
  ℕ, String, Bool, true, false, Option, none, some, List, [], ◌∷◌, if◌then◌else◌, any,
}
use ollozuna_nas.Shares.{CifsForm, NfsForm, Share}
use ollozuna_nas.Shares.View.{
  View, Mounted, ApiUser, Effect, create, update, delete, reload, handle_cifs_save, handle_nfs_save,
  handle_delete, handle_toggle, loaded,
}
use ollozuna_nas.Shares.Server.{Server}
use ollozuna_nas.Shares.Server.Listing.{share_in}

-- What the administrator does: saves a form, deletes the share with an id, or switches the one
-- of the CIFS list or of the NFS list on or off.
pub data Event : Type 0 where
  save_cifs : CifsForm → Event
  save_nfs : NfsForm → Event
  delete_share : ℕ → String → Event
  toggle : Bool → ℕ → Event

-- How the server answers: it accepts, it refuses with a message and has written nothing, or it has written
-- the change and then fails to apply it to the services, `apply_failed`, which the view takes for a refusal.
pub data Reply : Type 0 where
  accepted : Reply
  refused apply_failed : String → Reply

abbrev pub message : Reply → Option String
message accepted = none
message (refused m) = some m
message (apply_failed m) = some m

unfoldable pub is_partial : Reply → Bool
is_partial (apply_failed _) = true
is_partial _ = false

unfoldable pub handle : View → Event → Option String → View × List Effect
handle v (save_cifs f) answer = handle_cifs_save v f answer
handle v (save_nfs f) answer = handle_nfs_save v f answer
handle v (delete_share id name) answer = handle_delete v id name answer
handle v (toggle is_cifs id) answer = handle_toggle is_cifs v id answer

abbrev pub is_reload : Effect → Bool
is_reload reload = true
is_reload _ = false

-- The server and the view; the filesystems, users and groups stay as they are.
module _ {S : Type 0} (server : Server S) (fs : List Mounted) (us : List ApiUser)
    (gs : List String) where
  pub record State : Type 0 where
    pub kept : S
    pub view : View

  -- What an effect, and a list of them, changes on the server.
  unfoldable pub do_effect : S → Effect → S
  do_effect s (create p) = server.create s p
  do_effect s (update id confirm p) = server.update s id confirm p
  do_effect s (delete id) = server.delete s id
  do_effect s _ = s

  unfoldable pub perform : S → List Effect → S
  unfolding do_effect
  perform s [] = s
  perform s (e ∷ es) = perform (do_effect s e) es

  unfoldable pub answered : S → List Effect → Reply → S
  unfolding perform
  answered s effects (refused _) = s
  answered s effects _ = perform s effects

  unfoldable pub step : State → Event → Reply → State
  unfolding handle answered
  step st e reply =
      let r = handle st.view e (message reply) in
      let s = answered st.kept r.1 reply in
      record {
        kept = s;
        view = if any is_reload r.1 then loaded r.0 (server.listing s) fs us gs else r.0;
      }

  unfoldable pub run : State → List (Event × Reply) → State
  unfolding step
  run st [] = st
  run st ((e, reply) ∷ rest) = run (step st e reply) rest

  -- The share that the view shows under an id, and the view once it is loaded.
  abbrev pub share_at : State → ℕ → Option Share
  share_at st id = share_in st.view.cifs_list st.view.nfs_list id

  abbrev pub opened : S → View → State
  opened s v = record { kept = s; view = loaded v (server.listing s) fs us gs }
