-- ===== src/Shares/Server/Sync.antt =====
-- The lists of the view follow the server: after loading, a save and a deletion (`SharesView`,
-- nasweb/frontend/src/js/app.js).
use ollozuna_nas.Prelude.{ℕ, String, false, Option, none, some, List, ◌≡◌, refl, sym, ap, ◌∙◌}
use mathlib.Core.Path.{subst}
use ollozuna_nas.Shares.{CifsForm, NfsForm, cifs, nfs, Payload, Dto}
use ollozuna_nas.Shares.Mapping.{map_cifs_to_api, map_nfs_to_api}
use ollozuna_nas.Shares.Mapping.Saved.{stored}
use ollozuna_nas.Shares.View.{
  View, Mounted, ApiUser, Effect, delete, loaded, known_id, saving, handle_cifs_save,
  handle_nfs_save, handle_save, handle_delete, save_end, delete_end,
}
use ollozuna_nas.Shares.Server.{Server, stored_at, MatchesSelf}
use ollozuna_nas.Shares.Server.Listing.{
  shown, cifs_part, nfs_part, cifs_at-loaded, nfs_at-loaded, all_found, AllMatch,
}
use ollozuna_nas.Shares.Server.Settled.{cifs-saved, nfs-saved}
use ollozuna_nas.Shares.Server.Session.{
  Event, accepted, save_cifs, save_nfs, delete_share, handle, State, do_effect, perform, answered,
  step, is_reload,
}
use ollozuna_nas.Shares.Server.Fates.{fate, at, ulist, Matching, InSync}
use ollozuna_nas.Shares.Server.Changes.{
  read_after, Sent, do_effect-Matching, at-do_effect, saving-put_at,
}
use ollozuna_nas.Shares.Server.Toggles.{cifs-MatchesSelf, nfs-MatchesSelf, deleted-shown}

module _ {S : Type 0} (server : Server S) (fs : List Mounted) (us : List ApiUser)
    (gs : List String) where
  listing-AllMatch : (s : S) → Matching server fs us gs s → AllMatch (server.listing s)
  listing-AllMatch s m =
      all_found (server.listing s) (server.distinct s)
        (λ id d h. found id d (server.read s id) refl (sym (server.listed s id) ∙ h))
    where
      found :
          (id : ℕ) (d : Dto) (o : Option Payload)
          → server.read s id ≡ o
          → stored_at id o ≡ some d
          → MatchesSelf d.saved
      found id d none e h = absurd (cc h)
      found id d (some p) e h =
          let same : stored id p ≡ d = cc h in
          subst (λ (x : Dto). MatchesSelf x.saved) same (m id p e)

  -- The view is in sync once the listing is loaded.
  pub loaded-InSync :
      (s : S) (v : View)
      → Matching server fs us gs s
      → InSync server fs us gs (record { kept = s; view = loaded v (server.listing s) fs us gs })
  unfolding loaded
  loaded-InSync s v m = record {
    cifs_side = λ id.
        cifs_at-loaded (ulist server fs us gs) (server.listing s) id (server.distinct s)
          (listing-AllMatch s m)
        ∙ ap (λ o. cifs_part (shown (ulist server fs us gs) o)) (server.listed s id);
    nfs_side = λ id.
        nfs_at-loaded (ulist server fs us gs) (server.listing s) id (server.distinct s)
          (listing-AllMatch s m)
        ∙ ap (λ o. nfs_part (shown (ulist server fs us gs) o)) (server.listed s id);
    matching = m;
  }

  -- A step keeps the view in sync and gives each share its fate.
  pub record Next (st : State server fs us gs) (e : Event) (answer : Option String)
      (after : State server fs us gs) : Type 0 where
    pub sync : InSync server fs us gs after
    pub fated :
        (key : ℕ)
        → at server fs us gs after.kept key
          ≡ fate e answer (server.fresh st.kept) key (at server fs us gs st.kept key)

  pub from_effect :
      (st : State server fs us gs) (e : Event) (effect : Effect) (v : View)
      → InSync server fs us gs st
      → Sent effect
      → ((key : ℕ)
          → shown (ulist server fs us gs) (
              stored_at key
                (read_after effect (server.fresh st.kept) key (server.read st.kept key)))
            ≡ fate e none (server.fresh st.kept) key (at server fs us gs st.kept key))
      → Next st e none (record {
        kept = do_effect server fs us gs st.kept effect;
        view = loaded v (server.listing (do_effect server fs us gs st.kept effect)) fs us gs;
      })
  from_effect st e effect v s sent h = record {
    sync = loaded-InSync _ v (do_effect-Matching server fs us gs st.kept effect sent s.matching);
    fated = λ key. at-do_effect server fs us gs st.kept effect key sent ∙ h key;
  }

  pub saving-reload : (id : Option ℕ) (p : Payload) → is_reload (saving id p) ≡ false
  unfolding saving
  saving-reload none p = refl
  saving-reload (some i) p = refl

  pub saving-Sent : (id : Option ℕ) (p : Payload) → MatchesSelf p → Sent (saving id p)
  unfolding saving
  saving-Sent none p m = m
  saving-Sent (some i) p m = (refl, m)

  pub save_cifs-Next :
      (st : State server fs us gs) (f : CifsForm)
      → InSync server fs us gs st
      → Next st (save_cifs f) none (step server fs us gs st (save_cifs f) accepted)
  unfolding step answered perform handle handle_cifs_save handle_save save_end fate
  save_cifs-Next st f s = rw (saving-reload (known_id f.id) (map_cifs_to_api f)) (
      from_effect st (save_cifs f) (saving (known_id f.id) (map_cifs_to_api f)) _ s
        (saving-Sent (known_id f.id) (map_cifs_to_api f) (cifs-MatchesSelf f))
        (λ key.
          saving-put_at (ulist server fs us gs) (map_cifs_to_api f) (cifs f) (known_id f.id)
            (server.fresh st.kept) key (server.read st.kept key)
            (cifs-saved key f (ulist server fs us gs))))

  pub save_nfs-Next :
      (st : State server fs us gs) (f : NfsForm)
      → InSync server fs us gs st
      → Next st (save_nfs f) none (step server fs us gs st (save_nfs f) accepted)
  unfolding step answered perform handle handle_nfs_save handle_save save_end fate
  save_nfs-Next st f s = rw (saving-reload (known_id f.id) (map_nfs_to_api f)) (
      from_effect st (save_nfs f) (saving (known_id f.id) (map_nfs_to_api f)) _ s
        (saving-Sent (known_id f.id) (map_nfs_to_api f) (nfs-MatchesSelf f))
        (λ key.
          saving-put_at (ulist server fs us gs) (map_nfs_to_api f) (nfs f) (known_id f.id)
            (server.fresh st.kept) key (server.read st.kept key)
            (nfs-saved key f (ulist server fs us gs))))

  pub delete-Next :
      (st : State server fs us gs) (id : ℕ) (name : String)
      → InSync server fs us gs st
      → Next st
          (delete_share id name)
          none
          (step server fs us gs st (delete_share id name) accepted)
  unfolding step answered perform handle handle_delete delete_end fate
  delete-Next st id name s = from_effect st (delete_share id name) (delete id) _ s tt (λ key.
      deleted-shown (ulist server fs us gs) id key (server.fresh st.kept) (server.read st.kept key))

  pub unchanged :
      (st : State server fs us gs) (e : Event) (answer : Option String)
      → InSync server fs us gs st
      → ((key : ℕ)
          → at server fs us gs st.kept key
            ≡ fate e answer (server.fresh st.kept) key (at server fs us gs st.kept key))
      → Next st e answer st
  unchanged st e answer s h = record { sync = s; fated = h }
