-- ===== src/Shares/Server/Fates.antt =====
-- What a session of `SharesView` (nasweb/frontend/src/js/app.js) does to each share: the view against a map
-- from ids to shares.
use ollozuna_nas.Prelude.{
  ℕ, String, Bool, true, false, Option, none, some, List, [], ◌∷◌, eqb, if◌then◌else◌, map, ◌≡◌,
}
use ollozuna_nas.Shares.{Share, cifs, nfs, Payload, AppUser}
use ollozuna_nas.Shares.View.{Mounted, ApiUser, known_id, app_user}
use ollozuna_nas.Shares.Server.{Server, stored_at, MatchesSelf}
use ollozuna_nas.Shares.Server.Listing.{shown, cifs_part, nfs_part, cifs_at, nfs_at}
use ollozuna_nas.Shares.Server.Settled.{saved_share, flip}
use ollozuna_nas.Shares.Server.Session.{
  Event, Reply, message, save_cifs, save_nfs, delete_share, toggle, State, step,
}

-- The map's operations, at one of its keys. A form that is saved under an id replaces the share
-- with that id, if there is one; a new one is put under the id that the server gives it.
abbrev pub replace : Share → ℕ → Option Share → Option Share
replace s key none = none
replace s key (some _) = some (saved_share key s)

abbrev pub put_at : Option ℕ → Share → ℕ → ℕ → Option Share → Option Share
put_at none s fresh key old = if eqb fresh key then some (saved_share key s) else old
put_at (some id) s fresh key old = if eqb id key then replace s key old else old

abbrev pub flip_at : Bool → Option Share → Option Share
flip_at true (some (cifs f)) = some (flip (cifs f))
flip_at false (some (nfs f)) = some (flip (nfs f))
flip_at _ old = old

-- What an event with its answer makes of the share with a key, if the server's next id is `fresh`.
unfoldable pub fate : Event → Option String → ℕ → ℕ → Option Share → Option Share
fate e (some _) fresh key old = old
fate (save_cifs f) none fresh key old = put_at (known_id f.id) (cifs f) fresh key old
fate (save_nfs f) none fresh key old = put_at (known_id f.id) (nfs f) fresh key old
fate (delete_share id _) none fresh key old = if eqb id key then none else old
fate (toggle is_cifs id) none fresh key old = if eqb id key then flip_at is_cifs old else old

-- An event with its answer and the id that the server would give next.
abbrev pub Label : Type 0
Label = Event × Option String × ℕ

unfoldable pub fates : List Label → ℕ → Option Share → Option Share
unfolding fate
fates [] key old = old
fates ((e, answer, fresh) ∷ rest) key old = fates rest key (fate e answer fresh key old)

module _ {S : Type 0} (server : Server S) (fs : List Mounted) (us : List ApiUser)
    (gs : List String) where
  -- The labels of a run.
  unfoldable pub labels : State server fs us gs → List (Event × Reply) → List Label
  labels st [] = []
  labels st ((e, reply) ∷ rest) =
      (e, message reply, server.fresh st.kept) ∷ labels (step server fs us gs st e reply) rest

  abbrev pub ulist : List AppUser
  ulist = map app_user us

  -- The share that the server keeps under an id, as the view shows it.
  abbrev pub at : S → ℕ → Option Share
  at s id = shown ulist (stored_at id (server.read s id))

  -- Every saved form is of the protocol under which its share is listed.
  abbrev pub Matching : S → Type 0
  Matching s = (id : ℕ) (p : Payload) → server.read s id ≡ some p → MatchesSelf p

  -- The lists of the view are those of what the server keeps.
  pub record InSync (st : State server fs us gs) : Type 0 where
    pub cifs_side : (id : ℕ) → cifs_at st.view.cifs_list id ≡ cifs_part (at st.kept id)
    pub nfs_side : (id : ℕ) → nfs_at st.view.nfs_list id ≡ nfs_part (at st.kept id)
    pub matching : Matching st.kept
