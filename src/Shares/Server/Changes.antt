-- ===== src/Shares/Server/Changes.antt =====
-- What the effects of `SharesView` (nasweb/frontend/src/js/app.js) change of the shares that a server keeps.
use ollozuna_nas.Prelude.{
  ℕ, String, true, false, Option, none, some, List, eqb, eqb_iff, if◌then◌else◌, ◌≡◌, refl, sym, ap,
  ◌∙◌, inl, inr, Bool-cases,
}
use mathlib.Core.Path.{subst}
use ollozuna_nas.Shares.{Share, Payload, AppUser}
use ollozuna_nas.Shares.Mapping.{map_share_from_api}
use ollozuna_nas.Shares.Mapping.Saved.{stored}
use ollozuna_nas.Shares.View.{
  Mounted, ApiUser, Effect, create, update, delete, toast, reload, saving,
}
use ollozuna_nas.Shares.Server.{Server, stored_at, MatchesSelf}
use ollozuna_nas.Shares.Server.Listing.{shown}
use ollozuna_nas.Shares.Server.Settled.{saved_share}
use ollozuna_nas.Shares.Server.Session.{do_effect}
use ollozuna_nas.Shares.Server.Fates.{put_at, at, ulist, Matching}

abbrev pub over : Payload → Option Payload → Option Payload
over p none = none
over p (some _) = some p

-- What an effect makes of the payload with a key.
abbrev pub read_after : Effect → ℕ → ℕ → Option Payload → Option Payload
read_after (create p) fresh key old = if eqb fresh key then some p else old
read_after (update id _ p) fresh key old = if eqb id key then over p old else old
read_after (delete id) fresh key old = if eqb id key then none else old
read_after _ fresh key old = old

abbrev pub Sent : Effect → Type 0
Sent (create p) = MatchesSelf p
Sent (update _ confirm p) = (confirm ≡ true) × MatchesSelf p
Sent _ = Unit

some-Matches : (p q : Payload) → MatchesSelf p → some p ≡ some q → MatchesSelf q
some-Matches p q m h = let same : p ≡ q = cc h in subst MatchesSelf same m

over-Matches :
    (p q : Payload) (old : Option Payload) → MatchesSelf p → over p old ≡ some q → MatchesSelf q
over-Matches p q none m h = absurd (cc h)
over-Matches p q (some _) m h = some-Matches p q m h

after-Matches :
    (e : Effect) (fresh key : ℕ) (old : Option Payload) (p : Payload)
    → Sent e
    → ((q : Payload) → old ≡ some q → MatchesSelf q)
    → read_after e fresh key old ≡ some p
    → MatchesSelf p
after-Matches (create p) fresh key old q sent before h = elim (Bool-cases (eqb fresh key)) [
  | inl e ↦ some-Matches p q sent (rw e at h)
  | inr e ↦ before q (rw e at h)
]
after-Matches (update id confirm p) fresh key old q (_, sent) before h =
    elim (Bool-cases (eqb id key)) [
      | inl e ↦ over-Matches p q old sent (rw e at h)
      | inr e ↦ before q (rw e at h)
    ]
after-Matches (delete id) fresh key old q sent before h = elim (Bool-cases (eqb id key)) [
  | inl e ↦ absurd (cc (rw e at h))
  | inr e ↦ before q (rw e at h)
]
after-Matches (toast a b) fresh key old q sent before h = before q h
after-Matches reload fresh key old q sent before h = before q h

module _ {S : Type 0} (server : Server S) (fs : List Mounted) (us : List ApiUser)
    (gs : List String) where
  read-update_same :
      (s : S) (id : ℕ) (p : Payload) (old : Option Payload)
      → server.read s id ≡ old
      → server.read (server.update s id true p) id ≡ over p old
  read-update_same s id p none e = server.read-update_none s id p e
  read-update_same s id p (some q) e = server.read-update_some s id p q e

  read-update :
      (s : S) (id : ℕ) (p : Payload) (key : ℕ)
      → server.read (server.update s id true p) key
        ≡ (if eqb id key then over p (server.read s key) else server.read s key)
  read-update s id p key = elim (Bool-cases (eqb id key)) [
    | inl e ↦ rw (e, ← (eqb_iff id key).0 e) (read-update_same s id p (server.read s id) refl)
    | inr e ↦ rw e (server.read-update_other s id p key e)
  ]

  pub read-do_effect :
      (s : S) (e : Effect) (key : ℕ)
      → Sent e
      → server.read (do_effect server fs us gs s e) key
        ≡ read_after e (server.fresh s) key (server.read s key)
  unfolding do_effect
  read-do_effect s (create p) key sent = server.read-create s p key
  read-do_effect s (update id true p) key sent = read-update s id p key
  read-do_effect s (update id false p) key sent = absurd (cc sent.0)
  read-do_effect s (delete id) key sent = server.read-delete s id key
  read-do_effect s (toast _ _) key sent = refl
  read-do_effect s reload key sent = refl

  pub do_effect-Matching :
      (s : S) (e : Effect)
      → Sent e
      → Matching server fs us gs s
      → Matching server fs us gs (do_effect server fs us gs s e)
  do_effect-Matching s e sent before key p h =
      after-Matches e (server.fresh s) key (server.read s key) p sent (before key)
        (sym (read-do_effect s e key sent) ∙ h)

  -- What the server has of a share after an effect, as the view shows it.
  pub at-do_effect :
      (s : S) (e : Effect) (key : ℕ)
      → Sent e
      → at server fs us gs (do_effect server fs us gs s e) key
        ≡ shown
            (ulist server fs us gs)
            (stored_at key (read_after e (server.fresh s) key (server.read s key)))
  at-do_effect s e key sent =
      ap (λ o. shown (ulist server fs us gs) (stored_at key o)) (read-do_effect s e key sent)

-- An effect that saves a share, in the map.
pub saving-put_at :
    (users : List AppUser) (p : Payload) (share : Share) (id : Option ℕ) (fresh key : ℕ)
    (old : Option Payload)
    → map_share_from_api (stored key p) users ≡ saved_share key share
    → shown users (stored_at key (read_after (saving id p) fresh key old))
      ≡ put_at id share fresh key (shown users (stored_at key old))
unfolding saving
saving-put_at users p share none fresh key old h = elim (Bool-cases (eqb fresh key)) [
  | inl e ↦ rw e (ap some h)
  | inr e ↦ rw e refl
]
saving-put_at users p share (some id) fresh key none h = elim (Bool-cases (eqb id key)) [
  | inl e ↦ rw e refl
  | inr e ↦ rw e refl
]
saving-put_at users p share (some id) fresh key (some q) h = elim (Bool-cases (eqb id key)) [
  | inl e ↦ rw e (ap some h)
  | inr e ↦ rw e refl
]
