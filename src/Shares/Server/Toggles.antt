-- ===== src/Shares/Server/Toggles.antt =====
-- What is shown of a share that is saved, deleted, or switched on or off
-- (nasweb/frontend/src/js/app.js).
use ollozuna_nas.Prelude.{
  ℕ, String, Bool, true, false, Option, none, some, List, eqb, eqb_iff, if◌then◌else◌, ◌≡◌, refl,
  sym, ap, ◌∙◌, inl, inr, Bool-cases,
}
use mathlib.Core.Path.{subst}
use ollozuna_nas.Shares.{CifsForm, NfsForm, Share, cifs, nfs, Payload, AppUser}
use ollozuna_nas.Shares.Mapping.{map_share_from_api, share_of, map_cifs_to_api, map_nfs_to_api}
use ollozuna_nas.Shares.Mapping.Saved.{stored}
use ollozuna_nas.Shares.View.{update, delete, toggled}
use ollozuna_nas.Shares.Server.{stored_at, Matches, MatchesSelf}
use ollozuna_nas.Shares.Server.Listing.{shown, cifs_part, nfs_part}
use ollozuna_nas.Shares.Server.Settled.{IsShown, share_of-IsShown}
use ollozuna_nas.Shares.Server.Fates.{flip_at}
use ollozuna_nas.Shares.Server.Changes.{over, read_after}

pub cifs-MatchesSelf : (f : CifsForm) → MatchesSelf (map_cifs_to_api f)
unfolding map_cifs_to_api Matches
cifs-MatchesSelf f = refl

pub nfs-MatchesSelf : (f : NfsForm) → MatchesSelf (map_nfs_to_api f)
unfolding map_nfs_to_api Matches
nfs-MatchesSelf f = refl

-- A share is no longer shown once it is deleted.
pub deleted-shown :
    (users : List AppUser) (id key : ℕ) (fresh : ℕ) (old : Option Payload)
    → shown users (stored_at key (read_after (delete id) fresh key old))
      ≡ (if eqb id key then none else shown users (stored_at key old))
deleted-shown users id key fresh old = elim (Bool-cases (eqb id key)) [
  | inl e ↦ rw e refl
  | inr e ↦ rw e refl
]

pub toggled-Matches :
    (p : Payload) (status : String) (c : Option Share) → Matches p c → Matches (toggled p status) c
unfolding toggled Matches
toggled-Matches p status none m = tt
toggled-Matches p status (some (cifs f)) m = m
toggled-Matches p status (some (nfs f)) m = m

pub toggled-MatchesSelf :
    (p : Payload) (status : String) → MatchesSelf p → MatchesSelf (toggled p status)
unfolding toggled
toggled-MatchesSelf p status m = toggled-Matches p status p.config m

pub shown-IsShown :
    (users : List AppUser) (id : ℕ) (s : Share) (o : Option Payload)
    → shown users (stored_at id o) ≡ some s
    → IsShown id s
unfolding map_share_from_api
shown-IsShown users id s none h = absurd (cc h)
shown-IsShown users id s (some p) h =
    let same : share_of (stored id p) users p.config ≡ s = cc h in
    subst (IsShown id) same (share_of-IsShown (stored id p) users p.config)

pub cifs_of_part : (o : Option Share) (f : CifsForm) → cifs_part o ≡ some f → o ≡ some (cifs f)
cifs_of_part none f h = absurd (cc h)
cifs_of_part (some (cifs g)) f h = let same : g ≡ f = cc h in ap (λ x. some (cifs x)) same
cifs_of_part (some (nfs g)) f h = absurd (cc h)

pub nfs_of_part : (o : Option Share) (f : NfsForm) → nfs_part o ≡ some f → o ≡ some (nfs f)
nfs_of_part none f h = absurd (cc h)
nfs_of_part (some (nfs g)) f h = let same : g ≡ f = cc h in ap (λ x. some (nfs x)) same
nfs_of_part (some (cifs g)) f h = absurd (cc h)

pub flip_cifs_none : (o : Option Share) → cifs_part o ≡ none → flip_at true o ≡ o
flip_cifs_none none h = refl
flip_cifs_none (some (cifs f)) h = absurd (cc h)
flip_cifs_none (some (nfs f)) h = refl

pub flip_nfs_none : (o : Option Share) → nfs_part o ≡ none → flip_at false o ≡ o
flip_nfs_none none h = refl
flip_nfs_none (some (cifs f)) h = refl
flip_nfs_none (some (nfs f)) h = absurd (cc h)

pub flip_none :
    (is_cifs : Bool) (id key : ℕ) (here : ℕ → Option Share)
    → flip_at is_cifs (here id) ≡ here id
    → here key ≡ (if eqb id key then flip_at is_cifs (here key) else here key)
flip_none is_cifs id key here h = elim (Bool-cases (eqb id key)) [
  | inl e ↦ rw (e, ← (eqb_iff id key).0 e) (sym h)
  | inr e ↦ rw e refl
]

pub toggled-shown :
    (users : List AppUser) (id : ℕ) (p : Payload) (is_cifs : Bool) (s t : Share) (fresh : ℕ)
    (kept : ℕ → Option Payload)
    → flip_at is_cifs (some s) ≡ some t
    → map_share_from_api (stored id p) users ≡ t
    → shown users (stored_at id (kept id)) ≡ some s
    → (key : ℕ)
    → shown users (stored_at key (read_after (update id true p) fresh key (kept key))) ≡ (
        if eqb id key
        then flip_at is_cifs (shown users (stored_at key (kept key)))
        else shown users (stored_at key (kept key)))
toggled-shown users id p is_cifs s t fresh kept turned new here key =
    elim (Bool-cases (eqb id key)) [
      | inl e ↦ rw (e, ← (eqb_iff id key).0 e) (same (kept id) here)
      | inr e ↦ rw e refl
    ]
  where
    same :
        (o : Option Payload)
        → shown users (stored_at id o) ≡ some s
        → shown users (stored_at id (over p o)) ≡ flip_at is_cifs (shown users (stored_at id o))
    same none h = absurd (cc h)
    same (some q) h = ap some new ∙ sym turned ∙ ap (flip_at is_cifs) (sym h)
