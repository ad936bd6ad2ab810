-- ===== src/Shares/Server.antt =====
-- What `SharesView` of nasweb/frontend/src/js/app.js relies on of the server: an interface, with what
-- the view finds in the server's listing.
pub mod Listing
pub mod Session
pub mod Settled
pub mod Fates
pub mod Changes
pub mod Toggles
pub mod Sync
pub mod Refines
mod Table
mod Tests
use ollozuna_nas.Prelude.{
  ℕ, String, Bool, true, false, not, Option, none, some, List, [], ◌∷◌, ◌==◌, eqb, eqb_iff,
  if◌then◌else◌, map, filterb, find_first, any, All, ◌≡◌, refl, sym, ap, ◌∙◌, arith, inl, inr,
  Bool-cases,
}
use mathlib.Core.Path.{subst}
use ollozuna_nas.Shares.{CifsForm, NfsForm, Share, cifs, nfs, Payload, Dto, AppUser}
use ollozuna_nas.Shares.Mapping.{map_share_from_api, with_server, legacy_cifs, legacy_nfs, share_of}
use ollozuna_nas.Shares.Mapping.Saved.{stored}
use ollozuna_nas.Shares.View.{cifs_shares, nfs_shares, cifs_forms, nfs_forms, has_id}

-- The share with an id in a listing.
abbrev pub find_dto : List Dto → ℕ → Option Dto
find_dto dtos id = find_first (λ (d : Dto). eqb d.id id) dtos

-- No two shares of a listing have the same id.
unfoldable pub Distinct : List Dto → Type 0
Distinct [] = Unit
Distinct (d ∷ ds) = (find_dto ds d.id ≡ none) × Distinct ds

abbrev pub stored_at : ℕ → Option Payload → Option Dto
stored_at id none = none
stored_at id (some p) = some (stored id p)

-- A server that keeps shares under ids which it gives: it lists them all, in an order of its own,
-- and an update that is confirmed, or a deletion, touches the share with its id only. It may refuse to
-- switch a share off without the confirmation.
pub record Server (S : Type 0) : Type 0 where
  pub read : S → ℕ → Option Payload
  pub listing : S → List Dto
  pub fresh : S → ℕ
  pub create : S → Payload → S
  pub update : S → ℕ → Bool → Payload → S
  pub delete : S → ℕ → S
  pub listed : (s : S) (id : ℕ) → find_dto (listing s) id ≡ stored_at id (read s id)
  pub distinct : (s : S) → Distinct (listing s)
  pub read-create :
      (s : S) (p : Payload) (id : ℕ)
      → read (create s p) id ≡ (if eqb (fresh s) id then some p else read s id)
  pub read-update_other :
      (s : S) (at : ℕ) (p : Payload) (id : ℕ)
      → eqb at id ≡ false
      → read (update s at true p) id ≡ read s id
  pub read-update_none :
      (s : S) (at : ℕ) (p : Payload) → read s at ≡ none → read (update s at true p) at ≡ none
  pub read-update_some :
      (s : S) (at : ℕ) (p q : Payload) → read s at ≡ some q → read (update s at true p) at ≡ some p
  pub read-delete :
      (s : S) (at id : ℕ) → read (delete s at) id ≡ (if eqb at id then none else read s id)

-- The saved form is of the protocol under which the share is listed.
unfoldable pub Matches : Payload → Option Share → Type 0
Matches p none = Unit
Matches p (some (cifs f)) = (p.protocol == "smb") ≡ true
Matches p (some (nfs f)) = (p.protocol == "smb") ≡ false

abbrev pub MatchesSelf : Payload → Type 0
MatchesSelf p = Matches p p.config

-- A share is read as one of its protocol, with its id.
pub record IsCifs (s : Share) (id : ℕ) : Type 0 where
  pub form : CifsForm
  pub is_form : s ≡ cifs form
  pub own_id : form.id ≡ some id

pub record IsNfs (s : Share) (id : ℕ) : Type 0 where
  pub form : NfsForm
  pub is_form : s ≡ nfs form
  pub own_id : form.id ≡ some id

pub smb-IsCifs :
    (d : Dto) (ulist : List AppUser) (c : Option Share)
    → Matches d.saved c
    → (d.saved.protocol == "smb") ≡ true
    → IsCifs (share_of d ulist c) d.id
unfolding share_of with_server Matches legacy_cifs
smb-IsCifs d ulist none m smb = rw smb (record { form = _; is_form = refl; own_id = refl })
smb-IsCifs d ulist (some (cifs f)) m smb = record { form = _; is_form = refl; own_id = refl }
smb-IsCifs d ulist (some (nfs f)) m smb = absurd (cc (m, smb))

pub other-IsNfs :
    (d : Dto) (ulist : List AppUser) (c : Option Share)
    → Matches d.saved c
    → (d.saved.protocol == "smb") ≡ false
    → IsNfs (share_of d ulist c) d.id
unfolding share_of with_server Matches legacy_nfs
other-IsNfs d ulist none m other = rw other (record { form = _; is_form = refl; own_id = refl })
other-IsNfs d ulist (some (nfs f)) m other = record { form = _; is_form = refl; own_id = refl }
other-IsNfs d ulist (some (cifs f)) m other = absurd (cc (m, other))
