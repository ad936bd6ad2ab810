-- ===== src/Shares/Server/Table.antt =====
-- A server for the runs: a table of shares with a next id.
use ollozuna_nas.Prelude.{
  ℕ, zero, suc, ◌||◌, Bool, true, false, Option, none, some, List, [], ◌∷◌, eqb, eqb_iff, ltb,
  if◌then◌else◌, ◌≡◌, refl, ap, ◌∙◌, arith, inl, inr, Bool-cases, Option-cases,
}
use ollozuna_nas.Shares.{Payload, Dto}
use ollozuna_nas.Shares.Mapping.Saved.{stored}
use ollozuna_nas.Shares.Server.{Server, find_dto, stored_at, Distinct}
use ollozuna_nas.Shares.Server.Changes.{over}

pub record Table : Type 0 where
  pub next : ℕ
  pub rows : ℕ → Option Payload

abbrev pub get : Table → ℕ → Option Payload
get t id = if ltb id t.next then t.rows id else none

abbrev with_row : ℕ → Option Payload → List Dto → List Dto
with_row id none ds = ds
with_row id (some p) ds = stored id p ∷ ds

abbrev pub rows_below : (ℕ → Option Payload) → ℕ → List Dto
rows_below rows zero = []
rows_below rows (suc n) = with_row n (rows n) (rows_below rows n)

still_below : (n id : ℕ) → eqb n id ≡ false → ltb id (suc n) ≡ ltb id n
still_below n id h = ground arith

ltb_self : (n : ℕ) → ltb n n ≡ false
ltb_self n = ground arith

ltb_next : (n : ℕ) → ltb n (suc n) ≡ true
ltb_next n = ground arith

found_row :
    (rows : ℕ → Option Payload) (n id : ℕ) (o : Option Payload)
    → rows n ≡ o
    → find_dto (rows_below rows n) id ≡ stored_at id (if ltb id n then rows id else none)
    → find_dto (with_row n o (rows_below rows n)) id
      ≡ stored_at id (if ltb id (suc n) then rows id else none)
found_row rows n id none e h = elim (Bool-cases (eqb n id)) [
  | inl same ↦ let k = (eqb_iff n id).0 same in h ∙ rw (← k, ltb_self n, ltb_next n, e) refl
  | inr differs ↦ rw (still_below n id differs) h
]
found_row rows n id (some p) e h = elim (Bool-cases (eqb n id)) [
  | inl same ↦ let k = (eqb_iff n id).0 same in rw (same, ← k, ltb_next n, e) refl
  | inr differs ↦ rw (differs, still_below n id differs) h
]

pub found :
    (rows : ℕ → Option Payload) (n id : ℕ)
    → find_dto (rows_below rows n) id ≡ stored_at id (if ltb id n then rows id else none)
found rows zero id = ground arith
found rows (suc n) id = found_row rows n id (rows n) refl (found rows n id)

pub rows_below-Distinct : (rows : ℕ → Option Payload) (n : ℕ) → Distinct (rows_below rows n)
unfolding Distinct
rows_below-Distinct rows zero = tt
rows_below-Distinct rows (suc n) = elim (Option-cases (rows n)) [
  | inl e ↦ rw e (rows_below-Distinct rows n)
  | inr (p, e) ↦ rw e (found rows n n ∙ rw (ltb_self n) refl, rows_below-Distinct rows n)
]

abbrev pub set_row : ℕ → Payload → Table → Table
set_row at p t = record t { rows = λ id. if eqb at id then over p (t.rows id) else t.rows id }

pub set_row-none :
    (t : Table) (at : ℕ) (p : Payload) → get t at ≡ none → get (set_row at p t) at ≡ none
set_row-none t at p h = elim (Bool-cases (ltb at t.next)) [
  | inl below ↦ rw (below, (eqb_iff at at).1 refl) (ap (over p) (rw below at h))
  | inr above ↦ rw above refl
]

pub set_row-some :
    (t : Table) (at : ℕ) (p q : Payload) → get t at ≡ some q → get (set_row at p t) at ≡ some p
set_row-some t at p q h = elim (Bool-cases (ltb at t.next)) [
  | inl below ↦ rw (below, (eqb_iff at at).1 refl) (ap (over p) (rw below at h))
  | inr above ↦ absurd (cc (rw above at h))
]

abbrev pub add_row : Payload → Table → Table
add_row p t = record { next = suc t.next; rows = λ id. if eqb t.next id then some p else t.rows id }

abbrev pub drop_row : ℕ → Table → Table
drop_row at t = record t { rows = λ id. if eqb at id then none else t.rows id }

pub get-add_row :
    (t : Table) (p : Payload) (id : ℕ)
    → get (add_row p t) id ≡ (if eqb t.next id then some p else get t id)
get-add_row t p id = ground arith

pub get-set_row :
    (t : Table) (at : ℕ) (p : Payload) (id : ℕ)
    → eqb at id ≡ false
    → get (set_row at p t) id ≡ get t id
get-set_row t at p id h = ground arith

pub get-drop_row :
    (t : Table) (at id : ℕ) → get (drop_row at t) id ≡ (if eqb at id then none else get t id)
get-drop_row t at id = ground arith

pub or_true : (b : Bool) → (b || true) ≡ true
or_true b = ground arith

unfoldable pub table_server : Server Table
table_server = record {
  read = get;
  listing = λ (t : Table). rows_below t.rows t.next;
  fresh = λ (t : Table). t.next;
  create = λ t p. add_row p t;
  update = λ t at confirm p. if p.enabled || confirm then set_row at p t else t;
  delete = λ t at. drop_row at t;
  listed = λ t id. found t.rows t.next id;
  distinct = λ t. rows_below-Distinct t.rows t.next;
  read-create = get-add_row;
  read-update_other = λ t at p id h. rw (or_true p.enabled) (get-set_row t at p id h);
  read-update_none = λ t at p h. rw (or_true p.enabled) (set_row-none t at p h);
  read-update_some = λ t at p q h. rw (or_true p.enabled) (set_row-some t at p q h);
  read-delete = get-drop_row;
}
