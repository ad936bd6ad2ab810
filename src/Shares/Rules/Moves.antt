-- ===== src/Shares/Rules/Moves.antt =====
-- How the rules of an NFS share are moved: `moveRule` of `NFSRulesEditor`, nasweb/frontend/src/js/app.js.
use ollozuna_nas.Prelude.{
  ℕ, zero, suc, ◌<◌, true, false, Option, some, List, [], ◌∷◌, eqb, leb, if◌then◌else◌, get_elem?,
  set, length, ◌≡◌, refl, ap, sym, ◌∙◌, arith, inl, inr, Bool-cases,
}
use ollozuna_nas.Shares.{Rule}
use ollozuna_nas.Shares.Rules.{swap, move_rule, up, down}

module _ {ℓ} {A : Type ℓ} where
  length-set : (xs : List A) (i : ℕ) (v : A) → length (set xs i v) ≡ length xs
  length-set [] i v = refl
  length-set (x ∷ xs) zero v = refl
  length-set (x ∷ xs) (suc i) v = ap suc (length-set xs i v)

  get_elem?-set :
      (xs : List A) (i : ℕ) (v : A) (k : ℕ)
      → i < length xs
      → get_elem? (set xs i v) k ≡ (if eqb k i then some v else get_elem? xs k)
  get_elem?-set [] i v k h = absurd (omega arith)
  get_elem?-set (x ∷ xs) zero v zero h = refl
  get_elem?-set (x ∷ xs) zero v (suc k) h = ground arith
  get_elem?-set (x ∷ xs) (suc i) v zero h = ground arith
  get_elem?-set (x ∷ xs) (suc i) v (suc k) h = get_elem?-set xs i v k (omega arith) ∙ ground arith

  get_elem?-below : (xs : List A) (i : ℕ) → i < length xs → (a : A) × (get_elem? xs i ≡ some a)
  get_elem?-below [] i h = absurd (omega arith)
  get_elem?-below (x ∷ xs) zero h = (x, refl)
  get_elem?-below (x ∷ xs) (suc i) h = get_elem?-below xs i (omega arith)

  -- Lists with the same entries are the same.
  same_entries : (xs ys : List A) → ((k : ℕ) → get_elem? xs k ≡ get_elem? ys k) → xs ≡ ys
  same_entries [] [] h = refl
  same_entries [] (y ∷ ys) h = absurd (cc (h 0))
  same_entries (x ∷ xs) [] h = absurd (cc (h 0))
  same_entries (x ∷ xs) (y ∷ ys) h =
      let first : x ≡ y = cc (h 0) in
      let rest = same_entries xs ys (λ k. h (suc k)) in cc (first, rest)

-- The index that has come to an index when a rule and the next one are exchanged.
abbrev pub exchanged : ℕ → ℕ → ℕ
exchanged i k = if eqb k i then suc i else if eqb k (suc i) then i else k

not_last : (m n : ℕ) → suc m < n → leb n (suc m) ≡ false
not_last m n h = ground arith

not_both : (i k : ℕ) → eqb k (suc i) ≡ true → eqb k i ≡ false
not_both i k h = ground arith

later :
    (i k : ℕ) (entry : ℕ → Option Rule) (a b : Rule) (x : Option Rule)
    → entry i ≡ some a
    → entry (suc i) ≡ some b
    → x ≡ (if eqb k i then some b else entry k)
    → (if eqb k (suc i) then some a else x) ≡ entry (exchanged i k)
later i k entry a b x ea eb e = elim (Bool-cases (eqb k (suc i))) [
  | inl second ↦ rw (second, not_both i k second) (sym ea)
  | inr other ↦ elim (Bool-cases (eqb k i)) [
    | inl first ↦ rw (other, first) ((rw first at e) ∙ sym eb)
    | inr neither ↦ rw (other, neither) (rw neither at e)
  ]
]

earlier :
    (i k : ℕ) (entry : ℕ → Option Rule) (a b : Rule) (x : Option Rule)
    → entry i ≡ some a
    → entry (suc i) ≡ some b
    → x ≡ (if eqb k (suc i) then some a else entry k)
    → (if eqb k i then some b else x) ≡ entry (exchanged i k)
earlier i k entry a b x ea eb e = elim (Bool-cases (eqb k i)) [
  | inl first ↦ rw first (sym eb)
  | inr other ↦ elim (Bool-cases (eqb k (suc i))) [
    | inl second ↦ rw (other, second) ((rw second at e) ∙ sym ea)
    | inr neither ↦ rw (other, neither) (rw neither at e)
  ]
]

-- Two neighbours of a list, exchanged.
exchange_index :
    (rules : List Rule) (i k : ℕ) (a b : Rule)
    → suc i < length rules
    → get_elem? rules i ≡ some a
    → get_elem? rules (suc i) ≡ some b
    → (get_elem? (set (set rules i b) (suc i) a) k ≡ get_elem? rules (exchanged i k))
      × (get_elem? (set (set rules (suc i) a) i b) k ≡ get_elem? rules (exchanged i k))
exchange_index rules i k a b h ea eb =
    let len = length-set rules i b in
    let len' = length-set rules (suc i) a in
    let inner = get_elem?-set rules i b k (omega (arith, h)) in
    let inner' = get_elem?-set rules (suc i) a k h in
    let outer = get_elem?-set (set rules i b) (suc i) a k (omega (arith, len, h)) in
    let outer' = get_elem?-set (set rules (suc i) a) i b k (omega (arith, len', h)) in
    (
      outer ∙ later i k (get_elem? rules) a b _ ea eb inner,
      outer' ∙ earlier i k (get_elem? rules) a b _ ea eb inner',
    )

move-down :
    (rules : List Rule) (i : ℕ) (a b : Rule)
    → suc i < length rules
    → get_elem? rules i ≡ some a
    → get_elem? rules (suc i) ≡ some b
    → move_rule rules i down ≡ set (set rules i b) (suc i) a
unfolding move_rule swap
move-down rules i a b h ea eb = rw (not_last i (length rules) h, ea, eb) refl

move-up :
    (rules : List Rule) (i : ℕ) (a b : Rule)
    → get_elem? rules i ≡ some a
    → get_elem? rules (suc i) ≡ some b
    → move_rule rules (suc i) up ≡ set (set rules (suc i) a) i b
unfolding move_rule swap
move-up rules i a b ea eb = rw (ea, eb) refl

exchanged-exchanged : (i k : ℕ) → exchanged i (exchanged i k) ≡ k
exchanged-exchanged i k = ground arith

record Moved (rules : List Rule) (i : ℕ) : Type 0 where
  length_kept : length (move_rule rules i down) ≡ length rules
  by_index : (k : ℕ) → get_elem? (move_rule rules i down) k ≡ get_elem? rules (exchanged i k)
  same : move_rule rules (suc i) up ≡ move_rule rules i down

moved : (rules : List Rule) (i : ℕ) → suc i < length rules → Moved rules i
moved rules i h =
    let (a, ea) = get_elem?-below rules i (omega (arith, h)) in
    let (b, eb) = get_elem?-below rules (suc i) h in
    let down_is = move-down rules i a b h ea eb in
    let up_is = move-up rules i a b ea eb in
    record {
      length_kept = ap length down_is ∙ length-set (set rules i b) (suc i) a ∙ length-set rules i b;
      by_index = λ k. ap (λ r. get_elem? r k) down_is ∙ (exchange_index rules i k a b h ea eb).0;
      same =
          up_is
          ∙ same_entries _ _ (λ k.
            (exchange_index rules i k a b h ea eb).1 ∙ sym (exchange_index rules i k a b h ea eb).0)
          ∙ sym down_is;
    }

-- A rule that has one below it is exchanged with that one by its button for down, no rule else is
-- touched, and the other's button for up does the same; so moving it down and up again gives the list as
-- it was.
pub move_rule-move_rule :
    (rules : List Rule) (i k : ℕ)
    → suc i < length rules
    → (get_elem? (move_rule rules i down) k ≡ get_elem? rules (exchanged i k))
      × (move_rule rules (suc i) up ≡ move_rule rules i down)
      × (move_rule (move_rule rules i down) (suc i) up ≡ rules)
move_rule-move_rule rules i k h =
    let m = moved rules i h in
    let n = moved (move_rule rules i down) i (omega (arith, h, m.length_kept)) in
    (
      m.by_index k,
      m.same,
      n.same
          ∙ same_entries _ _ (λ j.
            n.by_index j
            ∙ m.by_index (exchanged i j)
            ∙ ap (get_elem? rules) (exchanged-exchanged i j)),
    )
