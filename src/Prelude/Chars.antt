-- ===== src/Prelude/Chars.antt =====
-- Tests of every character of a text, and of the pieces that it is split in.
use Prim.Native.Nat.{ℕ}
use Prim.Native.Char.{code}
use Prim.Native.String.{String}
use text.Mathlib.TextLemmas.{nil-append, cons-append}
use mathlib.Core.Path.{◌≡◌, refl, sym, ap, ◌∙◌}
use mathlib.Core.Logic.{inl, inr}
use mathlib.Core.Bool.{Bool, true, false, ◌&&◌, ◌||◌}
use native.Mathlib.Omega.{arith}
use ollozuna_nas.Prelude.Tests.{eqb, eqb_iff, Bool-cases, and-eq-true}
use ollozuna_nas.Prelude.Lists.{all}
use mathlib.Core.Option.{Option, none, some}
use ollozuna_nas.Prelude.Text.{◌+++◌, single, split, split_from, strip_prefix}

-- Every character passes the test.
abbrev pub all_chars : (ℕ → Bool) → String → Bool
all_chars p String.[] = true
all_chars p (String.◌∷◌ c s) = p (code c) && all_chars p s

all_chars-append :
    (p : ℕ → Bool) (s u : String) → all_chars p (s +++ u) ≡ (all_chars p s && all_chars p u)
all_chars-append p String.[] u = rw nil-append refl
all_chars-append p (String.◌∷◌ c s) u = rw cons-append (ground (arith, all_chars-append p s u))

pieces_pass :
    (p : ℕ → Bool) (sep : ℕ) (cur s : String)
    → p sep ≡ true
    → all (all_chars p) (split_from sep cur s) ≡ true
    → (all_chars p cur ≡ true) × (all_chars p s ≡ true)
unfolding split_from
pieces_pass p sep cur String.[] m h = ((and-eq-true _ _ h).0, refl)
pieces_pass p sep cur (String.◌∷◌ c s) m h = elim (Bool-cases (eqb (code c) sep)) [
  | inl e ↦
      let (now, later) =
        and-eq-true (all_chars p cur) (all (all_chars p) (split_from sep "" s)) (rw e at h) in
      let rest = (pieces_pass p sep "" s m later).1 in
      let here : p (code c) ≡ true = ap p ((eqb_iff (code c) sep).0 e) ∙ m in
      (now, rw (here, rest) refl)
  | inr e ↦
      let (long, rest) = pieces_pass p sep (cur +++ single c) s m (rw e at h) in
      let (now, here) =
        and-eq-true (all_chars p cur) (all_chars p (single c))
          (sym (all_chars-append p cur (single c)) ∙ long) in
      let passes : p (code c) ≡ true = (and-eq-true (p (code c)) true here).0 in
      (now, rw (passes, rest) refl)
]

-- A test that the separator passes and every piece passes, the text passes.
pub all_chars-split :
    (p : ℕ → Bool) (sep : ℕ) (s : String)
    → p sep ≡ true
    → all (all_chars p) (split sep s) ≡ true
    → all_chars p s ≡ true
unfolding split
all_chars-split p sep s m h = (pieces_pass p sep "" s m h).1

-- A test that implies another does so for every character.
pub all_chars_mono :
    (p q : ℕ → Bool) (s : String)
    → ((c : ℕ) → p c ≡ true → q c ≡ true)
    → all_chars p s ≡ true
    → all_chars q s ≡ true
all_chars_mono p q String.[] h a = refl
all_chars_mono p q (String.◌∷◌ c s) h a =
    let (now, rest) = and-eq-true (p (code c)) (all_chars p s) a in
    let passes : q (code c) ≡ true = h (code c) now in rw (passes, all_chars_mono p q s h rest) refl

abbrev is_there : Option String → Bool
is_there none = false
is_there (some _) = true

-- `s.includes(q)`.
unfoldable pub contains : String → String → Bool
unfolding strip_prefix
contains q String.[] = is_there (strip_prefix q "")
contains q (String.◌∷◌ c s) = is_there (strip_prefix q (String.◌∷◌ c s)) || contains q s
