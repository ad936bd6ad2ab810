-- ===== src/Prelude/Text.antt =====
-- The string methods that the code calls, by recursion on the text, and sets of texts.
use Prim.Native.Nat.{ℕ, zero, suc, ◌/◌, ◌%◌}
use Prim.Native.Char.{Char, code}
use Prim.Native.String
use Prim.Native.String.{String}
use text.Mathlib.TextLemmas.{nil-append, cons-append, append-nil, append_assoc}
use mathlib.Core.Path.{◌≡◌, refl, subst, sym, ap, ◌∙◌}
use text.Mathlib.TextEquality.{eq_iff}
use mathlib.Core.Logic.{inl, inr}
use mathlib.Core.Bool.{Bool, true, false, ◌||◌, ◌&&◌}
use mathlib.Core.Option.{Option, none, some}
use mathlib.Core.List.{List, [], ◌∷◌, ◌++◌}
use native.Mathlib.Omega.{arith}
use ollozuna_nas.Prelude.Tests.{◌==◌, eqb, eqb_iff, ltb, if◌then◌else◌, Bool-cases, or-eq-false}
use ollozuna_nas.Prelude.Lists.{All, filterb}

-- `s + t`.
infixl 65 ◌+++◌
abbrev pub ◌+++◌ : String → String → String
s +++ t = String.◌++◌ s t

abbrev pub single : Char → String
single c = String.◌∷◌ c String.[]

-- The decimal digit of a number below ten.
abbrev digit : ℕ → Char
digit zero = "0"
digit (suc zero) = "1"
digit (suc (suc zero)) = "2"
digit (suc (suc (suc zero))) = "3"
digit (suc (suc (suc (suc zero)))) = "4"
digit (suc (suc (suc (suc (suc zero))))) = "5"
digit (suc (suc (suc (suc (suc (suc zero)))))) = "6"
digit (suc (suc (suc (suc (suc (suc (suc zero))))))) = "7"
digit (suc (suc (suc (suc (suc (suc (suc (suc zero)))))))) = "8"
digit _ = "9"

show_from : ℕ → ℕ → String → String
show_from zero n acc = acc
show_from (suc fuel) n acc =
    let longer = show_from fuel (n / 10) (String.◌∷◌ (digit (n % 10)) acc) in
    if ltb n 10 then String.◌∷◌ (digit n) acc else longer

-- `String(n)`: a number has no more decimal digits than its successor counts.
unfoldable pub show_ℕ : ℕ → String
unfolding show_from
show_ℕ n = show_from (suc n) n ""

-- `s.split(sep)` for a separator of one character; the last piece is what is left.
unfoldable pub split_from : ℕ → String → String → List String
split_from sep cur String.[] = cur ∷ []
split_from sep cur (String.◌∷◌ c s) =
    let closed = cur ∷ split_from sep "" s in
    let longer = split_from sep (cur +++ single c) s in if eqb (code c) sep then closed else longer

unfoldable pub split : ℕ → String → List String
unfolding split_from
split sep s = split_from sep "" s

-- `xs.join(sep)`.
abbrev pub join : String → List String → String
join sep [] = ""
join sep (x ∷ []) = x
join sep (x ∷ y ∷ ys) = x +++ sep +++ join sep (y ∷ ys)

-- The text has a character of this code.
abbrev pub has_char : ℕ → String → Bool
has_char sep String.[] = false
has_char sep (String.◌∷◌ c s) = eqb (code c) sep || has_char sep s

has_char-append :
    (sep : ℕ) (s u : String) → has_char sep (s +++ u) ≡ (has_char sep s || has_char sep u)
has_char-append sep String.[] u = rw nil-append refl
has_char-append sep (String.◌∷◌ c s) u = rw cons-append (ground (arith, has_char-append sep s u))

longer-lacks :
    (sep : ℕ) (cur : String) (c : Char)
    → has_char sep cur ≡ false
    → eqb (code c) sep ≡ false
    → has_char sep (cur +++ single c) ≡ false
longer-lacks sep cur c h e = rw (has_char-append, h, e) refl

split_from-lacks :
    (sep : ℕ) (cur s : String)
    → has_char sep cur ≡ false
    → All (λ p. has_char sep p ≡ false) (split_from sep cur s)
unfolding split_from
split_from-lacks sep cur String.[] h = (h, tt)
split_from-lacks sep cur (String.◌∷◌ c s) h = elim (Bool-cases (eqb (code c) sep)) [
  | inl e ↦ rw e (h, split_from-lacks sep "" s refl)
  | inr e ↦ rw e (split_from-lacks sep (cur +++ single c) s (longer-lacks sep cur c h e))
]

-- No piece has the separator.
pub split-lacks : (sep : ℕ) (s : String) → All (λ p. has_char sep p ≡ false) (split sep s)
unfolding split
split-lacks sep s = split_from-lacks sep "" s refl

split_from-piece :
    (sep : ℕ) (cur u s : String)
    → has_char sep u ≡ false
    → split_from sep cur (u +++ s) ≡ split_from sep (cur +++ u) s
unfolding split_from
split_from-piece sep cur String.[] s h = rw (nil-append, append-nil) refl
split_from-piece sep cur (String.◌∷◌ c u) s h =
    let (e, k) = or-eq-false (eqb (code c) sep) (has_char sep u) h in
    rw (cons-append, e)
      (split_from-piece sep (cur +++ single c) u s k
        ∙ ap (λ t. split_from sep t s)
            (append_assoc cur (single c) u
              ∙ ap (String.◌++◌ cur) (cons-append c "" u ∙ ap (String.◌∷◌ c) (nil-append u))))

-- Pieces without the separator are read back from their join.
pub split-join :
    (c : Char) (x : String) (xs : List String)
    → All (λ p. has_char (code c) p ≡ false) (x ∷ xs)
    → split (code c) (join (single c) (x ∷ xs)) ≡ x ∷ xs
unfolding split split_from
split-join c x [] (h, _) =
    ap (split_from (code c) "") (sym (append-nil x))
    ∙ split_from-piece (code c) "" x "" h
    ∙ ap (λ p. p ∷ []) (nil-append x)
split-join c x (y ∷ ys) (h, hs) =
    let J = join (single c) (y ∷ ys) in
    ap (split_from (code c) "") (
      append_assoc x (single c) J
      ∙ ap (String.◌++◌ x) (cons-append c "" J ∙ ap (String.◌∷◌ c) (nil-append J)))
    ∙ split_from-piece (code c) "" x (String.◌∷◌ c J) h
    ∙ rw (nil-append, (eqb_iff (code c) (code c)).1 refl) (ap (x ∷◌) (split-join c y ys hs))

-- What follows a prefix, if the text starts with it.
unfoldable pub strip_prefix : String → String → Option String
strip_prefix String.[] s = some s
strip_prefix (String.◌∷◌ _ _) String.[] = none
strip_prefix (String.◌∷◌ d p) (String.◌∷◌ c s) =
    if eqb (code d) (code c) then strip_prefix p s else none

pub strip_prefix-append : (p s : String) → strip_prefix p (p +++ s) ≡ some s
unfolding strip_prefix
strip_prefix-append String.[] s = rw nil-append
strip_prefix-append (String.◌∷◌ c p) s =
    rw (cons-append, (eqb_iff (code c) (code c)).1 refl) (strip_prefix-append p s)

-- `xs.includes(x)`, and `new Set(xs).has(x)`.
abbrev pub includes : List String → String → Bool
includes [] k = false
includes (x ∷ xs) k = x == k || includes xs k

-- What holds of every text of a list holds of a text that it includes.
pub All-includes :
    (P : String → Type 0) (xs : List String) (k : String) → All P xs → includes xs k ≡ true → P k
All-includes P [] k a h = cc
All-includes P (x ∷ xs) k (p, a) h = elim (Bool-cases (x == k)) [
  | inl e ↦ subst P ((eq_iff x k).0 e) p
  | inr e ↦ All-includes P xs k a (rw e at h)
]

pub includes-filterb :
    (p : String → Bool) (xs : List String) (x : String)
    → includes xs x ≡ false
    → includes (filterb p xs) x ≡ false
includes-filterb p [] x h = refl
includes-filterb p (y ∷ xs) x h = ground (arith, includes-filterb p xs x)

pub includes-append :
    (xs ys : List String) (x : String) → includes (xs ++ ys) x ≡ (includes xs x || includes ys x)
includes-append [] ys x = refl
includes-append (y ∷ xs) ys x = ground (arith, includes-append xs ys x)

-- A text is among those that pass a test exactly when it is in the list and passes the test.
pub includes-filterb_eq :
    (p : String → Bool) (xs : List String) (x : String)
    → includes (filterb p xs) x ≡ (p x && includes xs x)
includes-filterb_eq p [] x = ground arith
includes-filterb_eq p (y ∷ xs) x = ground (arith, eq_iff y x, includes-filterb_eq p xs x)
