-- ===== src/Prelude/Unique.antt =====
-- Lists of texts with no text twice.
use Prim.Native.String.{String}
use mathlib.Core.Path.{◌≡◌, refl}
use mathlib.Core.Bool.{Bool, true, false, not, ◌&&◌}
use mathlib.Core.List.{List, [], ◌∷◌, ◌++◌}
use native.Mathlib.Omega.{arith}
use text.Mathlib.TextEquality.{eq_iff}
use ollozuna_nas.Prelude.Lists.{filterb}
use ollozuna_nas.Prelude.Text.{includes, includes-append, includes-filterb}

-- No text is in the list twice.
unfoldable pub unique : List String → Bool
unique [] = true
unique (x ∷ xs) = not (includes xs x) && unique xs

pub unique-snoc :
    (xs : List String) (x : String)
    → unique xs ≡ true
    → includes xs x ≡ false
    → unique (xs ++ (x ∷ [])) ≡ true
unfolding unique
unique-snoc [] x u h = refl
unique-snoc (y ∷ xs) x u h =
    ground (arith, eq_iff y x, eq_iff x y, includes-append xs (x ∷ []) y, unique-snoc xs x)

pub unique-filterb :
    (p : String → Bool) (xs : List String) → unique xs ≡ true → unique (filterb p xs) ≡ true
unfolding unique
unique-filterb p [] u = refl
unique-filterb p (x ∷ xs) u = ground (arith, includes-filterb p xs x, unique-filterb p xs)
