-- ===== src/Prelude/Maps.antt =====
-- Objects used as maps from texts: `o[key]`, `{ ...o, [key]: v }` and `delete o[key]`.
use Prim.Native.String.{String}
use mathlib.Core.Path.{◌≡◌, refl}
use mathlib.Core.Option.{Option, none, some}
use mathlib.Core.List.{List, [], ◌∷◌}
use native.Mathlib.Omega.{arith}
use text.Mathlib.TextEquality.{eq_iff}
use ollozuna_nas.Prelude.Tests.{◌==◌, if◌then◌else◌}

module _ {ℓ} {V : Type ℓ} where
  unfoldable pub lookup : String → List (String × V) → Option V
  lookup key [] = none
  lookup key ((at, v) ∷ rest) = if at == key then some v else lookup key rest

  unfoldable pub put : String → V → List (String × V) → List (String × V)
  put key v [] = (key, v) ∷ []
  put key v ((at, w) ∷ rest) = if at == key then (key, v) ∷ rest else (at, w) ∷ put key v rest

  unfoldable pub remove : String → List (String × V) → List (String × V)
  remove key [] = []
  remove key ((at, w) ∷ rest) = if at == key then remove key rest else (at, w) ∷ remove key rest

  pub lookup-put :
      (key at : String) (v : V) (rest : List (String × V))
      → lookup at (put key v rest) ≡ (if key == at then some v else lookup at rest)
  unfolding lookup put
  lookup-put key at v [] = refl
  lookup-put key at v ((i, w) ∷ rest) =
      ground (arith, eq_iff key at, eq_iff i key, eq_iff i at, lookup-put key at v rest)

  pub lookup-remove :
      (key at : String) (rest : List (String × V))
      → lookup at (remove key rest) ≡ (if key == at then none else lookup at rest)
  unfolding lookup remove
  lookup-remove key at [] = ground arith
  lookup-remove key at ((i, w) ∷ rest) =
      ground (arith, eq_iff key at, eq_iff i key, eq_iff i at, lookup-remove key at rest)
