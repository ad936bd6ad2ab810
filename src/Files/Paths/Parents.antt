-- ===== src/Files/Paths/Parents.antt =====
-- A path that `joinPath` makes has the directory as its `parentPath` (nasweb/frontend/src/js/app.js).
use Prim.Native.String
use text.Mathlib.TextLemmas.{nil-append, cons-append, append_assoc}
use ollozuna_nas.Prelude.{
  ℕ, suc, String, Char, code, Bool, false, ◌&&◌, none, some, ◌==◌, eqb, ◌+++◌, has_char, ◌≡◌, ◌≢◌,
  refl, sym, ap, ◌∙◌, ◌⊎◌, inl, inr, arith, eq_iff, Bool-cases, or-eq-false,
}
use ollozuna_nas.Files.Paths.{
  ends_with_slash, join_path, trim_slashes, last_slash, or_here, prefix_of, slice_parent,
  parent_path,
}

-- The number of characters.
pub size : String → ℕ
size String.[] = 0
size (String.◌∷◌ c s) = suc (size s)

pub cons-ne-nil : (c : Char) (s : String) → (String.◌∷◌ c s == "") ≡ false
unfolding size
cons-ne-nil c s = elim (Bool-cases (String.◌∷◌ c s == "")) [
  | inl e ↦
      let longer : suc (size s) ≡ 0 = ap size ((eq_iff (String.◌∷◌ c s) "").0 e) in
      absurd (omega (arith, longer))
  | inr e ↦ e
]

and_false : (b : Bool) → (b && false) ≡ false
and_false b = ground arith

-- A text that does not end in a slash is not shortened.
trim_of_name : (s : String) → ends_with_slash s ≡ false → trim_slashes s ≡ s
unfolding trim_slashes ends_with_slash
trim_of_name String.[] h = refl
trim_of_name (String.◌∷◌ c String.[]) h = rw h refl
trim_of_name (String.◌∷◌ c (String.◌∷◌ d s)) h =
    let same = trim_of_name (String.◌∷◌ d s) h in rw (same, cons-ne-nil d s, and_false) refl

pub last_slash_of_name : (s : String) → has_char b'/' s ≡ false → last_slash s ≡ none
unfolding last_slash or_here
last_slash_of_name String.[] h = refl
last_slash_of_name (String.◌∷◌ c s) h =
    let (e, k) = or-eq-false (eqb (code c) b'/') (has_char b'/' s) h in
    rw (last_slash_of_name s k, e) refl

pub last_slash_of_path :
    (base name : String)
    → has_char b'/' name ≡ false
    → last_slash (base +++ String.◌∷◌ "/" name) ≡ some (size base)
unfolding last_slash or_here size
last_slash_of_path String.[] name h = rw (nil-append, last_slash_of_name name h) refl
last_slash_of_path (String.◌∷◌ c base) name h =
    rw (cons-append, last_slash_of_path base name h) refl

pub prefix_of-size : (base s : String) → prefix_of (size base) (base +++ s) ≡ base
unfolding prefix_of size
prefix_of-size String.[] s = refl
prefix_of-size (String.◌∷◌ c base) s = rw cons-append (ap (String.◌∷◌ c) (prefix_of-size base s))

-- The name of a file: not empty, and without a slash.
abbrev pub IsName : String → Type 0
IsName s = (s ≢ "") × (has_char b'/' s ≡ false)

-- The path of a directory: the root, or a path that does not end in a slash.
abbrev pub IsDirectory : String → Type 0
IsDirectory s = (s ≡ "/") ⊎ ((s ≢ "") × (ends_with_slash s ≡ false))

name_ends : (s : String) → has_char b'/' s ≡ false → ends_with_slash s ≡ false
unfolding ends_with_slash
name_ends String.[] h = refl
name_ends (String.◌∷◌ c String.[]) h = (or-eq-false (eqb (code c) b'/') false h).0
name_ends (String.◌∷◌ c (String.◌∷◌ d s)) h =
    name_ends (String.◌∷◌ d s)
      (or-eq-false (eqb (code c) b'/') (has_char b'/' (String.◌∷◌ d s)) h).1

ends-append :
    (s : String) (c : Char) (u : String)
    → ends_with_slash (s +++ String.◌∷◌ c u) ≡ ends_with_slash (String.◌∷◌ c u)
unfolding ends_with_slash
ends-append String.[] c u = rw nil-append refl
ends-append (String.◌∷◌ d String.[]) c u = rw (cons-append, nil-append) refl
ends-append (String.◌∷◌ d (String.◌∷◌ e s)) c u =
    ap ends_with_slash (
      cons-append d (String.◌∷◌ e s) (String.◌∷◌ c u)
      ∙ ap (String.◌∷◌ d) (cons-append e s (String.◌∷◌ c u)))
    ∙ ap ends_with_slash (sym (cons-append e s (String.◌∷◌ c u)))
    ∙ ends-append (String.◌∷◌ e s) c u

-- The parent of a path is what stands before its last slash, or the root.
parent_of_path :
    (base name : String)
    → IsName name
    → parent_path (base +++ String.◌∷◌ "/" name)
      ≡ slice_parent (base +++ String.◌∷◌ "/" name) (some (size base))
unfolding parent_path ends_with_slash
parent_of_path base String.[] h = absurd (h.0 refl)
parent_of_path base (String.◌∷◌ c s) h =
    rw
      (
        trim_of_name _ (ends-append base "/" (String.◌∷◌ c s) ∙ name_ends (String.◌∷◌ c s) h.1),
        last_slash_of_path base (String.◌∷◌ c s) h.1,
      )
      refl

slice_base : (base s : String) → base ≢ "" → slice_parent (base +++ s) (some (size base)) ≡ base
unfolding slice_parent size
slice_base String.[] s h = absurd (h refl)
slice_base (String.◌∷◌ c base) s h = prefix_of-size (String.◌∷◌ c base) s

join_below :
    (base name : String)
    → ends_with_slash base ≡ false
    → join_path base name ≡ base +++ String.◌∷◌ "/" name
unfolding join_path
join_below base name h = rw h (
    append_assoc base "/" name
    ∙ ap (String.◌++◌ base) (cons-append "/" "" name ∙ ap (String.◌∷◌ "/") (nil-append name)))

join_root : (name : String) → join_path "/" name ≡ "" +++ String.◌∷◌ "/" name
unfolding join_path ends_with_slash
join_root name =
    cons-append "/" "" name ∙ ap (String.◌∷◌ "/") (nil-append name) ∙ sym (nil-append _)

-- The parent of a file's path is the directory that the path was made of, for every directory and
-- every name without a slash.
pub parent_path-join_path :
    (base name : String) → IsDirectory base → IsName name → parent_path (join_path base name) ≡ base
unfolding slice_parent size
parent_path-join_path base name (inl root) h = rw (root, join_root name) (parent_of_path "" name h)
parent_path-join_path base name (inr (some_path, below)) h =
    rw (join_below base name below)
      (parent_of_path base name h ∙ slice_base base (String.◌∷◌ "/" name) some_path)
