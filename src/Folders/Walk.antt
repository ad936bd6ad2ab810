-- ===== src/Folders/Walk.antt =====
-- Walking through the folders (`FolderPicker`, nasweb/frontend/src/js/app.js).
use Prim.Native.String
use text.Mathlib.TextLemmas.{nil-append, cons-append, append_assoc}
use ollozuna_nas.Prelude.{
  String, false, ◌==◌, ◌+++◌, has_char, ◌≡◌, sym, ap, ◌∙◌, inl, inr, eq_iff, Bool-cases,
}
use ollozuna_nas.Files.Paths.Parents.{
  last_slash_of_path, last_slash_of_name, prefix_of-size, cons-ne-nil,
}
use ollozuna_nas.Folders.{Picker, root, below, abs, enter, up, up_of, slice_at, load}

slash : (base name : String) → base +++ "/" +++ name ≡ base +++ String.◌∷◌ "/" name
slash base name =
    append_assoc base "/" name
    ∙ ap (String.◌++◌ base) (cons-append "/" "" name ∙ ap (String.◌∷◌ "/") (nil-append name))

up_of-below : (rel name : String) → has_char b'/' name ≡ false → up_of (below rel name) ≡ rel
unfolding up_of below slice_at
up_of-below rel name h = elim (Bool-cases (rel == "")) [
  | inl e ↦ rw (e, last_slash_of_name name h) (sym ((eq_iff rel "").0 e))
  | inr e ↦
      rw (e, slash rel name, last_slash_of_path rel name h)
        (prefix_of-size rel (String.◌∷◌ "/" name))
]

longer : (rel s name : String) → (rel == "") ≡ false → (rel +++ s +++ name == "") ≡ false
longer String.[] s name h = absurd (cc h)
longer (String.◌∷◌ c rel) s name h =
    rw (cons-append, cons-append) (cons-ne-nil c (rel +++ s +++ name))

abs-below :
    (rel name : String) → (name == "") ≡ false → abs (below rel name) ≡ abs rel +++ "/" +++ name
unfolding abs below
abs-below rel name h = elim (Bool-cases (rel == "")) [
  | inl e ↦ rw (e, h) (sym (append_assoc root "/" name))
  | inr e ↦
      rw (e, longer (rel) ("/") name e)
        (ap (λ t. root +++ ("/" +++ t)) (append_assoc rel "/" name)
          ∙ sym (
              append_assoc (root +++ ("/" +++ rel)) "/" name
              ∙ append_assoc root ("/" +++ rel) ("/" +++ name)
              ∙ ap (String.◌++◌ root) (append_assoc "/" rel ("/" +++ name))))
]

-- Entering a folder whose name is not empty and has no slash puts a slash and its name behind the path that
-- can be chosen, and going up from there gives the folder back that was left.
pub enter-up :
    (p : Picker) (name : String)
    → (name == "") ≡ false
    → has_char b'/' name ≡ false
    → (abs (enter p name).0.rel ≡ abs p.rel +++ "/" +++ name)
      × ((up (enter p name).0).0.rel ≡ p.rel)
unfolding enter up load
enter-up p name h k = (abs-below p.rel name h, up_of-below p.rel name k)
