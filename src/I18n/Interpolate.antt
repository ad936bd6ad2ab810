-- ===== src/I18n/Interpolate.antt =====
-- What `interpolate` does to a text (the `replace` call of `t`, nasweb/frontend/src/js/i18n.js).
use text.Mathlib.TextLemmas.{nil-append, cons-append, append_assoc, append-nil}
use text.Mathlib.TextEquality.{Char-path}
use mathlib.Core.Bool.{and-eq-true_iff}
use ollozuna_nas.Prelude.{
  lookup, eqb_iff, String, Char, code, true, false, not, ◌&&◌, none, some, [], ◌≡◌, ◌≢◌, refl, sym,
  ap, ◌∙◌, arith, ◌==◌, eqb, eq_iff, ◌+++◌, single, Bool-cases, inl, inr,
}
use ollozuna_nas.I18n.{Params, is_word, placeholder, scan, interpolate}

open_brace : (s : String) → "{" +++ s ≡ String.◌∷◌ "{" s
open_brace s = cons-append "{" String.[] s ∙ ap (String.◌∷◌ "{") (nil-append s)

close_brace : (s : String) → "}" +++ s ≡ String.◌∷◌ "}" s
close_brace s = cons-append "}" String.[] s ∙ ap (String.◌∷◌ "}") (nil-append s)

ruleset text_laws = (append_assoc, cons-append, nil-append, open_brace, close_brace)

char_of_code : (c d : Char) → eqb (code c) (code d) ≡ true → c ≡ d
char_of_code c d h = Char-path c d ((eqb_iff (code c) (code d)).0 h)

-- With no parameters every placeholder is put back as it was, also one that is still being read.
scan_nil :
    (s : String) → (scan [] none s ≡ s) × ((w : String) → scan [] (some w) s ≡ "{" +++ w +++ s)
unfolding scan placeholder lookup
scan_nil String.[] = (refl, λ w. sym (append-nil _))
scan_nil (String.◌∷◌ c s) =
    let (closed, opened) = scan_nil s in
    (
      elim (Bool-cases (eqb (code c) b'{')) [
        | inl e ↦ rw (e, opened "", char_of_code c "{" e) (simp text_laws)
        | inr e ↦ rw (e, closed) refl
      ],
      λ w. elim (Bool-cases (is_word (code c))) [
        | inl e ↦ rw (e, opened (w +++ single c)) (simp text_laws)
        | inr e ↦ rw e (elim (Bool-cases (eqb (code c) b'}' && not (w == ""))) [
          | inl f ↦
              rw (f, closed)
                (rw (char_of_code c "}" ((and-eq-true_iff _ _).0 f).0) (simp text_laws))
          | inr f ↦ rw f (elim (Bool-cases (eqb (code c) b'{')) [
            | inl g ↦ rw (g, opened "", char_of_code c "{" g) (simp text_laws)
            | inr g ↦ rw (g, closed) refl
          ])
        ])
      ],
    )

-- A message whose parameters are not given is shown as it stands in the dictionary.
pub interpolate-nil : (s : String) → interpolate [] s ≡ s
unfolding interpolate
interpolate-nil s = (scan_nil s).0

abbrev pub NoBrace : String → Type 0
NoBrace String.[] = Unit
NoBrace (String.◌∷◌ c s) = (eqb (code c) b'{' ≡ false) × NoBrace s

abbrev pub IsWord : String → Type 0
IsWord String.[] = Unit
IsWord (String.◌∷◌ c s) = (is_word (code c) ≡ true) × IsWord s

scan-append :
    (ps : Params) (pre rest : String)
    → NoBrace pre
    → scan ps none (pre +++ rest) ≡ pre +++ scan ps none rest
unfolding scan
scan-append ps String.[] rest h = simp nil-append
scan-append ps (String.◌∷◌ c pre) rest (h, hs) =
    rw (cons-append, h, scan-append ps pre rest hs) (sym (cons-append c pre _))

ne_false : (s u : String) → s ≢ u → (s == u) ≡ false
ne_false s u h = ground (arith, eq_iff s u)

scan_word :
    (ps : Params) (w k post : String)
    → IsWord k
    → w +++ k ≢ ""
    → scan ps (some w) (k +++ ("}" +++ post)) ≡ placeholder ps (w +++ k) +++ scan ps none post
unfolding scan is_word
scan_word ps w String.[] post h ne =
    rw (nil-append, close_brace, append-nil, ne_false w "" (λ e. ne (append-nil w ∙ e))) refl
scan_word ps w (String.◌∷◌ c k) post (h, hs) ne =
    rw (cons-append, h, scan_word ps (w +++ single c) k post hs (rw step ne), step) refl
  where
    step : w +++ single c +++ k ≡ w +++ String.◌∷◌ c k
    step = simp text_laws

placeholder_found : (ps : Params) (k v : String) → lookup k ps ≡ some v → placeholder ps k ≡ v
unfolding placeholder
placeholder_found ps k v found = rw (found, placeholder)

-- A placeholder whose parameter is given is replaced by its value, and what follows is read on
-- from there; the text before it is kept.
pub interpolate_subst :
    (ps : Params) (pre k v post : String)
    → NoBrace pre
    → IsWord k
    → k ≢ ""
    → lookup k ps ≡ some v
    → interpolate ps (pre +++ ("{" +++ (k +++ ("}" +++ post))))
      ≡ pre +++ (v +++ interpolate ps post)
unfolding interpolate
interpolate_subst ps pre k v post clean word ne found = rw (scan-append ps pre _ clean) (
    simp open_brace (
      rw
        (
          scan_word ps "" k post word (λ e. ne (sym (nil-append k) ∙ e)),
          nil-append k,
          placeholder_found ps k v found,
        )
        refl))
