-- ===== src/Api/Uri/Safety.antt =====
-- What is put in a URL cannot change its structure (`encodeURIComponent` as the calls use it).
use Prim.Native.Char.{char}
use text.Mathlib.TextLemmas.{nil-append, cons-append, append_assoc}
use ollozuna_nas.Prelude.{
  ℕ, zero, suc, ◌+◌, ◌-◌, ◌*◌, ◌/◌, ◌%◌, ◌<◌, String, Char, code, Bool, true, false, ◌||◌, List, [],
  ◌∷◌, ◌++◌, eqb, leb, if◌then◌else◌, ◌+++◌, ◌≡◌, refl, ap, sym, ◌∙◌, arith, Bool-cases, inl, inr,
  eqb_iff, holds_from, test_of_holds_from,
}
use ollozuna_nas.Api.Uri.{
  is_unreserved, utf8, hex_char, percent, encode_char, encode_uri_component, nth_char,
}

-- An unreserved character or the percent sign: none of `/ ? & = # +` and no space.
abbrev pub IsSafeCode : ℕ → Type 0
IsSafeCode c = (is_unreserved c || eqb c b'%') ≡ true

abbrev pub IsUriSafe : String → Type 0
IsUriSafe String.[] = Unit
IsUriSafe (String.◌∷◌ c s) = IsSafeCode (code c) × IsUriSafe s

IsUriSafe-append : (s u : String) → IsUriSafe s → IsUriSafe u → IsUriSafe (s +++ u)
IsUriSafe-append String.[] u _ k = rw nil-append k
IsUriSafe-append (String.◌∷◌ c s) u (h, hs) k = rw cons-append (h, IsUriSafe-append s u hs k)

nth_char-IsSafe : (s : String) (n : ℕ) → IsUriSafe s → IsSafeCode (code (nth_char s n))
unfolding nth_char is_unreserved
nth_char-IsSafe String.[] n h = refl
nth_char-IsSafe (String.◌∷◌ c s) zero h = h.0
nth_char-IsSafe (String.◌∷◌ c s) (suc n) h = nth_char-IsSafe s n h.1

hex_char-IsSafe : (n : ℕ) → IsSafeCode (code (hex_char n))
unfolding hex_char is_unreserved
hex_char-IsSafe n = nth_char-IsSafe "0123456789ABCDEF" n (
  refl,
  (
    refl,
    (
      refl,
      (
        refl,
        (
          refl,
          (
            refl,
            (refl, (refl, (refl, (refl, (refl, (refl, (refl, (refl, (refl, (refl, tt)))))))))),
          ),
        ),
      ),
    ),
  ),
)

percent-IsUriSafe : (bs : List ℕ) → IsUriSafe (percent bs)
unfolding percent is_unreserved
percent-IsUriSafe [] = tt
percent-IsUriSafe (b ∷ bs) =
    (refl, (hex_char-IsSafe (b / 16), (hex_char-IsSafe (b % 16), percent-IsUriSafe bs)))

encode_char-IsUriSafe : (c : Char) → IsUriSafe (encode_char c)
unfolding encode_char
encode_char-IsUriSafe c = elim (Bool-cases (is_unreserved (code c))) [
  | inl e ↦ rw (e, encode_char) (rw e refl, tt)
  | inr e ↦ rw (e, encode_char) (percent-IsUriSafe (utf8 (code c)))
]

-- No text put in a URL brings in a separator: what `encodeURIComponent` gives is made of
-- unreserved characters and percent signs alone, so a name cannot end its path segment, open a
-- query or add a parameter.
pub encode_uri_component-IsUriSafe : (s : String) → IsUriSafe (encode_uri_component s)
unfolding encode_uri_component
encode_uri_component-IsUriSafe String.[] = tt
encode_uri_component-IsUriSafe (String.◌∷◌ c s) =
    IsUriSafe-append (encode_char c) (encode_uri_component s) (encode_char-IsUriSafe c)
      (encode_uri_component-IsUriSafe s)

pub encode-append :
    (s u : String)
    → encode_uri_component (s +++ u) ≡ encode_uri_component s +++ encode_uri_component u
unfolding encode_uri_component
encode-append String.[] u = simp nil-append
encode-append (String.◌∷◌ c s) u =
    rw (cons-append, encode-append s u) (sym (append_assoc (encode_char c) _ _))

-- The reading of an escaped text, as RFC 3986 has it: two hexadecimal digits behind a percent sign
-- are a byte, any other character is its own.
hex_value : ℕ → ℕ
hex_value d = if leb d b'9' then d - b'0' else if leb d b'F' then d - 55 else d - 87

pub unescape : String → List ℕ
unfolding hex_value
unescape (String.◌∷◌ c (String.◌∷◌ h (String.◌∷◌ l s))) =
    let escaped = (hex_value (code h) * 16 + hex_value (code l)) ∷ unescape s in
    let plain = code c ∷ unescape (String.◌∷◌ h (String.◌∷◌ l s)) in
    if eqb (code c) b'%' then escaped else plain
unescape (String.◌∷◌ c (String.◌∷◌ h String.[])) = code c ∷ code h ∷ []
unescape (String.◌∷◌ c String.[]) = code c ∷ []
unescape String.[] = []

-- The bytes of a text in UTF-8.
abbrev pub utf8_text : String → List ℕ
utf8_text String.[] = []
utf8_text (String.◌∷◌ c s) = utf8 (code c) ++ utf8_text s

-- The digits that `hex_char` writes are read back.
hex_ok : ℕ → Bool
hex_ok n = eqb (hex_value (code (hex_char n))) n

hex_table : holds_from hex_ok 0 16 ≡ true
unfolding holds_from hex_ok hex_value hex_char
hex_table = refl

hex_value-hex_char : (n : ℕ) → n < 16 → hex_value (code (hex_char n)) ≡ n
unfolding hex_ok
hex_value-hex_char n h =
    (eqb_iff _ n).0 (test_of_holds_from hex_ok 0 16 n hex_table (omega arith) h)

abbrev AllBytes : List ℕ → Type 0
AllBytes [] = Unit
AllBytes (b ∷ bs) = (b < 256) × AllBytes bs

unescape-percent :
    (bs : List ℕ) (s : String) → AllBytes bs → unescape (percent bs +++ s) ≡ bs ++ unescape s
unfolding percent unescape
unescape-percent [] s h = rw nil-append
unescape-percent (b ∷ bs) s (h, hs) =
    rw
      (
        cons-append,
        cons-append,
        cons-append,
        hex_value-hex_char (b / 16) (omega arith),
        hex_value-hex_char (b % 16) (omega arith),
        unescape-percent bs s hs,
      )
      (ap (λ (n : ℕ). n ∷ (bs ++ unescape s)) (omega arith))

unescape-plain :
    (c : Char) (s : String)
    → eqb (code c) b'%' ≡ false
    → unescape (String.◌∷◌ c s) ≡ code c ∷ unescape s
unfolding unescape
unescape-plain c String.[] h = refl
unescape-plain c (String.◌∷◌ d String.[]) h = refl
unescape-plain c (String.◌∷◌ d (String.◌∷◌ e s)) h = rw h refl

not_percent : (c : ℕ) → is_unreserved c ≡ true → eqb c b'%' ≡ false
unfolding is_unreserved
not_percent c h = ground arith

utf8_bytes : (c : ℕ) → c < 0x110000 → AllBytes (utf8 c)
unfolding utf8
utf8_bytes c h = ground arith

utf8_ascii : (c : ℕ) → is_unreserved c ≡ true → utf8 c ≡ c ∷ []
unfolding utf8 is_unreserved
utf8_ascii c h = ground arith

code-lt : (c : Char) → code c < 0x110000
code-lt (char n p) = ground arith

unescape-encode_char :
    (c : Char) (s : String) → unescape (encode_char c +++ s) ≡ utf8 (code c) ++ unescape s
unfolding encode_char
unescape-encode_char c s = elim (Bool-cases (is_unreserved (code c))) [
  | inl e ↦
      rw (e, encode_char, cons-append, nil-append, utf8_ascii (code c) e)
        (unescape-plain c s (not_percent (code c) e))
  | inr e ↦
      rw (e, encode_char) (unescape-percent (utf8 (code c)) s (utf8_bytes (code c) (code-lt c)))
]

-- The server reads back what was put in: unescaping an encoded text gives its bytes in UTF-8,
-- for every text.
pub unescape-encode : (s : String) → unescape (encode_uri_component s) ≡ utf8_text s
unfolding encode_uri_component unescape
unescape-encode String.[] = refl
unescape-encode (String.◌∷◌ c s) =
    unescape-encode_char c (encode_uri_component s) ∙ ap (utf8 (code c) ++◌) (unescape-encode s)
