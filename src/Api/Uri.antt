-- ===== src/Api/Uri.antt =====
-- `encodeURIComponent`, which the calls of nasweb/frontend/src/js/api.js apply to what they put in a URL.
pub mod Safety
use Prim.Native.String
use ollozuna_nas.Prelude.{
  ℕ, zero, suc, ◌+◌, ◌/◌, ◌%◌, String, Char, code, Bool, ◌&&◌, ◌||◌, List, [], ◌∷◌, eqb, leb, ltb,
  if◌then◌else◌, ◌+++◌, single, ◌≡◌, refl,
}

-- The characters that are left as they are: letters, digits and `-_.!~*'()`.
pub is_unreserved : ℕ → Bool
is_unreserved c =
    (leb b'a' c && leb c b'z')
    || (leb b'A' c && leb c b'Z')
    || (leb b'0' c && leb c b'9')
    || eqb c b'-'
    || eqb c b'_'
    || eqb c b'.'
    || eqb c b'!'
    || eqb c b'~'
    || eqb c b'*'
    || (leb 39 c && leb c 41)

-- The bytes of a code point in UTF-8.
unfoldable pub utf8 : ℕ → List ℕ
utf8 c =
    if ltb c 0x80
    then c ∷ []
    else if ltb c 0x800
    then (0xc0 + c / 64) ∷ (0x80 + c % 64) ∷ []
    else if ltb c 0x10000
    then (0xe0 + c / 4096) ∷ (0x80 + (c / 64) % 64) ∷ (0x80 + c % 64) ∷ []
    else (0xf0 + c / 262144)
      ∷ (0x80 + (c / 4096) % 64)
      ∷ (0x80 + (c / 64) % 64)
      ∷ (0x80 + c % 64)
      ∷ []

nth_char : String → ℕ → Char
nth_char String.[] _ = "0"
nth_char (String.◌∷◌ c _) zero = c
nth_char (String.◌∷◌ _ s) (suc i) = nth_char s i

hex_char : ℕ → Char
unfolding nth_char
hex_char n = nth_char "0123456789ABCDEF" n

percent : List ℕ → String
percent [] = ""
percent (b ∷ bs) =
    String.◌∷◌ "%" (String.◌∷◌ (hex_char (b / 16)) (String.◌∷◌ (hex_char (b % 16)) (percent bs)))

encode_char : Char → String
encode_char c = if is_unreserved (code c) then single c else percent (utf8 (code c))

unfoldable pub encode_uri_component : String → String
unfolding encode_char percent hex_char utf8 is_unreserved
encode_uri_component String.[] = ""
encode_uri_component (String.◌∷◌ c s) = encode_char c +++ encode_uri_component s

encode_test : encode_uri_component "a b/é?€😀" ≡ "a%20b%2F%C3%A9%3F%E2%82%AC%F0%9F%98%80"
unfolding encode_uri_component
encode_test = refl
