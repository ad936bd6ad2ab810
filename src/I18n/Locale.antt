-- ===== src/I18n/Locale.antt =====
-- The choice of the language: `detectLocale` and `setLocale` of nasweb/frontend/src/js/i18n.js. What the
-- browser holds (the cookie text and the preferred language) are arguments; what `setLocale` writes
-- there is a list of effects.
pub mod Known
use Prim.Native.String
use ollozuna_nas.Prelude.{
  String, code, Bool, ◌&&◌, ◌||◌, Option, none, some, List, [], ◌∷◌, ◌==◌, eqb, leb, if◌then◌else◌,
  ◌+++◌, single, strip_prefix, ℕ,
}
use ollozuna_nas.I18n.{dictionaries}

-- `\s`.
abbrev is_space : ℕ → Bool
is_space c =
    (leb 9 c && leb c 13)
    || eqb c 32
    || eqb c 0xa0
    || eqb c 0x1680
    || (leb 0x2000 c && leb c 0x200a)
    || eqb c 0x2028
    || eqb c 0x2029
    || eqb c 0x202f
    || eqb c 0x205f
    || eqb c 0x3000
    || eqb c 0xfeff

abbrev is_lower : ℕ → Bool
is_lower c = leb b'a' c && leb c b'z'

-- `([a-z]{2})`.
two_letters : String → Option String
two_letters (String.◌∷◌ c (String.◌∷◌ d _)) =
    if is_lower (code c) && is_lower (code d) then some (single c +++ single d) else none
two_letters _ = none

-- `nasd_locale=([a-z]{2})` at the start of a text.
value_at : String → Option String
unfolding two_letters
value_at s = elim (strip_prefix "nasd_locale=" s) [ none ↦ none | some rest ↦ two_letters rest ]

skip_spaces : String → String
skip_spaces String.[] = ""
skip_spaces (String.◌∷◌ c s) = if is_space (code c) then skip_spaces s else String.◌∷◌ c s

-- The first match behind a semicolon.
after_semicolon : String → Option String
after_semicolon String.[] = none
after_semicolon (String.◌∷◌ c s) =
    let rest = after_semicolon s in
    if eqb (code c) b';'
    then elim (value_at (skip_spaces s)) [ none ↦ rest | some l ↦ some l ]
    else rest

-- `document.cookie.match(/(?:^|;\s*)nasd_locale=([a-z]{2})/)`, its group.
unfoldable pub cookie_locale : String → Option String
unfolding after_semicolon value_at skip_spaces
cookie_locale cookie = elim (value_at cookie) [ none ↦ after_semicolon cookie | some l ↦ some l ]

take_two : String → String
take_two (String.◌∷◌ c (String.◌∷◌ d _)) = single c +++ single d
take_two s = s

-- `dictionaries[l] ? l : d`.
known_or : String → String → String
known_or l d = elim (dictionaries l) [ none ↦ d | some _ ↦ l ]

-- `(navigator.language || "it").slice(0, 2)`, if there is a dictionary for it.
from_browser : String → String
unfolding take_two known_or
from_browser language = known_or (take_two (if language == "" then "it" else language)) "it"

unfoldable pub detect_locale : String → String → String
unfolding from_browser known_or cookie_locale
detect_locale cookie language = elim (cookie_locale cookie) [
  | none ↦ from_browser language
  | some l ↦ known_or l (from_browser language)
]

-- What `setLocale` does to the page.
pub data Effect : Type 0 where
  set_cookie set_lang locale_changed : String → Effect

-- The new current language, and the effects in their order.
unfoldable pub set_locale : String → String → String × List Effect
set_locale current locale = elim (dictionaries locale) [
  | none ↦ (current, [])
  | some _ ↦ (
    locale,
    set_cookie ("nasd_locale=" +++ locale +++ "; path=/; max-age=31536000; samesite=strict")
        ∷ set_lang locale
        ∷ locale_changed locale
        ∷ [],
  )
]
