-- ===== src/I18n/Locale/Known.antt =====
-- The current language always has a dictionary (`detectLocale`, `setLocale`).
use ollozuna_nas.Prelude.{String, none, some, [], ◌≡◌, refl, Option-cases, inl, inr, ◌⊎◌}
use ollozuna_nas.I18n.{Node, dictionaries}
use ollozuna_nas.I18n.Locale.{cookie_locale, known_or, from_browser, detect_locale, set_locale}

abbrev pub IsKnown : String → Type 0
IsKnown l = (d : Node) × (dictionaries l ≡ some d)

known_or-IsKnown : (l d : String) → IsKnown d → IsKnown (known_or l d)
unfolding known_or
known_or-IsKnown l d h = elim (Option-cases (dictionaries l)) [
  | inl e ↦ rw (e, known_or) h
  | inr (n, e) ↦ rw (e, known_or) (n, e)
]

pub it-IsKnown : IsKnown "it"
unfolding dictionaries
it-IsKnown = (_, refl)

from_browser-IsKnown : (language : String) → IsKnown (from_browser language)
unfolding from_browser
from_browser-IsKnown language = known_or-IsKnown _ "it" it-IsKnown

-- Whatever the cookie and the browser say, the language chosen at the start has a dictionary.
pub detect_locale-IsKnown : (cookie language : String) → IsKnown (detect_locale cookie language)
unfolding detect_locale
detect_locale-IsKnown cookie language = elim (Option-cases (cookie_locale cookie)) [
  | inl e ↦ rw (e, detect_locale) (from_browser-IsKnown language)
  | inr (l, e) ↦
      rw (e, detect_locale)
        (known_or-IsKnown l (from_browser language) (from_browser-IsKnown language))
]

-- `setLocale` keeps a dictionary behind the current language: it takes a language that has one,
-- and ignores one that has none, with no effect on the page.
pub set_locale-IsKnown :
    (current locale : String)
    → IsKnown current
    → IsKnown (set_locale current locale).0
      × ((IsKnown locale × ((set_locale current locale).0 ≡ locale))
          ⊎ ((dictionaries locale ≡ none) × (set_locale current locale ≡ (current, []))))
unfolding set_locale
set_locale-IsKnown current locale h = elim (Option-cases (dictionaries locale)) [
  | inl e ↦ (rw (e, set_locale) h, inr (e, rw (e, set_locale) refl))
  | inr (d, e) ↦ (rw (e, set_locale) (d, e), inl ((d, e), rw (e, set_locale) refl))
]
