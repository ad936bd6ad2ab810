-- ===== src/I18n/Tests.antt =====
-- Runs of the translation engine, and its theorems at inputs that meet their hypotheses.
use ollozuna_nas.Prelude.{[], ◌∷◌, ◌≡◌, refl, split, lookup, show_ℕ, strip_prefix}
use ollozuna_nas.I18n.{locate, interpolate, translate, t, dictionaries}
use ollozuna_nas.I18n.It.{it_dict}
use ollozuna_nas.I18n.En.{en_dict}
use ollozuna_nas.I18n.Mirror.{is_key, is_key-it-en}
use ollozuna_nas.I18n.Locale.{detect_locale}

t_tests :
    (t "en" "raid.states.clean" [] ≡ "Healthy")
    × (t "en" "users.confirmDelete" (("name", "bob") ∷ []) ≡ "Delete user bob?")
    × (t "en" "raid.nothing" [] ≡ "raid.nothing")
    × (t "en" "raid.states" [] ≡ "raid.states")
    × (t "en" "dlna.types." [] ≡ "All")
    × (t "en" "app.title.0" [] ≡ "N")
unfolding t translate interpolate locate split dictionaries it_dict en_dict lookup show_ℕ
t_tests = (refl, refl, refl, refl, refl, refl)

locale_tests :
    (detect_locale "a=b; nasd_locale=en" "it-IT" ≡ "en")
    × (detect_locale "xnasd_locale=en" "fr" ≡ "it")
    × (detect_locale "" "en-US" ≡ "en")
    × (detect_locale "nasd_locale=fr" "en" ≡ "en")
unfolding detect_locale dictionaries it_dict en_dict strip_prefix
locale_tests = (refl, refl, refl, refl)

is_key-it-en_example :
    is_key it_dict ("raid" ∷ "title" ∷ []) ≡ is_key en_dict ("raid" ∷ "title" ∷ [])
is_key-it-en_example = is_key-it-en ("raid" ∷ "title" ∷ [])
