-- ===== src/I18n.antt =====
-- The translation engine: nasweb/frontend/src/js/i18n.js. A dictionary is a tree of named entries; its
-- text nodes answer to the indices of their characters, as a JavaScript string does. Members that
-- objects and strings inherit, and `length`, are left out.
pub mod Tree
pub mod It
pub mod En
pub mod Mirror
pub mod Interpolate
pub mod Locale
mod Tests
use Prim.Native.String
use ollozuna_nas.Prelude.{
  ℕ, suc, String, code, Bool, true, false, not, ◌&&◌, ◌||◌, Option, none, some, List, [], ◌∷◌, ◌==◌,
  eqb, leb, if◌then◌else◌, ◌+++◌, single, show_ℕ, split, lookup,
}
use It.{it_dict}
use En.{en_dict}
pub use Tree.{Node, Entries, text, group, end, entry}

-- The character of a text whose index is spelled as `p`, counting from `i`.
char_entry : ℕ → String → String → Option Node
char_entry i String.[] p = none
char_entry i (String.◌∷◌ c s) p =
    if show_ℕ i == p then some (text (single c)) else char_entry (suc i) s p

find_entry : Entries → String → Option Node
find_entry end p = none
find_entry (entry k n es) p = if k == p then some n else find_entry es p

-- `node?.[p]`.
member : Node → String → Option Node
unfolding char_entry find_entry
member (text s) p = char_entry 0 s p
member (group es) p = find_entry es p

-- The loop of `t` over the parts of a key; `none` is `undefined`.
unfoldable pub locate : Node → List String → Option Node
unfolding member
locate node [] = some node
locate node (p ∷ ps) = elim (member node p) [ none ↦ none | some next ↦ locate next ps ]

-- `\w`.
unfoldable pub is_word : ℕ → Bool
is_word c =
    (leb b'a' c && leb c b'z')
    || (leb b'A' c && leb c b'Z')
    || (leb b'0' c && leb c b'9')
    || eqb c b'_'

abbrev pub Params : Type 0
Params = List (String × String)

-- `k in params ? params[k] : "{k}"`.
placeholder : Params → String → String
placeholder params k = elim (lookup k params) [ none ↦ "{" +++ k +++ "}" | some v ↦ v ]

-- `node.replace(/\{(\w+)\}/g, …)`, in one pass. The middle argument holds the word characters read
-- since an opening brace, if one is open; on a mismatch they are put out as they stand.
scan : Params → Option String → String → String
scan ps none String.[] = ""
scan ps (some word) String.[] = "{" +++ word
scan ps none (String.◌∷◌ c s) =
    let opened = scan ps (some "") s in
    let passed = String.◌∷◌ c (scan ps none s) in if eqb (code c) b'{' then opened else passed
scan ps (some word) (String.◌∷◌ c s) =
    let longer = scan ps (some (word +++ single c)) s in
    let closed = placeholder ps word +++ scan ps none s in
    let reopened = "{" +++ word +++ scan ps (some "") s in
    let passed = "{" +++ word +++ String.◌∷◌ c (scan ps none s) in
    if is_word (code c)
    then longer
    else if eqb (code c) b'}' && not (word == "")
    then closed
    else if eqb (code c) b'{'
    then reopened
    else passed

unfoldable pub interpolate : Params → String → String
unfolding scan is_word placeholder lookup
interpolate ps s = scan ps none s

-- `dictionaries[locale]`.
unfoldable pub dictionaries : String → Option Node
dictionaries locale =
    if locale == "it" then some it_dict else if locale == "en" then some en_dict else none

-- What `t` makes of the node that the key leads to.
render : Option Node → String → Params → String
render (some (text s)) key params = interpolate params s
render _ key params = key

-- `t(key, params)` with `dictionaries[current]` at hand: the text, or the key itself.
unfoldable pub translate : Node → String → Params → String
unfolding render
translate dict key params = render (locate dict (split b'.' key)) key params

-- `t` in the current language. A language with no dictionary makes the node `undefined`, which
-- the loop answers by the key.
unfoldable pub t : String → String → Params → String
unfolding render
t current key params = elim (dictionaries current) [
  | none ↦ key
  | some dict ↦ translate dict key params
]
