-- ===== src/I18n/Mirror.antt =====
-- The two dictionaries hold texts under the same keys (nasweb/frontend/src/i18n/it.js and en.js).
use ollozuna_nas.Prelude.{
  String, Bool, true, false, ◌&&◌, Option, none, some, List, [], ◌∷◌, ◌==◌, ◌≡◌, refl, eq_iff,
  split, ◌∙◌, sym, if◌then◌else◌, Option-cases, inl, inr,
}
use mathlib.Core.Bool.{and-eq-true_iff}
use mathlib.Core.Path.{subst as path_subst}
use ollozuna_nas.I18n.{
  Node, Entries, text, group, end, entry, find_entry, locate, translate, t, dictionaries, render,
  interpolate, Params,
}
use ollozuna_nas.I18n.It.{it_dict}
use ollozuna_nas.I18n.En.{en_dict}

-- The node has a text of the dictionary at the end of this path of names.
unfoldable pub is_key : Node → List String → Bool
unfolding find_entry
is_key (text _) [] = true
is_key (text _) (_ ∷ _) = false
is_key (group _) [] = false
is_key (group es) (p ∷ ps) = elim (find_entry es p) [ none ↦ false | some n ↦ is_key n ps ]

mutual
  same_keys : Node → Node → Bool
  same_keys (text _) (text _) = true
  same_keys (group es) (group fs) = same_entries es fs
  same_keys _ _ = false

  same_entries : Entries → Entries → Bool
  same_entries end end = true
  same_entries (entry k n es) (entry l m fs) = k == l && (same_keys n m && same_entries es fs)
  same_entries _ _ = false

-- Two lookups that fail together, or find nodes with the same keys.
abbrev Alike : Option Node → Option Node → Type 0
Alike none none = Unit
Alike (some n) (some m) = same_keys n m ≡ true
Alike _ _ = ⊥

Alike-if :
    (b : Bool) (n m : Node) (o q : Option Node)
    → same_keys n m ≡ true
    → Alike o q
    → Alike (if b then some n else o) (if b then some m else q)
Alike-if true n m o q s h = s
Alike-if false n m o q s h = h

find_entry-Alike :
    (es fs : Entries) (p : String)
    → same_entries es fs ≡ true
    → Alike (find_entry es p) (find_entry fs p)
unfolding find_entry same_entries
find_entry-Alike end end p h = tt
find_entry-Alike end (entry l m fs) p h = cc
find_entry-Alike (entry k n es) end p h = cc
find_entry-Alike (entry k n es) (entry l m fs) p h =
    let both = and-eq-true_iff (k == l) (same_keys n m && same_entries es fs) in
    let (kl, rest) = both.0 h in
    let (nm, tails) = (and-eq-true_iff (same_keys n m) (same_entries es fs)).0 rest in
    rw ((eq_iff k l).0 kl) (Alike-if (l == p) n m _ _ nm (find_entry-Alike es fs p tails))

module _ (ps : List String)
    (ih : (n m : Node) → same_keys n m ≡ true → is_key n ps ≡ is_key m ps) where
  is_key_of_Alike :
      (o q : Option Node)
      → Alike o q
      → ◌≡◌ {A = Bool}
          (elim o [ none ↦ false | some n ↦ is_key n ps ])
          (elim q [ none ↦ false | some n ↦ is_key n ps ])
  is_key_of_Alike none none _ = refl
  is_key_of_Alike none (some _) h = elim h [ ]
  is_key_of_Alike (some _) none h = elim h [ ]
  is_key_of_Alike (some n) (some m) h = ih n m h

is_key_of_same : (ps : List String) (a b : Node) → same_keys a b ≡ true → is_key a ps ≡ is_key b ps
unfolding is_key same_keys
is_key_of_same [] (text _) (text _) h = refl
is_key_of_same [] (text _) (group _) h = cc
is_key_of_same [] (group _) (text _) h = cc
is_key_of_same [] (group _) (group _) h = refl
is_key_of_same (p ∷ ps) (text _) (text _) h = refl
is_key_of_same (p ∷ ps) (text _) (group _) h = cc
is_key_of_same (p ∷ ps) (group _) (text _) h = cc
is_key_of_same (p ∷ ps) (group es) (group fs) h =
    is_key_of_Alike ps (is_key_of_same ps) (find_entry es p) (find_entry fs p)
      (find_entry-Alike es fs p h)

dicts_same : same_keys it_dict en_dict ≡ true
unfolding same_keys it_dict en_dict
dicts_same = refl

-- A path of names leads to a text of the Italian dictionary exactly when it leads to one of the
-- English dictionary.
pub is_key-it-en : (ps : List String) → is_key it_dict ps ≡ is_key en_dict ps
is_key-it-en ps = is_key_of_same ps it_dict en_dict dicts_same

-- Where there is a text, `t` shows it with its placeholders filled in, not the key.
locate_of_is_key :
    (ps : List String) (d : Node)
    → is_key d ps ≡ true
    → (s : String) × (locate d ps ≡ some (text s))
unfolding is_key locate
locate_of_is_key [] (text s) h = (s, refl)
locate_of_is_key [] (group _) h = cc
locate_of_is_key (p ∷ ps) (text _) h = cc
locate_of_is_key (p ∷ ps) (group es) h = elim (Option-cases (find_entry es p)) [
  | inl e ↦ absurd (cc (rw (e, is_key) at h))
  | inr (n, e) ↦
      let (s, found) = locate_of_is_key ps n (rw (e, is_key) at h) in (s, rw (e, locate) found)
]

-- The texts that the two dictionaries hold under one key.
pub record Texts (key : String) : Type 0 where
  pub italian : String
  pub english : String
  pub in_it : locate it_dict (split b'.' key) ≡ some (text italian)
  pub in_en : locate en_dict (split b'.' key) ≡ some (text english)

-- Under a key of the Italian dictionary both dictionaries hold a text.
pub texts : (key : String) → is_key it_dict (split b'.' key) ≡ true → Texts key
texts key h =
    let ps = split b'.' key in
    let (s, in_it) = locate_of_is_key ps it_dict h in
    let (r, in_en) = locate_of_is_key ps en_dict (sym (is_key-it-en ps) ∙ h) in
    record { italian = s; english = r; in_it = in_it; in_en = in_en }

-- For every key at which the Italian dictionary has a text, `t` shows in either language the text
-- that the dictionary of that language has there, with the parameters put in: never the bare key
-- of the fallback.
pub t_of_is_key :
    (key : String) (params : Params) (h : is_key it_dict (split b'.' key) ≡ true)
    → (t "it" key params ≡ interpolate params (texts key h).italian)
      × (t "en" key params ≡ interpolate params (texts key h).english)
unfolding t translate render dictionaries
t_of_is_key key params h = (rw (texts key h).in_it, rw (texts key h).in_en)

-- Where the dictionary of the current language has nothing, `t` shows the key.
pub t_missing :
    (current key : String) (params : Params) (d : Node)
    → dictionaries current ≡ some d
    → locate d (split b'.' key) ≡ none
    → t current key params ≡ key
unfolding t translate render
t_missing current key params d known missing =
    path_subst (λ o. elim o [ none ↦ key | some d' ↦ translate d' key params ] ≡ key) (sym known)
      (rw missing)
