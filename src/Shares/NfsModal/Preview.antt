-- ===== src/Shares/NfsModal/Preview.antt =====
-- The preview of the exports shows what is saved of the clients (`NFSRulesEditor` and `mapNFSToAPI`,
-- nasweb/frontend/src/js/app.js).
use text.Mathlib.TextLemmas.{cons-append}
use ollozuna_nas.Prelude.{
  String, Bool, false, not, List, [], ◌∷◌, ◌==◌, map, filterb, ◌+++◌, ◌≡◌, refl, ap, arith, inl,
  inr, Bool-cases, eq_iff, Char,
}
use ollozuna_nas.Shares.{Rule, NfsForm}
use ollozuna_nas.Shares.Mapping.{map_nfs_to_api}
use ollozuna_nas.Shares.Rules.{line}

-- A rule that has a client.
abbrev pub has_client : Rule → Bool
has_client r = not (r.client == "")

longer_full : (c : Char) (s : String) → (String.◌∷◌ c s == "") ≡ false
longer_full c s = elim (Bool-cases (String.◌∷◌ c s == "")) [
  | inl e ↦ absurd (cc ((eq_iff (String.◌∷◌ c s) "").0 e))
  | inr e ↦ e
]

ends_full : (s : String) → (s +++ ")") == "" ≡ false
ends_full String.[] = refl
ends_full (String.◌∷◌ c s) = rw cons-append (longer_full c (s +++ ")"))

line_full : (p : String) (r : Rule) → not (line p r == "") ≡ has_client r
unfolding line
line_full p r = elim (Bool-cases (r.client == "")) [
  | inl e ↦ rw e refl
  | inr e ↦ rw (e, ends_full) refl
]

shown_lines :
    (p : String) (rules : List Rule)
    → filterb (λ l. not (l == "")) (map (line p) rules) ≡ map (line p) (filterb has_client rules)
shown_lines p [] = refl
shown_lines p (r ∷ rules) = elim (Bool-cases (has_client r)) [
  | inl e ↦ rw (line_full p r, e) (ap (line p r ∷◌) (shown_lines p rules))
  | inr e ↦ rw (line_full p r, e) (shown_lines p rules)
]

sent_clients :
    (rules : List Rule)
    → filterb (λ c. not (c == "")) (map (λ (r : Rule). r.client) rules)
      ≡ map (λ (r : Rule). r.client) (filterb has_client rules)
sent_clients [] = refl
sent_clients (r ∷ rules) = ground (arith, sent_clients rules)

-- The preview has a line for each rule with a client, in their order, and for no other, and what
-- is saved of the share allows the clients of just these rules.
pub preview-clients :
    (p : String) (f : NfsForm)
    → (filterb (λ l. not (l == "")) (map (line p) f.rules)
        ≡ map (line p) (filterb has_client f.rules))
      × ((map_nfs_to_api f).allowed_ips ≡ map (λ (r : Rule). r.client) (filterb has_client f.rules))
unfolding map_nfs_to_api
preview-clients p f = (shown_lines p f.rules, sent_clients f.rules)
