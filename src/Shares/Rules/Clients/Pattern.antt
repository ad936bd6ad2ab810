-- ===== src/Shares/Rules/Clients/Pattern.antt =====
-- The five patterns of a client come to three (`isValidClient` of `NFSRulesEditor`,
-- nasweb/frontend/src/js/app.js).
use ollozuna_nas.Prelude.{
  ℕ, String, Bool, true, ◌||◌, List, [], ◌∷◌, ◌==◌, leb, split, all, all_chars, all_chars-split,
  all_chars_mono, and-eq-true, ◌≡◌, refl, arith,
}
use ollozuna_nas.Shares.Rules.Clients.{
  is_digit, is_host_char, text_length, is_group, four_groups, is_address, is_subnet, in_range,
  is_range, is_host, is_valid_client,
}

digit-host_char : (c : ℕ) → is_digit c ≡ true → is_host_char c ≡ true
digit-host_char c h = ground arith

group-host_chars : (n : ℕ) (s : String) → is_group n s ≡ true → all_chars is_host_char s ≡ true
unfolding is_group
group-host_chars n s h =
    all_chars_mono is_digit is_host_char s digit-host_char
      (and-eq-true (all_chars is_digit s) (leb 1 (text_length s)) (and-eq-true _ _ h).0).0

four-host_chars :
    (xs : List String) → four_groups xs ≡ true → all (all_chars is_host_char) xs ≡ true
unfolding four_groups
four-host_chars (a ∷ b ∷ c ∷ d ∷ []) h =
    let ga = group-host_chars 3 a in
    let gb = group-host_chars 3 b in
    let gc = group-host_chars 3 c in let gd = group-host_chars 3 d in ground (arith, ga, gb, gc, gd)
four-host_chars [] h = absurd (cc h)
four-host_chars (_ ∷ []) h = absurd (cc h)
four-host_chars (_ ∷ _ ∷ []) h = absurd (cc h)
four-host_chars (_ ∷ _ ∷ _ ∷ []) h = absurd (cc h)
four-host_chars (_ ∷ _ ∷ _ ∷ _ ∷ _ ∷ _) h = absurd (cc h)

address-host_chars : (s : String) → is_address s ≡ true → all_chars is_host_char s ≡ true
unfolding is_address
address-host_chars s h = all_chars-split is_host_char b'.' s refl (four-host_chars (split b'.' s) h)

two-host_chars : (xs : List String) → in_range xs ≡ true → all (all_chars is_host_char) xs ≡ true
unfolding in_range
two-host_chars (a ∷ b ∷ []) h =
    let ga = address-host_chars a in let gb = address-host_chars b in ground (arith, ga, gb)
two-host_chars [] h = absurd (cc h)
two-host_chars (_ ∷ []) h = absurd (cc h)
two-host_chars (_ ∷ _ ∷ _ ∷ _) h = absurd (cc h)

range-host_chars : (s : String) → is_range s ≡ true → all_chars is_host_char s ≡ true
unfolding is_range
range-host_chars s h = all_chars-split is_host_char b'-' s refl (two-host_chars (split b'-' s) h)

address-host : (s : String) → is_address s ≡ true → is_host s ≡ true
unfolding is_host is_address four_groups split
address-host String.[] h = absurd (cc h)
address-host (String.◌∷◌ c s) h = ground (arith, address-host_chars (String.◌∷◌ c s))

range-host : (s : String) → is_range s ≡ true → is_host s ≡ true
unfolding is_host is_range in_range split
range-host String.[] h = absurd (cc h)
range-host (String.◌∷◌ c s) h = ground (arith, range-host_chars (String.◌∷◌ c s))

absorbed :
    (e s a n h r : Bool)
    → (a ≡ true → h ≡ true)
    → (r ≡ true → h ≡ true)
    → (e || s || a || n || h || r) ≡ (e || s || h || n)
absorbed e s a n h r f g = ground (arith, f, g)

-- Of the five patterns of a client, those of an address and of a range of addresses let nothing
-- through that the pattern of a host name does not: a client is accepted exactly when it is empty, a
-- star, a name of letters, digits, dots, underscores and dashes, or a subnet.
pub valid_client_eq :
    (v : String) → is_valid_client v ≡ (v == "" || v == "*" || is_host v || is_subnet v)
unfolding is_valid_client
valid_client_eq v =
    absorbed (v == "") (v == "*") (is_address v) (is_subnet v) (is_host v) (is_range v)
      (address-host v) (range-host v)
