-- ===== src/Shares/Rules/Clients.antt =====
-- The clients of the rules of an NFS share: `isValidClient` of `NFSRulesEditor`, nasweb/frontend/src/js/app.js.
-- A pattern of groups between separators that no group has is read by splitting at these.
pub mod Pattern
use Prim.Native.String
use ollozuna_nas.Prelude.{
  ℕ, suc, String, code, Bool, true, false, ◌&&◌, ◌||◌, List, [], ◌∷◌, ◌==◌, eqb, leb, split, all,
  all_chars,
}

abbrev pub is_digit : ℕ → Bool
is_digit c = leb b'0' c && leb c b'9'

-- `[a-zA-Z0-9._-]`.
abbrev pub is_host_char : ℕ → Bool
is_host_char c =
    leb b'a' c && leb c b'z'
    || leb b'A' c && leb c b'Z'
    || is_digit c
    || eqb c b'.'
    || eqb c b'_'
    || eqb c b'-'

abbrev pub text_length : String → ℕ
text_length String.[] = 0
text_length (String.◌∷◌ _ s) = suc (text_length s)

-- `\d{1,n}`.
unfoldable pub is_group : ℕ → String → Bool
is_group n s = all_chars is_digit s && leb 1 (text_length s) && leb (text_length s) n

-- `\d{1,3}(\.\d{1,3}){3}`, of the pieces between the dots.
four_groups : List String → Bool
unfolding is_group
four_groups (a ∷ b ∷ c ∷ d ∷ []) = is_group 3 a && is_group 3 b && is_group 3 c && is_group 3 d
four_groups _ = false

unfoldable pub is_address : String → Bool
unfolding four_groups
is_address s = four_groups (split b'.' s)

in_subnet : List String → Bool
unfolding is_address is_group
in_subnet (a ∷ bits ∷ []) = is_address a && is_group 2 bits
in_subnet _ = false

unfoldable pub is_subnet : String → Bool
unfolding in_subnet
is_subnet s = in_subnet (split b'/' s)

in_range : List String → Bool
unfolding is_address
in_range (a ∷ b ∷ []) = is_address a && is_address b
in_range _ = false

unfoldable pub is_range : String → Bool
unfolding in_range
is_range s = in_range (split b'-' s)

unfoldable pub is_host : String → Bool
is_host s = leb 1 (text_length s) && all_chars is_host_char s

unfoldable pub is_valid_client : String → Bool
unfolding is_address is_subnet is_host is_range
is_valid_client v = v == "" || v == "*" || is_address v || is_subnet v || is_host v || is_range v
