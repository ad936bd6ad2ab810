-- ===== src/Shares/Rules.antt =====
-- The editor of the client rules of an NFS share: `NFSRulesEditor` of nasweb/frontend/src/js/app.js.
pub mod Moves
pub mod Clients
use ollozuna_nas.Prelude.{
  ℕ, zero, suc, ◌-◌, String, Bool, true, false, not, ◌&&◌, ◌||◌, Option, none, some, List, [], ◌∷◌,
  ◌++◌, map, ◌==◌, eqb, ltb, leb, if◌then◌else◌, ◌+++◌, join, filterb, get_elem?, set, length,
}
use ollozuna_nas.Shares.{Rule, Adv}
use ollozuna_nas.Shares.Mapping.{default_adv}

-- A new rule; its id comes from the clock and from chance.
unfoldable pub default_rule : ℕ → Rule
default_rule id = record { id = id; client = ""; perm = "rw"; adv_open = false; adv = default_adv }

unfoldable pub add_rule : List Rule → ℕ → List Rule
unfolding default_rule
add_rule rules id = rules ++ (default_rule id ∷ [])

-- `rules.filter((_, i) => i !== idx)` and `rules.map((r, i) => i === idx ? f(r) : r)`.
unfoldable pub remove_rule : List Rule → ℕ → List Rule
remove_rule [] idx = []
remove_rule (r ∷ rules) zero = rules
remove_rule (r ∷ rules) (suc idx) = r ∷ remove_rule rules idx

unfoldable pub update_at : List Rule → ℕ → (Rule → Rule) → List Rule
update_at [] idx f = []
update_at (r ∷ rules) zero f = f r ∷ rules
update_at (r ∷ rules) (suc idx) f = r ∷ update_at rules idx f

-- The fields of a rule and of its advanced options, with the values that their inputs give.
pub data Entry : Type 0 where
  client perm : String → Entry

pub data AdvOption : Type 0 where
  sync no_root_squash root_squash all_squash no_subtree_check secure crossmnt : Bool → AdvOption
  anonuid anongid : ℕ → AdvOption

enter : Entry → Rule → Rule
enter (client v) r = record r { client = v }
enter (perm v) r = record r { perm = v }

unfoldable pub set_option : AdvOption → Adv → Adv
set_option (sync v) a = record a { sync = v }
set_option (no_root_squash v) a = record a { no_root_squash = v }
set_option (root_squash v) a = record a { root_squash = v }
set_option (all_squash v) a = record a { all_squash = v }
set_option (no_subtree_check v) a = record a { no_subtree_check = v }
set_option (secure v) a = record a { secure = v }
set_option (crossmnt v) a = record a { crossmnt = v }
set_option (anonuid v) a = record a { anonuid = v }
set_option (anongid v) a = record a { anongid = v }

unfoldable pub update_rule : List Rule → ℕ → Entry → List Rule
unfolding enter update_at
update_rule rules idx v = update_at rules idx (enter v)

unfoldable pub update_adv : List Rule → ℕ → AdvOption → List Rule
unfolding set_option update_at
update_adv rules idx v = update_at rules idx (λ (r : Rule). record r { adv = set_option v r.adv })

unfoldable pub toggle_adv : List Rule → ℕ → List Rule
unfolding update_at
toggle_adv rules idx = update_at rules idx (λ (r : Rule). record r { adv_open = not r.adv_open })

-- The rules with those of two indices in each other's place.
swap : List Rule → ℕ → ℕ → Option Rule → Option Rule → List Rule
swap rules i j (some a) (some b) = set (set rules i b) j a
swap rules i j _ _ = rules

-- The buttons that move a rule towards the start and towards the end.
pub data Direction : Type 0 where
  up down : Direction

unfoldable pub move_rule : List Rule → ℕ → Direction → List Rule
unfolding swap
move_rule rules zero up = rules
move_rule rules (suc i) up = swap rules (suc i) i (get_elem? rules (suc i)) (get_elem? rules i)
move_rule rules i down =
    if leb (length rules) (suc i)
    then rules
    else swap rules i (suc i) (get_elem? rules i) (get_elem? rules (suc i))

-- The line of a rule in the preview of the server's list of exports.
push : Bool → String → List String → List String
push b s rest = if b then s ∷ rest else rest

unfoldable pub options : Rule → List String
unfolding push
options r =
    r.perm
    ∷ (if r.adv.sync then "sync" else "async")
    ∷ push (r.adv.no_root_squash || r.adv.root_squash)
        (if r.adv.no_root_squash then "no_root_squash" else "root_squash")
        (push r.adv.all_squash "all_squash" (
          push r.adv.no_subtree_check "no_subtree_check"
            (push (not r.adv.secure) "insecure" (push r.adv.crossmnt "crossmnt" []))))

unfoldable pub line : String → Rule → String
unfolding options
line export_path r =
    if r.client == ""
    then ""
    else (if export_path == "" then "/mnt/..." else export_path)
      +++ " "
      +++ r.client
      +++ "("
      +++ join "," (options r)
      +++ ")"

unfoldable pub preview : List Rule → String → String
unfolding line
preview rules export_path =
    let text = join "\n" (filterb (λ l. not (l == "")) (map (line export_path) rules)) in
    if text == "" then "# Add client rules above" else text
