-- ===== src/Json.antt =====
-- Values as the server sends and takes them. Numbers are natural: the interface reads no other
-- kind. A member that is given twice counts once, by its first place.
use ollozuna_nas.Prelude.{
  ℕ, String, Bool, true, false, Option, none, some, ◌==◌, eqb, not, if◌then◌else◌, ◌+++◌, show_ℕ,
}

mutual
  pub data Json : Type 0 where
    null : Json
    bool : Bool → Json
    num : ℕ → Json
    str : String → Json
    arr : Items → Json
    obj : Members → Json

  pub data Items : Type 0 where
    nil : Items
    cons : Json → Items → Items

  pub data Members : Type 0 where
    empty : Members
    member : String → Json → Members → Members

unfoldable pub find_member : String → Members → Option Json
find_member k empty = none
find_member k (member j v ms) = if j == k then some v else find_member k ms

-- `!!v`.
unfoldable pub is_truthy : Json → Bool
is_truthy null = false
is_truthy (bool b) = b
is_truthy (num n) = not (eqb n 0)
is_truthy (str s) = not (s == "")
is_truthy (arr _) = true
is_truthy (obj _) = true

abbrev bool_string : Bool → String
bool_string true = "true"
bool_string false = "false"

-- The items of `String(a)` for an array; an item that is null is written as nothing.
mutual
  item_string : Json → String
  item_string null = ""
  item_string (bool b) = bool_string b
  item_string (num n) = show_ℕ n
  item_string (str s) = s
  item_string (arr is) = join_items is
  item_string (obj _) = "[object Object]"

  join_items : Items → String
  join_items nil = ""
  join_items (cons v nil) = item_string v
  join_items (cons v (cons w is)) = item_string v +++ "," +++ join_items (cons w is)

-- `String(v)`.
unfoldable pub js_string : Json → String
unfolding item_string
js_string null = "null"
js_string v = item_string v
