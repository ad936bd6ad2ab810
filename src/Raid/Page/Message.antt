-- ===== src/Raid/Page/Message.antt =====
-- The question that `handleDelete` of nasweb/frontend/src/js/app.js asks before an array is deleted.
use ollozuna_nas.Prelude.{
  String, not, Option, none, some, List, ◌==◌, if◌then◌else◌, ◌+++◌, get_or, strip_prefix,
  find_first, [],
}
use ollozuna_nas.Raid.{Filesystem}

-- `s.replace(pattern, by)`: the first occurrence only. A dollar sign in `by`, which no device and
-- no mount point has, would be read as a pattern of its own.
unfoldable pub replace_first : String → String → String → String
unfolding strip_prefix
replace_first pattern by String.[] = elim (strip_prefix pattern "") [
  | none ↦ ""
  | some rest ↦ by +++ rest
]
replace_first pattern by (String.◌∷◌ c s) = elim (strip_prefix pattern (String.◌∷◌ c s)) [
  | none ↦ String.◌∷◌ c (replace_first pattern by s)
  | some rest ↦ by +++ rest
]

or_question : String → String
or_question s = if s == "" then "?" else s

-- `fs && fs.is_mounted`, `fs && fs.fstype`, or neither; `t` gives the text of a key.
plain_message : (String → String) → String → String
unfolding replace_first
plain_message t device = replace_first "{md}" device (t "raid.confirmDelete")

filesystem_message : (String → String) → String → Filesystem → String
unfolding plain_message or_question
filesystem_message t device fs =
    if fs.is_mounted
    then replace_first "{fs}" (or_question fs.fstype) (
        replace_first "{mp}" fs.mount_point
          (replace_first "{md}" device (t "raid.confirmDeleteMounted")))
    else if not (fs.fstype == "")
    then replace_first "{fs}" fs.fstype (replace_first "{md}" device (t "raid.confirmDeleteFs"))
    else plain_message t device

unfoldable pub delete_message : (String → String) → Option (List Filesystem) → String → String
unfolding filesystem_message
delete_message t filesystems device =
    elim (find_first (λ (f : Filesystem). f.device == device) (get_or filesystems [])) [
      | none ↦ plain_message t device
      | some fs ↦ filesystem_message t device fs
    ]
