-- ===== src/Shares/Forms/Tests.antt =====
-- Runs of the dialogs of shares, and their theorems at inputs that meet their hypotheses.
use ollozuna_nas.Prelude.{
  true, false, not, some, [], ◌∷◌, ◌==◌, ◌&&◌, ◌||◌, ◌+++◌, get_elem?, ◌≡◌, ◌↔◌, refl, unique, inl,
  ◌<◌, arith, length, List, find_first, String, contains, strip_prefix, if◌then◌else◌, split,
}
use ollozuna_nas.Shares.{CifsForm, NfsForm, Rule, AppUser}
use ollozuna_nas.Shares.View.{Volume}
use ollozuna_nas.Shares.Mapping.{volume_of, status_text, is_enabled}
use ollozuna_nas.Shares.Server.Settled.{cifs-saved}
use ollozuna_nas.Shares.Lists.{filtered_cifs}
use ollozuna_nas.Shares.Lists.Found.{default_mount-hidden}
use ollozuna_nas.Shares.CifsModal.{Modal, new, blank_form, type_name}
use ollozuna_nas.Shares.CifsModal.{min_protocol, encryption}
use ollozuna_nas.Shares.CifsModal.Encryption.{IsSound, press_all, encryption-IsSound}
use ollozuna_nas.Shares.CifsModal.Saves.{handle_save, has_space, cifs_save_iff}
use ollozuna_nas.Shares.CifsModal.Members.{has_user, add_user, remove_user, av_users}
use ollozuna_nas.Shares.CifsModal.Members.Distinct.{
  AreDistinct, Change, adds_user, adds_group, permits_user, change_all, members-AreDistinct,
}
use ollozuna_nas.Shares.CifsModal.Members.Offered.{is_known, members-set}
use ollozuna_nas.Shares.NfsModal
use ollozuna_nas.Shares.Rules.{
  add_rule, move_rule, up, down, line, default_rule, update_rule, client, preview,
}
use ollozuna_nas.Shares.Rules.Moves.{exchanged, move_rule-move_rule}
use ollozuna_nas.Shares.Rules.Clients.{is_valid_client, is_host, is_subnet}
use ollozuna_nas.Shares.Rules.Clients.Pattern.{valid_client_eq}

abbrev md0 : Volume
md0 = record {
  name = "md0";
  raid = "RAID1";
  mount = "/srv/nas/" +++ "md0";
  used_bytes = 0;
  state = "clean";
}

abbrev bob : AppUser
bob = record { username = "bob"; role = "User" }

abbrev blank : CifsForm
blank = blank_form (md0 ∷ [])

abbrev fresh : Modal
fresh = new (md0 ∷ [])

blank-AreDistinct : AreDistinct blank
unfolding blank_form unique
blank-AreDistinct = record { distinct_users = refl; distinct_groups = refl }

abbrev changes : List Change
changes = adds_user "bob" ∷ adds_user "bob" ∷ permits_user "bob" "ro" ∷ adds_group "staff" ∷ []

members-AreDistinct_example : AreDistinct (change_all (bob ∷ []) blank changes)
members-AreDistinct_example = members-AreDistinct (bob ∷ []) blank changes blank-AreDistinct

members-set_example :
    (has_user (add_user (bob ∷ []) blank "bob").users "bob"
      ≡ (has_user blank.users "bob" || ("bob" == "bob" && is_known (bob ∷ []) "bob")))
    × (has_user (remove_user blank "bob").users "bob"
        ≡ (has_user blank.users "bob" && not ("bob" == "bob")))
    × (is_known (av_users (bob ∷ []) blank) "bob"
        ≡ (is_known (bob ∷ []) "bob" && not (has_user blank.users "bob")))
members-set_example = members-set (bob ∷ []) blank "bob" "bob"

cifs_save_iff_example : ((handle_save (type_name (md0 ∷ []) fresh "media")).1 ≡ some blank) ↔ (
    ((type_name (md0 ∷ []) fresh "media").form ≡ blank)
    × ((blank.name == "") ≡ false)
    × (has_space blank.name ≡ false)
    × ((blank.path == "") ≡ false))
cifs_save_iff_example = cifs_save_iff (type_name (md0 ∷ []) fresh "media") blank

fresh_edit : fresh.is_edit ≡ false
unfolding new
fresh_edit = refl

fresh_volume : (fresh.form.volume == "") ≡ false
unfolding new blank_form
fresh_volume = refl

fresh_found : find_first (λ (w : Volume). w.name == fresh.form.volume) (md0 ∷ []) ≡ some md0
unfolding new blank_form
fresh_found = refl

abbrev media : CifsForm
media = (type_name (md0 ∷ []) fresh "media").form

abbrev media_saved : CifsForm
media_saved = record media {
  id = some 1;
  volume = volume_of media.path;
  status = status_text (is_enabled media.status);
}

-- The texts here have no capitals.
abbrev lower : String → String
lower s = s

default_mount-hidden_example :
    filtered_cifs lower "" "md0" "" (media_saved ∷ []) ≡ filtered_cifs lower "" "md0" "" []
default_mount-hidden_example =
    default_mount-hidden lower "" "" (md0 ∷ []) fresh md0 "md0" "media" 1 [] media_saved []
      fresh_edit fresh_volume fresh_found refl refl refl refl (cifs-saved 1 media [])

-- A name with a capital is not found by typing it, as only what is typed is put in lower case.
search_test :
    filtered_cifs
      (λ s. if s == "Media" then "media" else s)
      "Media"
      ""
      ""
      (record (blank_form []) { name = "Media"; path = "/srv/x" } ∷ [])
    ≡ []
unfolding filtered_cifs contains strip_prefix
search_test = refl

abbrev rules : List Rule
rules = update_rule (add_rule (default_rule 1 ∷ []) 2) 0 (client "10.0.0.0/8")

two_rules : 1 < length rules
unfolding update_rule add_rule
two_rules = omega arith

move_rule-move_rule_example :
    (get_elem? (move_rule rules 0 down) 1 ≡ get_elem? rules (exchanged 0 1))
    × (move_rule rules 1 up ≡ move_rule rules 0 down)
    × (move_rule (move_rule rules 0 down) 1 up ≡ rules)
move_rule-move_rule_example = move_rule-move_rule rules 0 1 two_rules

abbrev export : NfsForm
export = record (NfsModal.blank_form []) { rules = rules }

preview_test : preview rules "/srv/x" ≡ "/srv/x 10.0.0.0/8(rw,sync,root_squash,no_subtree_check)"
unfolding preview line update_rule add_rule default_rule
preview_test = refl

client_tests :
    (is_valid_client "10.0.0.0/8" ≡ true)
    × (is_valid_client "10.0.0/8" ≡ false)
    × (is_valid_client "999.1.1.1" ≡ true)
    × (is_valid_client "a b" ≡ false)
unfolding is_valid_client split
client_tests = (refl, refl, refl, refl)

valid_client_eq_example :
    is_valid_client "10.0.0.0/8"
    ≡ ("10.0.0.0/8" == "" || "10.0.0.0/8" == "*" || is_host "10.0.0.0/8" || is_subnet "10.0.0.0/8")
valid_client_eq_example = valid_client_eq "10.0.0.0/8"

plain_IsSound : IsSound blank.smb
unfolding blank_form
plain_IsSound = inl refl

encryption-IsSound_example : IsSound (
    press_all blank.smb
      (min_protocol "SMB3.1.1" ∷ encryption true ∷ min_protocol "SMB2" ∷ encryption true ∷ []))
encryption-IsSound_example =
    encryption-IsSound blank.smb
      (min_protocol "SMB3.1.1" ∷ encryption true ∷ min_protocol "SMB2" ∷ encryption true ∷ [])
      plain_IsSound
