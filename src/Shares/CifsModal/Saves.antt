-- ===== src/Shares/CifsModal/Saves.antt =====
-- What the dialog of a CIFS share saves: `validate` and `handleSave` of `CIFSModal`, nasweb/frontend/src/js/app.js.
use text.Mathlib.TextLemmas.{nil-append, cons-append, append_assoc}
use ollozuna_nas.Prelude.{
  ℕ, String, code, Bool, false, not, ◌&&◌, ◌||◌, Option, none, some, List, ◌==◌, eqb, leb,
  if◌then◌else◌, ◌+++◌, find_first, Bool-cases, inl, inr, ◌≡◌, ◌↔◌, refl, sym, ap, ◌∙◌, arith,
  split, strip_prefix,
}
use ollozuna_nas.Shares.{CifsForm, Share, cifs, nfs, AppUser}
use ollozuna_nas.Shares.Mapping.{volume_of, map_cifs_to_api, map_share_from_api}
use ollozuna_nas.Shares.Mapping.Saved.{stored}
use ollozuna_nas.Shares.View.{Volume}
use ollozuna_nas.Shares.Server.Settled.{cifs-saved}
use ollozuna_nas.Shares.CifsModal.{Modal, Errors, type_name, follow_path, follow_name, with_path}

-- `/\s/`: the characters that the language counts as white space or the end of a line.
unfoldable pub is_space : ℕ → Bool
is_space c =
    leb 9 c && leb c 13
    || eqb c 32
    || eqb c 160
    || eqb c 5760
    || leb 8192 c && leb c 8202
    || eqb c 8232
    || eqb c 8233
    || eqb c 8239
    || eqb c 8287
    || eqb c 12288
    || eqb c 65279

unfoldable pub has_space : String → Bool
unfolding is_space
has_space String.[] = false
has_space (String.◌∷◌ c s) = is_space (code c) || has_space s

unfoldable pub name_error : String → String
unfolding has_space
name_error name =
    if name == "" then "Required" else if has_space name then "No spaces allowed" else ""

unfoldable pub path_error : String → String
path_error path = if path == "" then "Required" else ""

unfoldable pub validate : CifsForm → Errors
unfolding name_error path_error
validate f = record { name = name_error f.name; path = path_error f.path }

-- `Object.keys(e).length`, as a test.
abbrev pub is_clean : Errors → Bool
is_clean e = e.name == "" && e.path == ""

unfoldable pub handle_save : Modal → Modal × Option CifsForm
unfolding validate
handle_save m = (
  record m { errors = validate m.form },
  if is_clean (validate m.form) then some m.form else none,
)

clean_name : (name : String) → (name_error name == "") ≡ (not (name == "") && not (has_space name))
unfolding name_error
clean_name name = elim (Bool-cases (name == "")) [
  | inl e ↦ rw e refl
  | inr e ↦ elim (Bool-cases (has_space name)) [ inl k ↦ rw (e, k) refl | inr k ↦ rw (e, k) refl ]
]

clean_path : (path : String) → (path_error path == "") ≡ not (path == "")
unfolding path_error
clean_path path = elim (Bool-cases (path == "")) [ inl e ↦ rw e refl | inr e ↦ rw e refl ]

clean-validate :
    (f : CifsForm)
    → is_clean (validate f) ≡ ((not (f.name == "") && not (has_space f.name)) && not (f.path == ""))
unfolding validate
clean-validate f = rw (clean_name f.name, clean_path f.path) refl

only :
    (f g : CifsForm)
    → (if is_clean (validate f) then some f else none) ≡ some g
    → (f ≡ g) × ((g.name == "") ≡ false) × (has_space g.name ≡ false) × ((g.path == "") ≡ false)
only f g h = elim (Bool-cases (is_clean (validate f))) [
  | inl e ↦
      let same : f ≡ g = cc (rw e at h) in
      let clean =
        sym (clean-validate g) ∙ ap (λ (x : CifsForm). is_clean (validate x)) (sym same) ∙ e in
      (same, ground arith, ground arith, ground arith)
  | inr e ↦ absurd (cc (rw e at h))
]

saved :
    (f : CifsForm)
    → (f.name == "") ≡ false
    → has_space f.name ≡ false
    → (f.path == "") ≡ false
    → (if is_clean (validate f) then some f else none) ≡ some f
saved f named spelled placed = rw (clean-validate f, named, spelled, placed) refl

-- The dialog saves exactly a form with a name without white space and with a path, and saves it as
-- it is.
pub cifs_save_iff :
    (m : Modal) (f : CifsForm)
    → ((handle_save m).1 ≡ some f) ↔ (
        (m.form ≡ f)
        × ((f.name == "") ≡ false)
        × (has_space f.name ≡ false)
        × ((f.path == "") ≡ false))
unfolding handle_save
cifs_save_iff m f = (
  only m.form f,
  λ (same, named, spelled, placed).
      ap (λ (x : CifsForm). if is_clean (validate x) then some x else none) same
      ∙ saved f named spelled placed,
)

-- The volume of a share.
abbrev pub volume_shown : Share → String
volume_shown (cifs f) = f.volume
volume_shown (nfs f) = f.volume

abbrev under_nas : String → String
under_nas rest = String.◌∷◌ "/" (
    String.◌∷◌ "s" (
      String.◌∷◌ "r" (
        String.◌∷◌ "v" (
          String.◌∷◌ "/"
            (String.◌∷◌ "n" (String.◌∷◌ "a" (String.◌∷◌ "s" (String.◌∷◌ "/" rest))))))))

nas_path : (rest : String) → ("/srv/nas/" +++ rest) ≡ under_nas rest
nas_path rest = rw cons-append (
    rw cons-append (
      rw cons-append (
        rw cons-append (
          rw cons-append (
            rw cons-append
              (rw cons-append (rw cons-append (rw cons-append (rw nil-append refl)))))))))

nas-volume : (rest : String) → volume_of ("/srv/nas/" +++ rest) ≡ "nas"
unfolding volume_of split strip_prefix
nas-volume rest = ap volume_of (nas_path rest)

type_name-path :
    (volumes : List Volume) (m : Modal) (v : Volume) (name : String)
    → m.is_edit ≡ false
    → (m.form.volume == "") ≡ false
    → find_first (λ (w : Volume). w.name == m.form.volume) volumes ≡ some v
    → (name == "") ≡ false
    → (type_name volumes m name).form.path ≡ v.mount +++ "/" +++ name
unfolding type_name follow_path follow_name with_path
type_name-path volumes m v name fresh chosen found named = rw (fresh, chosen, named, found) refl

type_name-volume :
    (volumes : List Volume) (m : Modal) (v : Volume) (name : String)
    → m.is_edit ≡ false
    → (m.form.volume == "") ≡ false
    → find_first (λ (w : Volume). w.name == m.form.volume) volumes ≡ some v
    → (name == "") ≡ false
    → (type_name volumes m name).form.volume ≡ m.form.volume
unfolding type_name follow_path follow_name with_path
type_name-volume volumes m v name fresh chosen found named = rw (fresh, chosen, named, found) refl

-- A new share, once it is named, has the chosen volume and the path of its name below the volume's
-- mount point; where that is the one that the dialogs of filesystems propose, below `/srv/nas/`, the
-- share that is saved is shown afterwards under the volume `nas`, whatever volume was chosen.
pub default_mount-volume :
    (volumes : List Volume) (m : Modal) (v : Volume) (device name : String) (id : ℕ)
    (ulist : List AppUser)
    → m.is_edit ≡ false
    → (m.form.volume == "") ≡ false
    → find_first (λ (w : Volume). w.name == m.form.volume) volumes ≡ some v
    → v.mount ≡ "/srv/nas/" +++ device
    → (name == "") ≡ false
    → ((type_name volumes m name).form.volume ≡ m.form.volume)
      × ((type_name volumes m name).form.path ≡ v.mount +++ "/" +++ name)
      × (volume_shown
            (map_share_from_api (stored id (map_cifs_to_api (type_name volumes m name).form)) ulist)
          ≡ "nas")
default_mount-volume volumes m v device name id ulist fresh chosen found mounted named =
    let path = type_name-path volumes m v name fresh chosen found named in
    (
      type_name-volume volumes m v name fresh chosen found named,
      path,
      ap volume_shown (cifs-saved id (type_name volumes m name).form ulist)
          ∙ ap volume_of (
              path
              ∙ ap (λ p. p +++ "/" +++ name) mounted
              ∙ ap (λ x. x +++ name) (append_assoc "/srv/nas/" device "/")
              ∙ append_assoc "/srv/nas/" (device +++ "/") name)
          ∙ nas-volume (device +++ "/" +++ name),
    )
