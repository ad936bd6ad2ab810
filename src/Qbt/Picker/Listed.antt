-- ===== src/Qbt/Picker/Listed.antt =====
-- The folders that can be chosen (`QbtFolderPicker`, nasweb/frontend/src/js/app.js).
use ollozuna_nas.Prelude.{
  ℕ, zero, suc, String, false, Option, none, some, List, [], ◌∷◌, ◌==◌, get_elem?, All, ◌≡◌, refl,
  inl, inr, Bool-cases,
}
use mathlib.Core.Path.{subst}
use ollozuna_nas.Qbt.Picker.{
  Folder, Picker, opened, load, browsed, browse_failed, enter, up, climb, new_folder, named, made,
  selected,
}

-- What the server lists at a path, at each of the times that it is asked: folders come and go meanwhile, those
-- that the dialog makes among them.
module _ (serves : ℕ → String → List Folder) (start : Option String) where
  -- A folder that is found from the start by going from a listing to one of its folders.
  pub data IsListed : String → Type 0 where
    origin : IsListed (opened start).cur
    inside :
        (time : ℕ) (path : String) (i : ℕ) (f : Folder)
        → IsListed path
        → get_elem? (serves time path) i ≡ some f
        → IsListed f.path

  -- What happens in the dialog. An answer comes at any time, of any folder that was asked for, and a
  -- folder that was made loads the listing again.
  pub data Step : Picker → Picker → Type 0 where
    answers :
        (p : Picker) (time : ℕ) (path : String)
        → IsListed path
        → Step p (browsed p (serves time path))
    reloads : (p : Picker) → Step p (load p).0
    fails : (p : Picker) (message : String) → Step p (browse_failed p message)
    enters :
        (p : Picker) (shown : List Folder) (i : ℕ) (f : Folder)
        → p.entries ≡ some shown
        → get_elem? shown i ≡ some f
        → Step p (enter p f).0
    goes_up : (p : Picker) → Step p (up p).0
    makes :
        (hint : String) (p : Picker) (name answer : Option String)
        → Step p (new_folder hint p name answer).0

  pub data Reach : Picker → Type 0 where
    begin : Reach (load (opened start)).0
    next : {p q : Picker} → Reach p → Step p q → Reach q

  AreListed : Option (List Folder) → Type 0
  AreListed none = Unit
  AreListed (some fs) = All (λ (f : Folder). IsListed f.path) fs

  record IsInside (p : Picker) : Type 0 where
    here : IsListed p.cur
    above : All IsListed p.rest
    shown : AreListed p.entries

  All-get :
      (fs : List Folder) (i : ℕ) (f : Folder)
      → All (λ (f : Folder). IsListed f.path) fs
      → get_elem? fs i ≡ some f
      → IsListed f.path
  All-get [] i f _ h = absurd (cc h)
  All-get (g ∷ fs) zero f (a, _) h =
      let same : g ≡ f = cc h in subst (λ (x : Folder). IsListed x.path) same a
  All-get (g ∷ fs) (suc i) f (_, rest) h = All-get fs i f rest h

  serves-All : (time : ℕ) (path : String) → IsListed path → AreListed (some (serves time path))
  unfolding AreListed
  serves-All time path l = go (serves time path) (λ i f h. inside time path i f l h)
    where
      go :
          (fs : List Folder)
          → ((i : ℕ) (f : Folder) → get_elem? fs i ≡ some f → IsListed f.path)
          → All (λ (f : Folder). IsListed f.path) fs
      go [] h = tt
      go (f ∷ fs) h = (h 0 f refl, go fs (λ i g e. h (suc i) g e))

  load-IsInside : (p : Picker) → IsListed p.cur → All IsListed p.rest → IsInside (load p).0
  unfolding load AreListed
  load-IsInside p h a = record { here = h; above = a; shown = tt }

  climb-IsInside :
      (p : Picker) (rest : List String) → IsInside p → All IsListed rest → IsInside (climb p rest).0
  unfolding climb
  climb-IsInside p [] v a = v
  climb-IsInside p (q ∷ rest) v (h, a) = load-IsInside (record p { cur = q; rest = rest }) h a

  made-IsInside : (p : Picker) (answer : Option String) → IsInside p → IsInside (made p answer).0
  unfolding made
  made-IsInside p none v = load-IsInside p v.here v.above
  made-IsInside p (some m) v = record { here = v.here; above = v.above; shown = v.shown }

  named-IsInside :
      (p : Picker) (name answer : Option String) → IsInside p → IsInside (named p name answer).0
  unfolding named
  named-IsInside p none answer v = v
  named-IsInside p (some name) answer v = elim (Bool-cases (name == "")) [
    | inl e ↦ rw e v
    | inr e ↦ rw e (made-IsInside p answer v)
  ]

  Step-IsInside : {p q : Picker} → Step p q → IsInside p → IsInside q
  unfolding browsed browse_failed enter up new_folder AreListed
  Step-IsInside (reloads p) v = load-IsInside p v.here v.above
  Step-IsInside (answers p time path l) v = record {
    here = v.here;
    above = v.above;
    shown = serves-All time path l;
  }
  Step-IsInside (fails p m) v = record { here = v.here; above = v.above; shown = tt }
  Step-IsInside (enters p fs i f e h) v =
      load-IsInside (record p { cur = f.path; rest = p.cur ∷ p.rest })
        (All-get fs i f (subst AreListed e v.shown) h) (v.here, v.above)
  Step-IsInside (goes_up p) v = climb-IsInside p p.rest v v.above
  Step-IsInside (makes hint p name answer) v = elim (Bool-cases (p.cur == "")) [
    | inl e ↦ rw e (record { here = v.here; above = v.above; shown = v.shown })
    | inr e ↦ rw e (named-IsInside p name answer v)
  ]

  nothing_below : (from : Option String) → All IsListed (opened from).rest
  unfolding opened
  nothing_below none = tt
  nothing_below (some path) = tt

  Reach-IsInside : (p : Picker) → Reach p → IsInside p
  unfolding opened
  Reach-IsInside _ begin = load-IsInside (opened start) origin (nothing_below start)
  Reach-IsInside _ (next {p} r s) = Step-IsInside s (Reach-IsInside p r)

  -- Whatever happens in the dialog, also when folders are made or removed meanwhile and when an answer
  -- comes late, for a folder that was left, the folder that can be chosen is the end of a way from the
  -- start on which the server, at some time, listed each folder in the one before, and it is not the list
  -- of volumes.
  pub selected-IsListed :
      (p : Picker) (path : String)
      → Reach p
      → selected p ≡ some path
      → ((path == "") ≡ false) × IsListed path
  unfolding selected
  selected-IsListed p path r h = elim (Bool-cases (p.cur == "")) [
    | inl e ↦ absurd (cc (rw e at h))
    | inr e ↦
        let same : p.cur ≡ path = cc (rw e at h) in
        (subst (λ x. (x == "") ≡ false) same e, subst IsListed same (Reach-IsInside p r).here)
  ]
