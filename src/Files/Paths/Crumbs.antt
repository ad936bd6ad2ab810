-- ===== src/Files/Paths/Crumbs.antt =====
-- The breadcrumb of `FilesView` (nasweb/frontend/src/js/app.js): where each of its buttons leads.
use ollozuna_nas.Prelude.{
  String, false, not, List, [], ◌∷◌, ◌++◌, map, ◌==◌, ◌+++◌, has_char, split, join, filterb,
  split-join, split-lacks, All, ◌≡◌, refl, ap, ◌∙◌, Bool-cases, inl, inr,
}
use ollozuna_nas.Files.Paths.{segments, crumbs, crumbs_from}

-- A name of a path: not empty, and without a slash.
abbrev Piece : String → Type 0
Piece s = ((s == "") ≡ false) × (has_char b'/' s ≡ false)

Pieces-filterb :
    (xs : List String)
    → All (λ s. has_char b'/' s ≡ false) xs
    → All Piece (filterb (λ s. not (s == "")) xs)
Pieces-filterb [] h = tt
Pieces-filterb (x ∷ xs) (h, hs) = elim (Bool-cases (x == "")) [
  | inl e ↦ rw e (Pieces-filterb xs hs)
  | inr e ↦ rw e ((e, h), Pieces-filterb xs hs)
]

segments-Pieces : (path : String) → All Piece (segments path)
unfolding segments
segments-Pieces path = Pieces-filterb (split b'/' path) (split-lacks b'/' path)

filterb-Pieces : (xs : List String) → All Piece xs → filterb (λ s. not (s == "")) xs ≡ xs
filterb-Pieces [] h = refl
filterb-Pieces (x ∷ xs) ((e, _), hs) = rw e (ap (x ∷◌) (filterb-Pieces xs hs))

Pieces-lack : (xs : List String) → All Piece xs → All (λ s. has_char b'/' s ≡ false) xs
Pieces-lack [] h = tt
Pieces-lack (x ∷ xs) ((_, h), hs) = (h, Pieces-lack xs hs)

Pieces-append : (xs : List String) (s : String) → All Piece xs → Piece s → All Piece (xs ++ s ∷ [])
Pieces-append [] s h p = (p, tt)
Pieces-append (x ∷ xs) s (q, h) p = (q, Pieces-append xs s h p)

-- The path that leads to these names is read back as the names.
segments_of_join :
    (x : String) (xs : List String)
    → All Piece (x ∷ xs)
    → segments ("/" +++ join "/" (x ∷ xs)) ≡ x ∷ xs
unfolding segments
segments_of_join x xs h =
    ap (filterb (λ s. not (s == ""))) (split-join "/" "" (x ∷ xs) (refl, Pieces-lack (x ∷ xs) h))
    ∙ filterb-Pieces (x ∷ xs) h

-- The beginnings of a list of names, the shortest first.
pub prefixes : List String → List String → List (List String)
prefixes before [] = []
prefixes before (s ∷ ss) = (before ++ s ∷ []) ∷ prefixes (before ++ s ∷ []) ss

segments_of_crumb :
    (before : List String) (s : String)
    → All Piece (before ++ s ∷ [])
    → segments ("/" +++ join "/" (before ++ s ∷ [])) ≡ before ++ s ∷ []
segments_of_crumb [] s h = segments_of_join s [] h
segments_of_crumb (b ∷ bs) s h = segments_of_join b (bs ++ s ∷ []) h

crumbs_from-prefixes :
    (before ss : List String)
    → All Piece before
    → All Piece ss
    → map segments (crumbs_from before ss) ≡ prefixes before ss
unfolding crumbs_from prefixes
crumbs_from-prefixes before [] hb h = refl
crumbs_from-prefixes before (s ∷ ss) hb (p, h) =
    let all_pieces = Pieces-append before s hb p in
    cc (
      segments_of_crumb before s all_pieces,
      crumbs_from-prefixes (before ++ s ∷ []) ss all_pieces h,
    )

-- The buttons of the breadcrumb lead, one after the other, to the directories on the way to the
-- current path: the names on the path of each are the first names on the current path, one more
-- from button to button up to all of them, whatever slashes the path has too many.
pub segments-crumbs : (path : String) → map segments (crumbs path) ≡ prefixes [] (segments path)
unfolding crumbs
segments-crumbs path = crumbs_from-prefixes [] (segments path) tt (segments-Pieces path)
