-- ===== src/Filesystems/Usage.antt =====
-- How full a filesystem is: `usedPct` and `barColor` of `FilesystemSection`,
-- nasweb/frontend/src/js/app.js. Sizes are in bytes and below `2 ^ 53`.
use ollozuna_nas.Prelude.{
  ℕ, ◌≤◌, ◌<◌, String, false, Option, some, eqb, ltb, if◌then◌else◌, ◌≡◌, refl, arith, Bool-cases,
  inl, inr,
}
use ollozuna_nas.Number.{round_percent, percent_of}
use ollozuna_nas.Number.Bounds.{round_percent_le}

-- The percentage, of the bytes in all and the bytes in use; none is what JavaScript has for no number.
unfoldable pub used_pct : ℕ → ℕ → Option ℕ
unfolding percent_of
used_pct total used = if ltb 0 total then percent_of used total else some 0

unfoldable pub bar_color : ℕ → String
bar_color pct =
    if ltb 85 pct then "var(--danger)" else if ltb 65 pct then "var(--warn)" else "var(--ok)"

-- The bar of a filesystem that uses no more than it has is a number of percent and never wider than its
-- frame, also for an empty device of no bytes.
pub used_pct_le :
    (total used : ℕ) → used ≤ total → (n : ℕ) × (used_pct total used ≡ some n) × (n ≤ 100)
unfolding used_pct percent_of
used_pct_le total used le = elim (Bool-cases (ltb 0 total)) [
  | inl some_bytes ↦
      let more : 0 < total = grind arith in
      let not_none : eqb total 0 ≡ false = ground arith in
      (
        round_percent used total,
        rw (some_bytes, not_none) refl,
        round_percent_le used total more le,
      )
  | inr none_left ↦ (0, rw none_left refl, omega arith)
]
