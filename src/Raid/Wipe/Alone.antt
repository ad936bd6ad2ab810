-- ===== src/Raid/Wipe/Alone.antt =====
-- What the dialog that wipes a disk keeps, however the user and the server interleave.
use ollozuna_nas.Prelude.{
  ℕ, String, Bool, true, false, Option, List, [], ◌∷◌, eqb, eqb_iff, any, if◌then◌else◌, ◌≡◌, refl,
  ◌⊎◌, inl, inr, ap, Bool-cases,
}
use ollozuna_nas.Raid.Page.{Modal, closed, create, expand, mark_failed, rebuild, wipe, handle_wipe}
use ollozuna_nas.Raid.Wipe.{
  Wiping, at_first, Event, opens, created, go, dismiss, escape, answer, open_over, go_in, close_in,
  answered, is_waiting, handle, run, closes_busy,
}

unfoldable pub is_wipe : Modal → Bool
is_wipe (wipe _) = true
is_wipe _ = false

-- No call waits and the dialog is free, or the one call that waits is of the dialog that is open and busy.
unfoldable pub IsAlone : Wiping → Type 0
unfolding is_wipe
IsAlone w =
    ((w.waiting ≡ []) × (w.busy ≡ false))
    ⊎ ((w.waiting ≡ w.opening ∷ []) × (w.busy ≡ true) × (is_wipe w.page.modal ≡ true))

open-IsAlone :
    (m : Modal) (w : Wiping) (d : String) → w.page.modal ≡ m → IsAlone w → IsAlone (open_over m w d)
unfolding IsAlone open_over is_wipe
open-IsAlone closed w d e (inl (waiting, busy)) = inl (waiting, refl)
open-IsAlone closed w d e (inr (waiting, busy, shown)) = let hidden = ap is_wipe e in cc
open-IsAlone create w d e alone = alone
open-IsAlone (expand _) w d e alone = alone
open-IsAlone (mark_failed _) w d e alone = alone
open-IsAlone (rebuild _) w d e alone = alone
open-IsAlone (wipe _) w d e alone = alone

go-IsAlone : (m : Modal) (w : Wiping) → w.page.modal ≡ m → IsAlone w → IsAlone (go_in m w).0
unfolding IsAlone go_in is_wipe handle_wipe
go-IsAlone closed w e alone = alone
go-IsAlone create w e alone = alone
go-IsAlone (expand _) w e alone = alone
go-IsAlone (mark_failed _) w e alone = alone
go-IsAlone (rebuild _) w e alone = alone
go-IsAlone (wipe _) w e (inl (waiting, busy)) =
    rw busy (inr (ap (λ l. w.opening ∷ l) waiting, refl, ap is_wipe e))
go-IsAlone (wipe d) w e (inr (waiting, busy, shown)) = rw busy (inr (waiting, refl, shown))

dismiss-IsAlone :
    (m : Modal) (w : Wiping) → IsAlone w → IsAlone (if w.busy then w else close_in m w)
unfolding IsAlone close_in is_wipe
dismiss-IsAlone m w (inr (waiting, busy, shown)) = rw busy (inr (waiting, refl, shown))
dismiss-IsAlone (wipe _) w (inl (waiting, busy)) = rw busy (inl (waiting, refl))
dismiss-IsAlone closed w (inl (waiting, busy)) = rw busy (inl (waiting, refl))
dismiss-IsAlone create w (inl (waiting, busy)) = rw busy (inl (waiting, refl))
dismiss-IsAlone (expand _) w (inl (waiting, busy)) = rw busy (inl (waiting, refl))
dismiss-IsAlone (mark_failed _) w (inl (waiting, busy)) = rw busy (inl (waiting, refl))
dismiss-IsAlone (rebuild _) w (inl (waiting, busy)) = rw busy (inl (waiting, refl))

answer-IsAlone :
    (w : Wiping) (n : ℕ) (r : Option String) → IsAlone w → IsAlone (handle w (answer n r)).0
unfolding IsAlone handle answered is_waiting is_wipe
answer-IsAlone w n r (inl (waiting, busy)) = rw waiting (inl (refl, busy))
answer-IsAlone w n r (inr (waiting, busy, shown)) = elim (Bool-cases (eqb n w.opening)) [
  | inl ours ↦
      let same = (eqb_iff n w.opening).0 ours in
      rw (waiting, same, (eqb_iff w.opening w.opening).1 refl) (inl (refl, refl))
  | inr other ↦ rw (waiting, other) (inr (refl, busy, shown))
]

run-IsAlone :
    (w : Wiping) (es : List Event) → any closes_busy es ≡ false → IsAlone w → IsAlone (run w es)
unfolding run closes_busy handle
run-IsAlone w [] calm alone = alone
run-IsAlone w (opens d ∷ es) calm alone =
    run-IsAlone (handle w (opens d)).0 es calm (open-IsAlone w.page.modal w d refl alone)
run-IsAlone w (go ∷ es) calm alone =
    run-IsAlone (handle w go).0 es calm (go-IsAlone w.page.modal w refl alone)
run-IsAlone w (dismiss ∷ es) calm alone =
    run-IsAlone (handle w dismiss).0 es calm (dismiss-IsAlone w.page.modal w alone)
run-IsAlone w (escape ∷ es) calm alone = cc
run-IsAlone w (created ∷ es) calm alone = cc
run-IsAlone w (answer n r ∷ es) calm alone =
    run-IsAlone (handle w (answer n r)).0 es calm (answer-IsAlone w n r alone)

-- As long as nobody presses Escape, and no array is created that was still being created when its own dialog
-- was closed, at most one wipe waits for its answer, and while it waits its dialog is open and busy.
pub wipe-IsAlone : (es : List Event) → any closes_busy es ≡ false → IsAlone (run at_first es)
unfolding IsAlone
wipe-IsAlone es calm = run-IsAlone at_first es calm (inl (refl, refl))
