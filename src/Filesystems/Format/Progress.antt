-- ===== src/Filesystems/Format/Progress.antt =====
-- What the dialog that formats an array can come to (`CreateFilesystemModal`,
-- nasweb/frontend/src/js/app.js).
use ollozuna_nas.Prelude.{
  ℕ, suc, ◌≤◌, String, Bool, true, false, none, some, min, ◌≡◌, refl, arith, ◌⊎◌, inl, inr,
  Bool-cases,
}
use ollozuna_nas.Number.{round_percent}
use ollozuna_nas.Api.Endpoints.{Call, create_filesystem}
use ollozuna_nas.Raid.{Filesystem}
use ollozuna_nas.Filesystems.Format.{
  Dialog, new, is_absolute, submit, tick, succeeded, failed, choose_type, type_mount, set_picker,
  picked,
}

-- What happens in the dialog: its fields, its button and its picker's are there until the
-- formatting is done, and disabled while it runs; a tick comes while the timer runs, and an answer while the
-- call does.
pub data Step (fs : Filesystem) : Dialog → Dialog → Type 0 where
  press :
      (d : Dialog) (confirmed : Bool)
      → d.formatting ≡ false
      → d.done ≡ false
      → Step fs d (submit fs d confirmed).0
  ticks : (d : Dialog) (step : ℕ) → d.timer ≡ some step → Step fs d (tick d step)
  success : (d : Dialog) → d.formatting ≡ true → Step fs d (succeeded d)
  failure : (d : Dialog) (message : String) → d.formatting ≡ true → Step fs d (failed d message)
  choose : (d : Dialog) (fs_type : String) → d.done ≡ false → Step fs d (choose_type d fs_type)
  type_in : (d : Dialog) (path : String) → d.done ≡ false → Step fs d (type_mount d path)
  browse : (d : Dialog) (shown : Bool) → d.done ≡ false → Step fs d (set_picker d shown)
  pick : (d : Dialog) (path : String) → d.done ≡ false → Step fs d (picked d path)

pub data Reach (fs : Filesystem) : Dialog → Type 0 where
  start : Reach fs (new fs)
  next : {d e : Dialog} → Reach fs d → Step fs d e → Reach fs e

-- A timer runs only while a call does; the bar is full exactly when the formatting is done, and
-- stays at 90 percent at most before; what is done does not run.
pub record IsValid (d : Dialog) : Type 0 where
  pub timed : (d.timer ≡ none) ⊎ (d.formatting ≡ true)
  pub bar :
      ((d.done ≡ true) × (d.progress ≡ 100) × (d.formatting ≡ false))
      ⊎ ((d.done ≡ false) × (d.progress ≤ 90))

running-undone :
    (d : Dialog) → IsValid d → d.formatting ≡ true → (d.done ≡ false) × (d.progress ≤ 90)
running-undone d v on = elim v.bar [ inl (_, _, off) ↦ absurd (cc (off, on)) | inr b ↦ b ]

undone : (d : Dialog) → IsValid d → d.done ≡ false → d.progress ≤ 90
undone d v open_still = elim v.bar [
  | inl (shut, _, _) ↦ absurd (cc (shut, open_still))
  | inr b ↦ b.1
]

timed-running : (d : Dialog) (step : ℕ) → IsValid d → d.timer ≡ some step → d.formatting ≡ true
timed-running d step v e = elim v.timed [ inl off ↦ absurd (cc (off, e)) | inr on ↦ on ]

min_le : (n : ℕ) → min 90 n ≤ 90
min_le n = omega arith

submit-IsValid :
    (fs : Filesystem) (d : Dialog) (confirmed : Bool)
    → d.formatting ≡ false
    → d.done ≡ false
    → IsValid d
    → IsValid (submit fs d confirmed).0
unfolding submit
submit-IsValid fs d confirmed idle open_still v = elim (Bool-cases (is_absolute d.mount_point)) [
  | inl e ↦ elim (Bool-cases confirmed) [
    | inl c ↦ rw (e, c) (record { timed = inr refl; bar = inr (open_still, omega arith) })
    | inr c ↦ rw (e, c) v
  ]
  | inr e ↦ rw e (record { timed = v.timed; bar = v.bar })
]

Step-IsValid : {fs : Filesystem} {d e : Dialog} → Step fs d e → IsValid d → IsValid e
unfolding tick succeeded failed choose_type type_mount set_picker picked
Step-IsValid {fs} (press d confirmed idle open_still) v =
    submit-IsValid fs d confirmed idle open_still v
Step-IsValid (ticks d step e) v =
    let on = timed-running d step v e in
    record {
      timed = inr on;
      bar = inr ((running-undone d v on).0, min_le (round_percent (suc step) 80));
    }
Step-IsValid (success d on) v = record { timed = inl refl; bar = inl (refl, refl, refl) }
Step-IsValid (failure d m on) v = record { timed = inl refl; bar = inr (running-undone d v on) }
Step-IsValid (choose d t open_still) v = record { timed = v.timed; bar = v.bar }
Step-IsValid (type_in d p open_still) v = record { timed = v.timed; bar = v.bar }
Step-IsValid (browse d b open_still) v = record { timed = v.timed; bar = v.bar }
Step-IsValid (pick d p open_still) v = record { timed = v.timed; bar = v.bar }

-- Whatever happens in the dialog, its timer runs only while the call does, the bar stays at 90
-- percent at most until the formatting is done, and from then on it is full and nothing runs.
pub dialog-IsValid : (fs : Filesystem) (d : Dialog) → Reach fs d → IsValid d
unfolding new
dialog-IsValid fs _ start = record { timed = inl refl; bar = inr (refl, omega arith) }
dialog-IsValid fs _ (next {d} r s) = Step-IsValid s (dialog-IsValid fs d r)

-- The dialog asks the server to format an array only after the question was answered by yes, with
-- a mount point that starts with a slash, and then for the device, the type and the mount point
-- that it shows.
pub format-sends :
    (fs : Filesystem) (d : Dialog) (confirmed : Bool) (c : Call)
    → (submit fs d confirmed).1 ≡ some c
    → (confirmed ≡ true)
      × (is_absolute d.mount_point ≡ true)
      × (c ≡ create_filesystem fs.device d.fs_type d.mount_point)
unfolding submit
format-sends fs d confirmed c h = ground arith
