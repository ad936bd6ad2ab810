-- ===== src/Toasts/Gone.antt =====
-- Every message goes (`useToast`, nasweb/frontend/src/js/app.js).
use ollozuna_nas.Prelude.{
  ℕ, zero, suc, String, Bool, true, false, List, [], ◌∷◌, ◌++◌, eqb, ◌≡◌, refl, arith, eqb_iff,
  length, All, ◌||◌, inl, inr, Bool-cases,
}
use mathlib.Core.Path.{subst}
use ollozuna_nas.Toasts.{Toast, show, expire}

-- What happens: a message comes, or a timer that was started ends. The running timers are known by
-- the ids of their messages.
pub record State : Type 0 where
  pub toasts : List Toast
  pub timers : List ℕ

abbrev pub nothing : State
nothing = record { toasts = []; timers = [] }

unfoldable pub comes : State → ℕ → String → String → State
comes s id msg type = record { toasts = show s.toasts id msg type; timers = s.timers ++ (id ∷ []) }

-- The timers end in the order in which they started, as all run for the same time.
ended : State → List ℕ → State
ended s [] = s
ended s (id ∷ rest) = record { toasts = expire s.toasts id; timers = rest }

unfoldable pub ends : State → State
unfolding ended
ends s = ended s s.timers

pub data Event : Type 0 where
  message : ℕ → String → String → Event
  timeout : Event

unfoldable pub run : State → List Event → State
unfolding comes ends
run s [] = s
run s (message id msg type ∷ es) = run (comes s id msg type) es
run s (timeout ∷ es) = run (ends s) es

-- So many timeouts.
unfoldable pub timeouts : ℕ → List Event
timeouts zero = []
timeouts (suc n) = timeout ∷ timeouts n

abbrev has_id : List ℕ → ℕ → Bool
has_id [] id = false
has_id (x ∷ xs) id = eqb x id || has_id xs id

has_id-snoc : (xs : List ℕ) (x k : ℕ) → has_id (xs ++ (x ∷ [])) k ≡ (has_id xs k || eqb x k)
has_id-snoc [] x k = ground arith
has_id-snoc (y ∷ xs) x k = ground (arith, has_id-snoc xs x k)

-- Each message has a timer that runs.
AreTimed : List ℕ → List Toast → Type 0
AreTimed timers toasts = All (λ (t : Toast). has_id timers t.id ≡ true) toasts

new-AreTimed :
    (timers : List ℕ) (toasts : List Toast) (t : Toast)
    → AreTimed timers toasts
    → AreTimed (timers ++ (t.id ∷ [])) (toasts ++ (t ∷ []))
unfolding AreTimed
new-AreTimed timers [] t _ =
    (rw (has_id-snoc timers t.id t.id) (ground (arith, eqb_iff t.id t.id)), tt)
new-AreTimed timers (u ∷ toasts) t (timed, all_timed) =
    (rw (has_id-snoc timers t.id u.id, timed) refl, new-AreTimed timers toasts t all_timed)

expire-AreTimed :
    (id : ℕ) (timers : List ℕ) (toasts : List Toast)
    → AreTimed (id ∷ timers) toasts
    → AreTimed timers (expire toasts id)
unfolding AreTimed expire
expire-AreTimed id timers [] _ = tt
expire-AreTimed id timers (t ∷ toasts) (timed, all_timed) =
    let rest = expire-AreTimed id timers toasts all_timed in
    elim (Bool-cases (eqb t.id id)) [
      | inl e ↦ rw e rest
      | inr e ↦ rw e ((ground (arith, timed), rest))
    ]

abbrev IsTimed : State → Type 0
IsTimed s = AreTimed s.timers s.toasts

ended-IsTimed :
    (toasts : List Toast) (timers all : List ℕ)
    → AreTimed timers toasts
    → timers ≡ all
    → IsTimed (ended (record { toasts = toasts; timers = all }) timers)
unfolding ended
ended-IsTimed toasts [] all timed e = subst (λ x. AreTimed x toasts) e timed
ended-IsTimed toasts (id ∷ rest) all timed e = expire-AreTimed id rest toasts timed

run-IsTimed : (s : State) (es : List Event) → IsTimed s → IsTimed (run s es)
unfolding run comes ends show
run-IsTimed s [] timed = timed
run-IsTimed s (message id msg type ∷ es) timed =
    run-IsTimed (comes s id msg type) es
      (new-AreTimed s.timers s.toasts (record { id = id; msg = msg; type = type }) timed)
run-IsTimed s (timeout ∷ es) timed =
    run-IsTimed (ends s) es (ended-IsTimed s.toasts s.timers s.timers timed refl)

untimed : (toasts : List Toast) → AreTimed [] toasts → toasts ≡ []
unfolding AreTimed
untimed [] _ = refl
untimed (t ∷ toasts) (timed, _) = absurd (cc timed)

drained :
    (timers : List ℕ) (toasts : List Toast)
    → AreTimed timers toasts
    → (run (record { toasts = toasts; timers = timers }) (timeouts (length timers))).toasts ≡ []
unfolding run ends ended timeouts
drained [] toasts timed = untimed toasts timed
drained (id ∷ timers) toasts timed =
    drained timers (expire toasts id) (expire-AreTimed id timers toasts timed)

-- Whatever messages have come and timers ended, once the timers that still run have ended too
-- and no message has come meanwhile, no message is shown.
pub toasts_gone :
    (es : List Event)
    → (run (run nothing es) (timeouts (length (run nothing es).timers))).toasts ≡ []
unfolding AreTimed
toasts_gone es = let s = run nothing es in drained s.timers s.toasts (run-IsTimed nothing es tt)
