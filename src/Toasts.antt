-- ===== src/Toasts.antt =====
-- The messages that pass by: `useToast` of nasweb/frontend/src/js/app.js. An id comes from the clock and from
-- chance; the timer that takes a message away runs 3500 milliseconds after it came.
pub mod Gone
mod Tests
use ollozuna_nas.Prelude.{
  ℕ, String, Bool, true, false, not, Option, none, some, List, [], ◌∷◌, ◌++◌, ◌==◌, eqb, filterb,
}

pub record Toast : Type 0 where
  pub id : ℕ
  pub msg : String
  pub type : String

-- `show`, and the end of the timer that it starts.
unfoldable pub show : List Toast → ℕ → String → String → List Toast
show toasts id msg type = toasts ++ (record { id = id; msg = msg; type = type } ∷ [])

unfoldable pub expire : List Toast → ℕ → List Toast
expire toasts id = filterb (λ (t : Toast). not (eqb t.id id)) toasts
