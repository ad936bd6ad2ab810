-- ===== src/Toasts/Tests.antt =====
-- A run of the messages, and its theorem there.
use ollozuna_nas.Prelude.{[], ◌∷◌, List, length, ◌≡◌}
use ollozuna_nas.Toasts.Gone.{Event, message, timeout, nothing, run, timeouts, toasts_gone}

abbrev two : List Event
two = message 1 "saved" "ok" ∷ timeout ∷ message 2 "removed" "ok" ∷ message 3 "no" "error" ∷ []

toasts_gone_example :
    (run (run nothing two) (timeouts (length (run nothing two).timers))).toasts ≡ []
toasts_gone_example = toasts_gone two
