-- ===== src/Admin/Tests.antt =====
-- A run of the administration page, and its theorem there.
use ollozuna_nas.Prelude.{true, false, some, [], ◌∷◌, ◌≡◌, refl}
use ollozuna_nas.Admin.{Admin, initial, ask, shutdown, do_power, power_call, can_ask}
use ollozuna_nas.Admin.Power.{asks, confirms, start, next, power-AsksFor}

abbrev asked : Admin
asked = ask initial shutdown

asked_can : can_ask true initial ≡ true
unfolding can_ask
asked_can = refl

asked_confirm : asked.confirm ≡ some shutdown
unfolding ask
asked_confirm = refl

asked_idle : asked.busy ≡ false
unfolding ask
asked_idle = refl

asked_call : (do_power asked shutdown).1 ≡ power_call shutdown ∷ []
unfolding do_power
asked_call = refl

power-AsksFor_example :
    (true ≡ true)
    × (asked.confirm ≡ some shutdown)
    × (asked.busy ≡ false)
    × ((do_power asked shutdown).0.busy ≡ true)
power-AsksFor_example =
    power-AsksFor true asked (do_power asked shutdown).0 [] (do_power asked shutdown).1 shutdown
      (next start (asks initial shutdown asked_can))
      (confirms asked shutdown asked_confirm asked_idle) asked_call
