-- ===== src/Qbt/Page/Acts.antt =====
-- What the buttons of the page of qBittorrent ask of the server (`QbtView`, nasweb/frontend/src/js/app.js).
use ollozuna_nas.Prelude.{
  Bool, true, false, Option, some, ◌==◌, if◌then◌else◌, ◌≡◌, refl, sym, arith,
}
use ollozuna_nas.Api.Endpoints.{Call, qbt_start, qbt_stop}
use ollozuna_nas.Qbt.Page.{
  Page, Status, state_of, Button, configure, stop, start, reconfigure, can_press, press, act,
}

-- The only calls that the buttons of the page make are a stop while the service runs and a start while
-- it does not, made by an administrator while no call runs; the page is busy from then on.
pub presses-call :
    (is_admin : Bool) (qbt : Option Status) (p : Page) (b : Button) (call : Call)
    → can_press is_admin (state_of qbt) p b ≡ true
    → (press p b).1 ≡ some call
    → (is_admin ≡ true)
      × (p.busy ≡ false)
      × ((press p b).0.busy ≡ true)
      × (call ≡ (if state_of qbt == "running" then qbt_stop else qbt_start))
unfolding can_press press act
presses-call is_admin qbt p stop call can h =
    let runs : (state_of qbt == "running") ≡ true = ground arith in
    let same : qbt_stop ≡ call = cc h in (ground arith, ground arith, refl, rw runs (sym same))
presses-call is_admin qbt p start call can h =
    let rests : (state_of qbt == "running") ≡ false = ground arith in
    let same : qbt_start ≡ call = cc h in (ground arith, ground arith, refl, rw rests (sym same))
presses-call is_admin qbt p configure call can h = absurd (cc h)
presses-call is_admin qbt p reconfigure call can h = absurd (cc h)
