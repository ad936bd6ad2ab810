-- ===== src/Qbt/Page.antt =====
-- The page of qBittorrent: `QbtView` of nasweb/frontend/src/js/app.js. `act` is split in its start and
-- its end, the answer to its call.
pub mod Acts
mod Tests
use ollozuna_nas.Prelude.{
  ℕ, String, Bool, true, false, not, ◌&&◌, ◌||◌, Option, none, some, List, [], ◌∷◌, ◌==◌, eqb,
  if◌then◌else◌,
}
use ollozuna_nas.Api.Endpoints.{Call, qbt_start, qbt_stop}

-- The answer to `qbtStatus`, as far as the page reads it.
pub record Status : Type 0 where
  pub state : String
  pub temp_dir : String
  pub torfile_dir : String
  pub downloads_dir : String
  pub webui_port : ℕ

pub record Page : Type 0 where
  pub wizard : Bool
  pub busy : Bool
  pub err : String

abbrev pub initial : Page
initial = record { wizard = false; busy = false; err = "" }

-- `qbt?.state || "unavailable"` and `qbt?.webui_port || 8080`.
unfoldable pub state_of : Option Status → String
state_of none = "unavailable"
state_of (some q) = if q.state == "" then "unavailable" else q.state

unfoldable pub port_of : Option Status → ℕ
port_of none = 8080
port_of (some q) = if eqb q.webui_port 0 then 8080 else q.webui_port

unfoldable pub badge : String → String
badge state =
    if state == "running" then "active" else if state == "unavailable" then "degraded" else ""

-- The card of the service is shown, and the one that asks to set it up.
unfoldable pub is_set_up : String → Bool
is_set_up state = state == "running" || state == "stopped" || state == "configured"

unfoldable pub asks_set_up : String → Bool
asks_set_up state = state == "available"

-- The buttons; each is there and enabled.
pub data Button : Type 0 where
  configure stop start reconfigure : Button

unfoldable pub can_press : Bool → String → Page → Button → Bool
unfolding is_set_up asks_set_up
can_press is_admin state p configure = asks_set_up state && is_admin
can_press is_admin state p stop = is_set_up state && is_admin && state == "running" && not p.busy
can_press is_admin state p start =
    is_set_up state && is_admin && not (state == "running") && not p.busy
can_press is_admin state p reconfigure = is_set_up state && is_admin && not p.busy

act : Page → Call → Page × Option Call
act p call = (record p { busy = true; err = "" }, some call)

unfoldable pub press : Page → Button → Page × Option Call
unfolding act
press p configure = (record p { wizard = true }, none)
press p stop = act p qbt_stop
press p start = act p qbt_start
press p reconfigure = (record p { wizard = true }, none)

-- The end of `act`, with the message of a refusal or none; a success calls `onChanged`.
unfoldable pub acted : Page → Option String → Page × Bool
acted p none = (record p { busy = false }, true)
acted p (some message) = (record p { err = message; busy = false }, false)

unfoldable pub close_wizard : Page → Page
close_wizard p = record p { wizard = false }
