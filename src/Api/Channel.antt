-- ===== src/Api/Channel.antt =====
-- The event channel: `connectWS` of nasweb/frontend/src/js/api.js, and how a view holds it: the effect that
-- opens it when the view is shown, and its cleanup, which closes the socket that the effect got.
-- Sockets are numbered in the order in which they are opened.
pub mod Leak
use ollozuna_nas.Prelude.{
  ℕ, suc, String, Bool, true, false, not, Option, none, some, List, [], ◌∷◌, ◌==◌, eqb, filterb,
  any, if◌then◌else◌, ◌+++◌,
}
use ollozuna_nas.Json.{Json, null, bool, num, str, arr, obj, Items, Members, find_member}

-- `wss` on a page that came by `https:`.
unfoldable pub ws_url : String → String → String
ws_url protocol host = (if protocol == "https:" then "wss" else "ws") +++ "://" +++ host +++ "/ws"

-- What `onmessage` hands on: the members `type` and `payload` (`none` is `undefined`), unless the text is no
-- JSON or `null`, where the exception is swallowed.
unfoldable pub on_message : Option Json → Option (Option Json × Option Json)
unfolding find_member
on_message none = none
on_message (some null) = none
on_message (some (obj ms)) = some (find_member "type" ms, find_member "payload" ms)
on_message (some _) = some (none, none)

-- The sockets that are open, the timers that will reconnect, and the number of the next socket.
pub record Channel : Type 0 where
  pub next : ℕ
  pub live : List ℕ
  pub timers : ℕ

-- The body of `connectWS`; the new socket is the one numbered `next` before the call.
connect : Channel → Channel
connect c = record c { next = suc c.next; live = c.next ∷ c.live }

-- A socket is closed, by the view or from outside: `onclose` starts a timer. A socket that is
-- closed already has no second close event.
close : ℕ → Channel → Channel
close id c =
    if any (eqb id) c.live
    then record c { live = filterb (λ i. not (eqb id i)) c.live; timers = suc c.timers }
    else c

-- A view is shown; a view whose effect got this socket goes away; a connection breaks; the three
-- seconds of a timer are over.
pub data Event : Type 0 where
  shown : Event
  hidden broken : ℕ → Event
  timer : Event

fire : ℕ → Channel → Channel
unfolding connect
fire ℕ.zero c = c
fire (suc n) c = connect (record c { timers = n })

unfoldable pub handle : Channel → Event → Channel
unfolding connect close fire
handle c shown = connect c
handle c (hidden id) = close id c
handle c (broken id) = close id c
handle c timer = fire c.timers c

unfoldable pub run : Channel → List Event → Channel
unfolding handle
run c [] = c
run c (e ∷ es) = run (handle c e) es
