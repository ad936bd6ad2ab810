-- ===== src/Api/Replies.antt =====
-- How a call ends (`request`, nasweb/frontend/src/js/api.js).
use ollozuna_nas.Prelude.{ℕ, true, Option, ◌≡◌, ◌↔◌, refl, arith, get_or}
use ollozuna_nas.Json.{Json, obj, empty}
use ollozuna_nas.Api.{
  Reply, unreachable, answered, returned, threw, error, is_ok, settle, Endpoint, HttpRequest, Token,
  request, prepare,
}

-- The reply is a success with this value: its status lies from 200 to 299, and its text is the
-- value, or no JSON, which counts as an empty object.
pub record Succeeds (r : Reply) (v : Json) : Type 0 where
  pub status : ℕ
  pub body : Option Json
  pub is_answer : r ≡ answered status body
  pub in_range : is_ok status ≡ true
  pub value : get_or body (obj empty) ≡ v

settle-Succeeds : (r : Reply) (v : Json) → (settle r).outcome ≡ returned v → Succeeds r v
unfolding settle
settle-Succeeds (unreachable m) v h = cc
settle-Succeeds (answered status body) v h = record {
  status = status;
  body = body;
  is_answer = refl;
  in_range = ground arith;
  value = ground arith;
}

Succeeds-settle : (r : Reply) (v : Json) → Succeeds r v → (settle r).outcome ≡ returned v
unfolding settle
Succeeds-settle (unreachable m) v s = absurd (cc (s.is_answer))
Succeeds-settle (answered status body) v s = ground arith

-- A call returns a value exactly when the server answers with a status from 200 to 299 and a text that
-- is this value, or is no JSON, in which case the value is the empty object. Every other reply, a
-- failed connection included, returns none.
pub request-returned_iff :
    (fetch : HttpRequest → Reply) (token : Token) (e : Endpoint) (v : Json)
    → ((request fetch token e).outcome ≡ returned v) ↔ Succeeds (fetch (prepare token e)) v
unfolding request
request-returned_iff fetch token e v = (settle-Succeeds _ v, Succeeds-settle _ v)

abbrev Expires : Reply → Type 0
Expires r =
    (body : Option Json) × (r ≡ answered 401 body)
    × ((settle r).outcome ≡ threw (error "unauthorized"))

settle-Expires : (r : Reply) → (settle r).expired ≡ true → Expires r
unfolding settle
settle-Expires (unreachable m) h = cc
settle-Expires (answered status body) h = (body, ground arith, ground arith)

Expires-settle : (r : Reply) → Expires r → (settle r).expired ≡ true
unfolding settle
Expires-settle r (body, e, _) = rw e refl

-- The event `session-expired` is dispatched exactly when the status is 401, and then the call
-- throws `unauthorized`.
pub request-expired_iff :
    (fetch : HttpRequest → Reply) (token : Token) (e : Endpoint)
    → ((request fetch token e).expired ≡ true) ↔ (
        (body : Option Json) × (fetch (prepare token e) ≡ answered 401 body)
        × ((request fetch token e).outcome ≡ threw (error "unauthorized")))
unfolding request
request-expired_iff fetch token e = (settle-Expires _, Expires-settle _)
