-- ===== src/Session/Reach.antt =====
-- What the navigation can come to (`App`, nasweb/frontend/src/js/app.js).
use ollozuna_nas.Prelude.{
  String, Bool, true, false, not, ◌&&◌, ◌||◌, none, some, List, [], ◌∷◌, ◌==◌, includes, any, ◌≡◌,
  refl, arith, Bool-cases, inl, inr, ◌⊎◌,
}
use ollozuna_nas.Session.{
  User, App, initial, login_form, page, screen, items, signed_in_as_admin, qbt_unavailable, offers,
  Event, me_found, logged_in, me_failed, logged_out, expired, qbt_came, press, handle, run,
}

-- The event signs in an administrator, or reports a state in which the qBittorrent page is offered.
abbrev pub signs_in_admin : Event → Bool
signs_in_admin (me_found u) = u.is_admin
signs_in_admin (logged_in u) = u.is_admin
signs_in_admin _ = false

abbrev pub makes_available : Event → Bool
makes_available (qbt_came state) = not (state == "unavailable")
makes_available _ = false

-- The route is one of the common ones, or the qBittorrent page or the admin page, where that was
-- once on offer.
abbrev pub is_allowed : Bool → Bool → String → Bool
is_allowed admin available r =
    includes items r || (r == "qbt" && available || r == "admin" && admin)

-- What a state of the app owes to the events before it: whether there was an administrator, and
-- whether qBittorrent was there.
record IsValid (admin available : Bool) (a : App) : Type 0 where
  by_admin : (signed_in_as_admin a.user ≡ false) ⊎ (admin ≡ true)
  by_qbt : (qbt_unavailable a.qbt ≡ true) ⊎ (available ≡ true)
  routed : is_allowed admin available a.route ≡ true

allowed_more :
    (admin available x y : Bool) (r : String)
    → is_allowed admin available r ≡ true
    → is_allowed (admin || x) (available || y) r ≡ true
allowed_more admin available x y r h = ground arith

offered-allowed :
    (admin available : Bool) (a : App) (r : String)
    → IsValid admin available a
    → offers a r ≡ true
    → is_allowed admin available r ≡ true
unfolding offers
offered-allowed admin available a r v h = ground (arith, v.by_admin, v.by_qbt)

handle-IsValid :
    (admin available : Bool) (a : App) (e : Event)
    → IsValid admin available a
    → IsValid (admin || signs_in_admin e) (available || makes_available e) (handle a e)
unfolding handle
handle-IsValid admin available a (me_found u) v = record {
  by_admin = ground arith;
  by_qbt = ground (arith, v.by_qbt);
  routed = allowed_more admin available u.is_admin false a.route v.routed;
}
handle-IsValid admin available a (logged_in u) v = record {
  by_admin = ground arith;
  by_qbt = ground (arith, v.by_qbt);
  routed = allowed_more admin available u.is_admin false a.route v.routed;
}
handle-IsValid admin available a me_failed v = record {
  by_admin = inl refl;
  by_qbt = ground (arith, v.by_qbt);
  routed = allowed_more admin available false false a.route v.routed;
}
handle-IsValid admin available a logged_out v = record {
  by_admin = inl refl;
  by_qbt = ground (arith, v.by_qbt);
  routed = allowed_more admin available false false a.route v.routed;
}
handle-IsValid admin available a expired v = record {
  by_admin = inl refl;
  by_qbt = ground (arith, v.by_qbt);
  routed = allowed_more admin available false false a.route v.routed;
}
handle-IsValid admin available a (qbt_came state) v = record {
  by_admin = ground (arith, v.by_admin);
  by_qbt = came_lem;
  routed = allowed_more admin available false (not (state == "unavailable")) a.route v.routed;
}
  where
    came_lem :
        (qbt_unavailable (some state) ≡ true) ⊎ ((available || not (state == "unavailable")) ≡ true)
    came_lem = elim (Bool-cases (state == "unavailable")) [
      | inl e ↦ inl e
      | inr e ↦ inr (ground arith)
    ]
handle-IsValid admin available a (press r) v = elim (Bool-cases (offers a r)) [
  | inl e ↦ rw e (record {
    by_admin = ground (arith, v.by_admin);
    by_qbt = ground (arith, v.by_qbt);
    routed = allowed_more admin available false false r (offered-allowed admin available a r v e);
  })
  | inr e ↦ rw e (record {
    by_admin = ground (arith, v.by_admin);
    by_qbt = ground (arith, v.by_qbt);
    routed = allowed_more admin available false false a.route v.routed;
  })
]

run-allowed :
    (admin available : Bool) (a : App) (es : List Event)
    → IsValid admin available a
    → is_allowed
        (admin || any signs_in_admin es)
        (available || any makes_available es)
        (run a es).route
      ≡ true
unfolding run
run-allowed admin available a [] v = allowed_more admin available false false a.route v.routed
run-allowed admin available a (e ∷ es) v =
    rw
      (
        or_assoc admin (signs_in_admin e) (any signs_in_admin es),
        or_assoc available (makes_available e) (any makes_available es),
      )
      (run-allowed (admin || signs_in_admin e) (available || makes_available e) (handle a e) es
        (handle-IsValid admin available a e v))
  where
    or_assoc : (x y z : Bool) → (x || (y || z)) ≡ (x || y || z)
    or_assoc x y z = ground arith

-- From the start of the page, whatever happens, the route is one of the five common pages, or it
-- is the qBittorrent page and that was reported as available before, or it is the admin page and
-- an administrator had signed in before.
pub route-allowed :
    (es : List Event)
    → is_allowed (any signs_in_admin es) (any makes_available es) (run initial es).route ≡ true
unfolding qbt_unavailable
route-allowed es =
    run-allowed false false initial es
      (record { by_admin = inl refl; by_qbt = inl refl; routed = refl })

-- The event signs a user in.
abbrev pub signs_in : Event → Bool
signs_in (me_found _) = true
signs_in (logged_in _) = true
signs_in _ = false

run-signed_out :
    (es : List Event) (a : App) → a.user ≡ none → any signs_in es ≡ false → (run a es).user ≡ none
unfolding run handle offers
run-signed_out [] a out h = out
run-signed_out (me_found u ∷ es) a out h = absurd (cc (h))
run-signed_out (logged_in u ∷ es) a out h = absurd (cc (h))
run-signed_out (me_failed ∷ es) a out h = run-signed_out es (record a { user = none }) refl h
run-signed_out (logged_out ∷ es) a out h = run-signed_out es (record a { user = none }) refl h
run-signed_out (expired ∷ es) a out h = run-signed_out es (record a { user = none }) refl h
run-signed_out (qbt_came state ∷ es) a out h =
    run-signed_out es (record a { qbt = some state }) out h
run-signed_out (press r ∷ es) a out h = run-signed_out es (handle a (press r)) (rw out refl) h

-- Once the session has expired, the login is on the screen, whatever else happens, until somebody
-- signs in.
pub expired-login :
    (a : App) (es : List Event)
    → any signs_in es ≡ false
    → screen (run (handle a expired) es) ≡ login_form
unfolding screen handle
expired-login a es h = rw (run-signed_out es (handle a expired) refl h) refl

-- A user who signs in after another has signed out comes to the page where the other one was, the
-- admin page included, though the sidebar offers it only to administrators.
pub relogin-page :
    (a : App) (u : User)
    → (screen (run a (logged_out ∷ logged_in u ∷ [])) ≡ page a.route u.is_admin)
      × (offers (run a (logged_out ∷ logged_in u ∷ [])) "admin" ≡ u.is_admin)
unfolding screen run handle offers
relogin-page a u = (refl, ground arith)
