-- ===== src/Api/Channel/Leak.antt =====
-- The channels that stay behind views that are gone (`connectWS`).
use ollozuna_nas.Prelude.{
  ℕ, zero, suc, ◌+◌, Bool, true, not, List, [], ◌∷◌, length, eqb, any, filterb, ◌≡◌, refl, arith,
  Bool-cases, inl, inr, ◌<◌, ap, eqb_iff,
}
use ollozuna_nas.Api.Channel.{
  Channel, connect, close, Event, shown, hidden, broken, timer, fire, handle, run,
}

-- The channels that are open or will be reopened by a timer.
abbrev pub channels : Channel → ℕ
channels c = length c.live + c.timers

-- How often a view was shown.
abbrev pub views : List Event → ℕ
views [] = 0
views (shown ∷ es) = suc (views es)
views (hidden _ ∷ es) = views es
views (broken _ ∷ es) = views es
views (timer ∷ es) = views es

-- The numbers fall along the list, from below the next one, so that no two are equal.
abbrev pub Falls : ℕ → List ℕ → Type 0
Falls n [] = Unit
Falls n (i ∷ is) = (i < n) × Falls i is

abbrev pub IsValid : Channel → Type 0
IsValid c = Falls c.next c.live

Falls-weaken : (m n : ℕ) (is : List ℕ) → m < suc n → Falls m is → Falls n is
Falls-weaken m n [] h f = tt
Falls-weaken m n (i ∷ is) h (lt, f) = (omega arith, f)

Falls-filterb : (p : ℕ → Bool) (n : ℕ) (is : List ℕ) → Falls n is → Falls n (filterb p is)
Falls-filterb p n [] f = tt
Falls-filterb p n (i ∷ is) (lt, f) = elim (Bool-cases (p i)) [
  | inl e ↦ rw e (lt, Falls-filterb p i is f)
  | inr e ↦ rw e (Falls-filterb p n is (Falls-weaken i n is (omega arith) f))
]

abbrev others : ℕ → List ℕ → List ℕ
others id = filterb (λ i. not (eqb id i))

length-others_of_Falls : (id : ℕ) (is : List ℕ) → Falls id is → length (others id is) ≡ length is
length-others_of_Falls id [] f = refl
length-others_of_Falls id (i ∷ is) (lt, f) =
    ground (arith, length-others_of_Falls id is (Falls-weaken i id is (omega arith) f))

length-others :
    (id n : ℕ) (is : List ℕ)
    → Falls n is
    → any (eqb id) is ≡ true
    → suc (length (others id is)) ≡ length is
length-others id n [] f h = cc
length-others id n (i ∷ is) (lt, f) h = elim (Bool-cases (eqb id i)) [
  | inl e ↦ rw e (ap suc (length-others_of_Falls id is (rw (← (eqb_iff id i).0 e) at f)))
  | inr e ↦ rw e (ap suc (length-others id i is f (rw e at h)))
]

-- Closing a socket starts a timer, so the number of channels stays.
close_lem :
    (id : ℕ) (c : Channel) → IsValid c → IsValid (close id c) × (channels (close id c) ≡ channels c)
unfolding close
close_lem id c f = elim (Bool-cases (any (eqb id) c.live)) [
  | inl e ↦
      rw e (Falls-filterb _ c.next c.live f, omega (arith, length-others id c.next c.live f e))
  | inr e ↦ rw e (f, refl)
]

handle_lem :
    (c : Channel) (e : Event)
    → IsValid c
    → IsValid (handle c e) × (channels (handle c e) ≡ channels c + views (e ∷ []))
unfolding handle connect fire
handle_lem c shown f = ((omega arith, f), omega arith)
handle_lem c (hidden id) f = let (g, h) = close_lem id c f in (g, omega (arith, h))
handle_lem c (broken id) f = let (g, h) = close_lem id c f in (g, omega (arith, h))
handle_lem c timer f = fire_lem c.timers refl
  where
    fire_lem : (n : ℕ) → c.timers ≡ n → IsValid (fire n c) × (channels (fire n c) ≡ channels c + 0)
    fire_lem zero e = (f, omega arith)
    fire_lem (suc n) e = ((omega arith, f), omega arith)

-- However views come and go, connections break and timers run out, the channels that are open or
-- about to be reopened are as many as there were at the start and views were shown since: hiding
-- a view never takes one away.
pub channels-run :
    (c : Channel) (es : List Event)
    → IsValid c
    → IsValid (run c es) × (channels (run c es) ≡ channels c + views es)
unfolding run
channels-run c [] f = (f, omega arith)
channels-run c (e ∷ es) f =
    let (g, h) = handle_lem c e f in
    let (g', h') = channels-run (handle c e) es g in (g', omega (arith, h, h', views_cons e es))
  where
    views_cons : (e : Event) (es : List Event) → views (e ∷ es) ≡ views (e ∷ []) + views es
    views_cons shown es = omega arith
    views_cons (hidden _) es = omega arith
    views_cons (broken _) es = omega arith
    views_cons timer es = omega arith
