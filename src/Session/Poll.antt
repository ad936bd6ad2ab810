-- ===== src/Session/Poll.antt =====
-- The state of qBittorrent is asked for at regular times: the effect of `App` on its user, in
-- nasweb/frontend/src/js/app.js. An interval has an id of its own.
use ollozuna_nas.Prelude.{
  ℕ, suc, Bool, true, false, not, List, [], ◌∷◌, ◌++◌, eqb, eqb_iff, filterb, Option, none, some,
  ◌≡◌, refl, if◌then◌else◌, ap,
}
use ollozuna_nas.Api.Endpoints.{Call, qbt_status}

-- The intervals that run, the one that the effect has started for the present user, if there is
-- one, and the next id.
pub record Poll : Type 0 where
  pub live : List ℕ
  pub current : Option ℕ
  pub next_id : ℕ

abbrev pub initial : Poll
initial = record { live = []; current = none; next_id = 0 }

-- The clean-up of the effect.
unfoldable pub clean : Poll → Option ℕ → Poll
clean p none = p
clean p (some id) = record p { live = filterb (λ i. not (eqb i id)) p.live; current = none }

-- The effect runs again when `user` has another value: the old interval is cleared, and if there is a user
-- the state is asked for and an interval starts.
unfoldable pub user_changes : Poll → Bool → Poll × List Call
unfolding clean
user_changes p false = (clean p p.current, [])
user_changes p true =
    let q = clean p p.current in
    (
      record q {
        live = q.live ++ (q.next_id ∷ []);
        current = some q.next_id;
        next_id = suc q.next_id;
      },
      qbt_status ∷ [],
    )

-- Eight seconds pass: each interval that runs asks.
asks : List ℕ → List Call
asks [] = []
asks (_ ∷ ids) = qbt_status ∷ asks ids

unfoldable pub tick : Poll → List Call
unfolding asks
tick p = asks p.live

unfoldable pub run : Poll → List Bool → Poll
unfolding user_changes
run p [] = p
run p (user ∷ rest) = run (user_changes p user).0 rest

-- Whether the last of the users is one.
unfoldable pub last_is_user : Bool → List Bool → Bool
last_is_user b [] = b
last_is_user _ (b ∷ bs) = last_is_user b bs

-- One interval runs if there is a user, and none otherwise.
Fits : Poll → Bool → Type 0
Fits p true = (id : ℕ) × (p.live ≡ id ∷ []) × (p.current ≡ some id)
Fits p false = (p.live ≡ []) × (p.current ≡ none)

cleaned :
    (p : Poll) (b : Bool)
    → Fits p b
    → ((clean p p.current).live ≡ []) × ((clean p p.current).current ≡ none)
unfolding Fits clean
cleaned p true (id, live, current) = rw (current, live, (eqb_iff id id).1 refl) (refl, refl)
cleaned p false (live, current) = rw current (live, refl)

changes-Fits : (p : Poll) (b user : Bool) → Fits p b → Fits (user_changes p user).0 user
unfolding Fits user_changes
changes-Fits p b false f = cleaned p b f
changes-Fits p b true f =
    let q = clean p p.current in
    (q.next_id, ap (λ l. l ++ (q.next_id ∷ [])) (cleaned p b f).0, refl)

run-Fits :
    (p : Poll) (b : Bool) (users : List Bool) → Fits p b → Fits (run p users) (last_is_user b users)
unfolding run last_is_user
run-Fits p b [] f = f
run-Fits p b (u ∷ users) f = run-Fits (user_changes p u).0 u users (changes-Fits p b u f)

asks_of_fit : (p : Poll) (b : Bool) → Fits p b → tick p ≡ (if b then qbt_status ∷ [] else [])
unfolding Fits tick asks
asks_of_fit p true (id, live, _) = rw live refl
asks_of_fit p false (live, _) = rw live refl

-- However often users sign in and out, when eight seconds pass the state of qBittorrent is asked for
-- once if the last of them is signed in, and not at all otherwise.
pub polls_once :
    (users : List Bool)
    → tick (run initial users) ≡ (if last_is_user false users then qbt_status ∷ [] else [])
unfolding Fits
polls_once users =
    asks_of_fit (run initial users) (last_is_user false users)
      (run-Fits initial false users (refl, refl))
