-- ===== src/Auth/Keeps/Requests.antt =====
-- What a request brings about, and what it keeps, through its commit or rollback.
use flipradar.Base.{◌≡◌, refl, Bool, true, false, if◌then◌else◌, Bool-cases, inl, inr}
use flipradar.Auth.Rows.{Database}
use flipradar.Auth.Session.{
  duplicate, integrity, email_delivery, pending_rollback, multiple_results, http, after_duplicate,
  on_duplicate, Error, Action, World, Result, ok, err, pure, raise, ◌>>=◌, ◌>>◌, commit,
  end_request, get_db_session,
}
use flipradar.Auth.Keeps.Rules.{
  Holds, Keeps, Makes, Holds-Keeps, Keeps-bind, Keeps-pure, Keeps-commit,
}

ended :
    {A : Type 0} (Q : Database → Type 0) (r : Result A × World)
    → Holds Q r.1
    → Holds Q (end_request r).1
ended Q (ok a, w) h = h
ended Q (err e, w) h = record { in_db = h.in_saved; in_saved = h.in_saved }

-- A request keeps what its handler keeps, whether it is committed or rolled back.
pub Holds-get_db_session :
    {A : Type 0} (Q : Database → Type 0) {m : Action A} (w : World)
    → Keeps Q m
    → Holds Q w
    → Holds Q (get_db_session m w).1
unfolding get_db_session
Holds-get_db_session Q {m = m} w k h =
    ended Q ((m >>= λ a. commit >> pure a) w)
      (Holds-Keeps Q w (Keeps-bind Q k λ a. Keeps-bind Q (Keeps-commit Q) λ _. Keeps-pure Q a) h)

module _ {A : Type 0} (Q : Database → Type 0) where
  made_last :
      {B : Type 0} (f : A → Action B) (r : Result A × World) (b : B)
      → ((a : A) → Makes Q (f a))
      → (elim r.0 as (λ _. Result B × World) [ ok a ↦ f a r.1 | err e ↦ raise e r.1 ]).0 ≡ ok b
      → Q (elim r.0 as (λ _. Result B × World) [ ok a ↦ f a r.1 | err e ↦ raise e r.1 ]).1.db
  made_last f (ok a, w) b k e = (k a).at w b e
  made_last f (err x, w) b k e = cc

  -- What the rest brings about.
  pub Makes-last :
      {B : Type 0} (m : Action A) {f : A → Action B} → ((a : A) → Makes Q (f a)) → Makes Q (m >>= f)
  Makes-last m {f = f} k = record { at = λ w b e. made_last f (m w) b k e }

  made_first :
      {B : Type 0} (f : A → Action B) (r : Result A × World) (b : B)
      → ((a : A) → r.0 ≡ ok a → Q r.1.db)
      → ((a : A) → Keeps Q (f a))
      → (elim r.0 as (λ _. Result B × World) [ ok a ↦ f a r.1 | err e ↦ raise e r.1 ]).0 ≡ ok b
      → Q (elim r.0 as (λ _. Result B × World) [ ok a ↦ f a r.1 | err e ↦ raise e r.1 ]).1.db
  made_first f (ok a, w) b k l e = (l a).at_db w (k a refl)
  made_first f (err x, w) b k l e = cc

  -- What the first part brings about and the rest keeps.
  pub Makes-first :
      {B : Type 0} {m : Action A} {f : A → Action B}
      → Makes Q m
      → ((a : A) → Keeps Q (f a))
      → Makes Q (m >>= f)
  Makes-first {m = m} {f = f} k l = record { at = λ w b e. made_first f (m w) b (k.at w) l e }

  pub Makes-raise : (e : Error) → Makes {A = A} Q (raise e)
  Makes-raise e = record { at = λ w a h. cc }

  pub Makes-if : (b : Bool) {m n : Action A} → Makes Q m → Makes Q n → Makes Q (if b then m else n)
  Makes-if true k l = k
  Makes-if false k l = l

  ended_ok :
      (m : Action A) (r : Result A × World) (a : A)
      → ((b : A) → r.0 ≡ ok b → Q r.1.db)
      → (end_request (elim r.0 as (λ _. Result A × World) [
        | ok b ↦ (commit >> pure b) r.1
        | err e ↦ raise e r.1
      ])).0
        ≡ ok a
      → Holds Q
          (end_request (elim r.0 as (λ _. Result A × World) [
            | ok b ↦ (commit >> pure b) r.1
            | err e ↦ raise e r.1
          ])).1
  ended_ok m (ok b, w) a k e = elim (Bool-cases w.failed) [
    | inl dirty ↦ cc (rw dirty at e)
    | inr clean ↦ rw clean (record { in_db = k b refl; in_saved = k b refl })
  ]
  ended_ok m (err x, w) a k e = cc

  -- A request that returns has committed what its handler brought about.
  pub Holds-made :
      {m : Action A} (w : World) (a : A)
      → Makes Q m
      → (get_db_session m w).0 ≡ ok a
      → Holds Q (get_db_session m w).1
  unfolding get_db_session
  Holds-made {m = m} w a k e = ended_ok m (m w) a (k.at w) e

module _ {A : Type 0} where
  handled_error :
      (r : Result A × World) (x : Error)
      → r.0 ≡ err x
      → (end_request (elim r.0 as (λ _. Result A × World) [
        | ok b ↦ (commit >> pure b) r.1
        | err e ↦ raise e r.1
      ])).0
        ≡ err x
  handled_error (ok b, w) x e = cc
  handled_error (err y, w) x e = e

  -- An exception of the handler is the request's.
  pub get_db_session_error :
      (m : Action A) (w : World) (x : Error) → (m w).0 ≡ err x → (get_db_session m w).0 ≡ err x
  unfolding get_db_session
  get_db_session_error m w x e = handled_error (m w) x e

rolled_back :
    {A : Type 0} (Q : Database → Type 0) (r : Result A × World) (x : Error)
    → r.0 ≡ err x
    → Q r.1.saved
    → Holds Q
        (end_request (elim r.0 as (λ _. Result A × World) [
          | ok b ↦ (commit >> pure b) r.1
          | err e ↦ raise e r.1
        ])).1
rolled_back Q (ok b, w) x e h = cc
rolled_back Q (err y, w) x e h = record { in_db = h; in_saved = h }

-- After an exception the session is back at what is committed.
pub get_db_session_rolls_back :
    {A : Type 0} (Q : Database → Type 0) (m : Action A) (w : World) (x : Error)
    → (m w).0 ≡ err x
    → Q (m w).1.saved
    → Holds Q (get_db_session m w).1
unfolding get_db_session
get_db_session_rolls_back Q m w x = rolled_back Q (m w) x

-- A request leaves a session that is usable.
ended_clean :
    {A : Type 0} (r : Result A × World)
    → (end_request (elim r.0 as (λ _. Result A × World) [
      | ok b ↦ (commit >> pure b) r.1
      | err e ↦ raise e r.1
    ])).1.failed
      ≡ false
ended_clean (err e, w) = refl
ended_clean (ok b, w) = elim (Bool-cases w.failed) [ inl dirty ↦ rw dirty | inr clean ↦ rw clean ]

pub get_db_session_clean :
    {A : Type 0} (m : Action A) (w : World) → (get_db_session m w).1.failed ≡ false
unfolding get_db_session
get_db_session_clean m w = ended_clean (m w)

module _ {A : Type 0} (Q : Database → Type 0) where
  made_handled :
      (n : Action A) (r : Result A × World) (a : A)
      → ((b : A) → r.0 ≡ ok b → Q r.1.db)
      → Makes Q n
      → (after_duplicate n r).0 ≡ ok a
      → Q (after_duplicate n r).1.db
  made_handled n (err duplicate, w) a k l e = l.at w a e
  made_handled n (err (http s d), w) a k l e = cc
  made_handled n (err integrity, w) a k l e = cc
  made_handled n (err email_delivery, w) a k l e = cc
  made_handled n (err pending_rollback, w) a k l e = cc
  made_handled n (err multiple_results, w) a k l e = cc
  made_handled n (ok b, w) a k l e = k b refl

  pub Makes-on_duplicate : {m n : Action A} → Makes Q m → Makes Q n → Makes Q (on_duplicate m n)
  Makes-on_duplicate {m = m} {n = n} k l = record {
    at = λ w a e. made_handled n (m w) a (k.at w) l e;
  }

pub ruleset makes_rules = (Makes-last, Makes-first, Makes-if, Makes-raise, Makes-on_duplicate)
