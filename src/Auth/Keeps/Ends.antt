-- ===== src/Auth/Keeps/Ends.antt =====
-- What an action brings about, unless it leaves a session that has failed, so that the commit at the
-- end of the request raises.
use flipradar.Auth.Keeps.Rules.{Holds}
use flipradar.Auth.Rows.{Database}
use flipradar.Base.{◌≡◌, refl, true, ◌⊎◌, inl, inr, Bool-cases}
use flipradar.Auth.Session.{
  ok, err, Action, get_db_session, Result, ◌>>=◌, World, raise, commit, pure, ◌>>◌, end_request,
}

pub record Ends {A : Type 0} (Q : Database → Type 0) (m : Action A) : Type 0 where
  pub at : (w : World) (a : A) → (m w).0 ≡ ok a → ((m w).1.failed ≡ true) ⊎ Q (m w).1.db

module _ {A : Type 0} (Q : Database → Type 0) where
  ended_last :
      {B : Type 0} (f : A → Action B) (r : Result A × World) (b : B)
      → ((a : A) → Ends Q (f a))
      → let s = elim r.0 as (λ _. Result B × World) [ ok a ↦ f a r.1 | err e ↦ raise e r.1 ] in
        s.0 ≡ ok b → (s.1.failed ≡ true) ⊎ Q s.1.db
  ended_last f (ok a, w) b k e = (k a).at w b e
  ended_last f (err x, w) b k e = cc

  pub Ends-last :
      {B : Type 0} (m : Action A) {f : A → Action B} → ((a : A) → Ends Q (f a)) → Ends Q (m >>= f)
  Ends-last m {f = f} k = record { at = λ w b e. ended_last f (m w) b k e }

  ended_pure :
      {B : Type 0} (g : A → B) (r : Result A × World) (b : B)
      → ((a : A) → r.0 ≡ ok a → (r.1.failed ≡ true) ⊎ Q r.1.db)
      → let s = elim r.0 as (λ _. Result B × World) [
        | ok a ↦ pure (g a) r.1
        | err e ↦ raise e r.1
      ] in
        s.0 ≡ ok b → (s.1.failed ≡ true) ⊎ Q s.1.db
  ended_pure g (ok a, w) b k e = k a refl
  ended_pure g (err x, w) b k e = cc

  pub Ends-pure :
      {B : Type 0} {m : Action A} (g : A → B) → Ends Q m → Ends Q (m >>= λ a. pure (g a))
  Ends-pure {m = m} g k = record { at = λ w b e. ended_pure g (m w) b (k.at w) e }

  committed :
      (m : Action A) (r : Result A × World) (a : A)
      → ((b : A) → r.0 ≡ ok b → (r.1.failed ≡ true) ⊎ Q r.1.db)
      → let s = elim r.0 as (λ _. Result A × World) [
        | ok b ↦ (commit >> pure b) r.1
        | err e ↦ raise e r.1
      ] in
        (end_request s).0 ≡ ok a → Holds Q (end_request s).1
  committed m (err x, w) a k e = cc
  committed m (ok b, w) a k e = elim (Bool-cases w.failed) [
    | inl dirty ↦ cc (rw dirty at e)
    | inr clean ↦ elim (k b refl) [
      | inl dirty ↦ cc
      | inr q ↦ rw clean (record { in_db = q; in_saved = q })
    ]
  ]

  pub Holds-ended_at :
      (m : Action A) (w : World) (a : A)
      → ((b : A) → (m w).0 ≡ ok b → ((m w).1.failed ≡ true) ⊎ Q (m w).1.db)
      → (get_db_session m w).0 ≡ ok a
      → Holds Q (get_db_session m w).1
  unfolding get_db_session
  Holds-ended_at m w a k e = committed m (m w) a k e

  -- A request that returns was committed, so that its session had not failed.
  pub Holds-ended :
      {m : Action A} (w : World) (a : A)
      → Ends Q m
      → (get_db_session m w).0 ≡ ok a
      → Holds Q (get_db_session m w).1
  unfolding get_db_session
  Holds-ended {m = m} w a k e = committed m (m w) a (k.at w) e
