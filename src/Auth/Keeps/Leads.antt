-- ===== src/Auth/Keeps/Leads.antt =====
-- From one property of the tables to another: an action that starts with the first and returns ends
-- with the second.
use flipradar.Base.{◌≡◌, refl, Bool, true, false, if◌then◌else◌}
use flipradar.Auth.Rows.{Database}
use flipradar.Auth.Session.{
  Action, World, Result, ok, err, raise, ◌>>=◌, write, pending_rollback, Error, insert_unless,
}
use flipradar.Auth.Keeps.Rules.{Keeps, Makes}

pub record Leads {A : Type 0} (Q R : Database → Type 0) (m : Action A) : Type 0 where
  pub at : (w : World) (a : A) → Q w.db → (m w).0 ≡ ok a → R (m w).1.db

module _ {A : Type 0} (Q R : Database → Type 0) where
  led_first :
      {B : Type 0} (f : A → Action B) (r : Result A × World) (b : B)
      → ((a : A) → r.0 ≡ ok a → R r.1.db)
      → ((a : A) → Keeps R (f a))
      → (elim r.0 as (λ _. Result B × World) [ ok a ↦ f a r.1 | err e ↦ raise e r.1 ]).0 ≡ ok b
      → R (elim r.0 as (λ _. Result B × World) [ ok a ↦ f a r.1 | err e ↦ raise e r.1 ]).1.db
  led_first f (ok a, w) b k l e = (l a).at_db w (k a refl)
  led_first f (err x, w) b k l e = cc

  -- The first part gets there, and the rest stays there.
  pub Leads-first :
      {B : Type 0} {m : Action A} {f : A → Action B}
      → Leads Q R m
      → ((a : A) → Keeps R (f a))
      → Leads Q R (m >>= f)
  Leads-first {m = m} {f = f} k l = record {
    at = λ w b q e. led_first f (m w) b (λ a x. k.at w a q x) l e;
  }

  led_next :
      {B : Type 0} (f : A → Action B) (r : Result A × World) (b : B)
      → Q r.1.db
      → ((a : A) → Leads Q R (f a))
      → (elim r.0 as (λ _. Result B × World) [ ok a ↦ f a r.1 | err e ↦ raise e r.1 ]).0 ≡ ok b
      → R (elim r.0 as (λ _. Result B × World) [ ok a ↦ f a r.1 | err e ↦ raise e r.1 ]).1.db
  led_next f (ok a, w) b q l e = (l a).at w b q e
  led_next f (err x, w) b q l e = cc

  -- The first part stays, and the rest gets there.
  pub Leads-next :
      {B : Type 0} {m : Action A} {f : A → Action B}
      → Keeps Q m
      → ((a : A) → Leads Q R (f a))
      → Leads Q R (m >>= f)
  Leads-next {m = m} {f = f} k l = record { at = λ w b q e. led_next f (m w) b (k.at_db w q) l e }

module _ (Q R : Database → Type 0) where
  written :
      (f : Database → Database) (b : Bool) (w : World) (u : Unit {0})
      → Q w.db
      → ((d : Database) → Q d → R (f d))
      → let r : Result (Unit {0}) × World =
          if b then (err pending_rollback, w) else (ok tt, record w { db = f w.db }) in
        r.0 ≡ ok u → R r.1.db
  written f true w u q k e = cc
  written f false w u q k e = k w.db q

  pub Leads-write :
      (f : Database → Database) → ((d : Database) → Q d → R (f d)) → Leads Q R (write f)
  Leads-write f k = record { at = λ w u q e. written f w.failed w u q k e }

  inserted :
      (f : Database → Database) (x : Error) (b c : Bool) (w : World) (u : Unit {0})
      → Q w.db
      → ((d : Database) → Q d → R (f d))
      → let r : Result (Unit {0}) × World =
          if b
          then (err pending_rollback, w)
          else if c
          then (err x, record w { failed = true })
          else (ok tt, record w { db = f w.db }) in
        r.0 ≡ ok u → R r.1.db
  inserted f x true c w u q k e = cc
  inserted f x false true w u q k e = cc
  inserted f x false false w u q k e = k w.db q

  pub Leads-insert_unless :
      (x : Error) (c : Database → Bool) (f : Database → Database)
      → ((d : Database) → Q d → R (f d))
      → Leads Q R (insert_unless x c f)
  Leads-insert_unless x c f k = record { at = λ w u q e. inserted f x w.failed (c w.db) w u q k e }

-- What a change of the tables brings about in all of them.
pub Makes-write :
    (R : Database → Type 0) (f : Database → Database)
    → ((d : Database) → R (f d))
    → Makes R (write f)
Makes-write R f k = record {
  at = λ w u e. (Leads-write (λ _. Unit {0}) R f (λ d _. k d)).at w u tt e;
}

module _ {A B : Type 0} (Q R : Database → Type 0) where
  made_then :
      (f : A → Action B) (r : Result A × World) (b : B)
      → ((a : A) → r.0 ≡ ok a → Q r.1.db)
      → ((a : A) → Leads Q R (f a))
      → (elim r.0 as (λ _. Result B × World) [ ok a ↦ f a r.1 | err e ↦ raise e r.1 ]).0 ≡ ok b
      → R (elim r.0 as (λ _. Result B × World) [ ok a ↦ f a r.1 | err e ↦ raise e r.1 ]).1.db
  made_then f (ok a, w) b k l e = (l a).at w b (k a refl) e
  made_then f (err x, w) b k l e = cc

  -- What the rest makes of what the first part brings about.
  pub Makes-then :
      {m : Action A} {f : A → Action B}
      → Makes Q m
      → ((a : A) → Leads Q R (f a))
      → Makes R (m >>= f)
  Makes-then {m = m} {f = f} k l = record { at = λ w b e. made_then f (m w) b (k.at w) l e }

pub ruleset leads_rules = (Leads-first, Leads-next)
