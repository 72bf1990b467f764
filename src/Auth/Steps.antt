-- ===== src/Auth/Steps.antt =====
-- How an action runs in a session that has not failed: one equation for each way that handlers are
-- put together.
use flipradar.Auth.Rows.{Database}
use flipradar.Auth.Session.{
  Action, Error, World, ok, write, ◌>>=◌, query, insert_unless, Result, err, pending_rollback,
  raise,
}
use flipradar.Base.{ap, Bool, ◌≡◌, false, if◌then◌else◌, true, ◌∙◌}

module _ {A B : Type 0} where
  pub step :
      (m : Action A) (f : A → Action B) (w v : World) (a : A)
      → m w ≡ (ok a, v)
      → (m >>= f) w ≡ f a v
  step m f w v a e =
      ap
        (λ (r : Result A × World). elim r.0 as (λ _. Result B × World) [
          | ok a ↦ f a r.1
          | err x ↦ raise x r.1
        ])
        e

  pub query_step :
      (g : Database → A) (f : A → Action B) (w : World)
      → w.failed ≡ false
      → (query g >>= f) w ≡ f (g w.db) w
  query_step g f w clean =
      step (query g) f w w (g w.db)
        (ap (λ b. (if b then err pending_rollback else ok (g w.db), w)) clean)

module _ {B : Type 0} where
  pub write_step :
      (g : Database → Database) (f : Unit {0} → Action B) (w : World)
      → w.failed ≡ false
      → (write g >>= f) w ≡ f tt (record w { db = g w.db })
  write_step g f w clean =
      step (write g) f w (record w { db = g w.db }) tt
        (ap
          (λ b.
            if◌then◌else◌ {A = Result (Unit {0}) × World} b (err pending_rollback, w)
              (ok tt, record w { db = g w.db }))
          clean)

  pub insert_step :
      (x : Error) (c : Database → Bool) (g : Database → Database) (f : Unit {0} → Action B)
      (w : World)
      → w.failed ≡ false
      → c w.db ≡ false
      → (insert_unless x c g >>= f) w ≡ f tt (record w { db = g w.db })
  insert_step x c g f w clean fresh =
      let R : Type 0 = Result (Unit {0}) × World in
      let done : R = (ok tt, record w { db = g w.db }) in
      let clash : Bool → R =
        λ b. if◌then◌else◌ {A = R} b (err x, record w { failed = true }) done in
      step (insert_unless x c g) f w (record w { db = g w.db }) tt
        (ap (λ b. if◌then◌else◌ {A = R} b (err pending_rollback, w) (clash (c w.db))) clean
          ∙ ap clash fresh)
