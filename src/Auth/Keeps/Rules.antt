-- ===== src/Auth/Keeps/Rules.antt =====
-- Properties of the tables that actions keep, whether they return or raise, and properties that an
-- action that returns has brought about, with a rule for each way that the handlers are put together.
use flipradar.Base.{◌≡◌, refl, Bool, true, false, Option, if◌then◌else◌}
use flipradar.Auth.Rows.{Database}
use flipradar.Auth.Platform.{Platform, Mail}
use flipradar.Auth.Session.{
  Action, World, Result, ok, err, Error, http, duplicate, integrity, email_delivery,
  pending_rollback, multiple_results, pure, raise, or_raise, unless_refused, query, after_duplicate,
  on_duplicate, ◌>>=◌, raise_if, write, insert_unless, clock, commit, random, send,
}

-- The property holds of what the session sees and of what is committed.
pub record Holds (Q : Database → Type 0) (w : World) : Type 0 where
  pub in_db : Q w.db
  pub in_saved : Q w.saved

-- What the session sees keeps the property by itself; what is committed keeps it if both have it.
pub record Keeps {A : Type 0} (Q : Database → Type 0) (m : Action A) : Type 0 where
  pub at_db : (w : World) → Q w.db → Q (m w).1.db
  pub at_saved : (w : World) → Holds Q w → Q (m w).1.saved

pub record Makes {A : Type 0} (Q : Database → Type 0) (m : Action A) : Type 0 where
  pub at : (w : World) (a : A) → (m w).0 ≡ ok a → Q (m w).1.db

-- An action that leaves both databases alone.
quiet :
    {A : Type 0} (Q : Database → Type 0) (m : Action A)
    → ((w : World) → (m w).1.db ≡ w.db)
    → ((w : World) → (m w).1.saved ≡ w.saved)
    → Keeps Q m
quiet Q m e f = record { at_db = λ w h. rw (e w) h; at_saved = λ w h. rw (f w) h.in_saved }

pub Holds-Keeps :
    {A : Type 0} (Q : Database → Type 0) {m : Action A} (w : World)
    → Keeps Q m
    → Holds Q w
    → Holds Q (m w).1
Holds-Keeps Q w k h = record { in_db = k.at_db w h.in_db; in_saved = k.at_saved w h }

module _ {A : Type 0} (Q : Database → Type 0) where
  pub Keeps-pure : (a : A) → Keeps Q (pure a)
  Keeps-pure a = quiet Q (pure a) (λ w. refl) (λ w. refl)

  pub Keeps-raise : (e : Error) → Keeps Q (raise {A = A} e)
  Keeps-raise e = quiet Q (raise {A = A} e) (λ w. refl) (λ w. refl)

  pub Keeps-or_raise : (o : Option A) (e : Error) → Keeps Q (or_raise o e)
  Keeps-or_raise o e = quiet Q (or_raise o e) (λ w. refl) (λ w. refl)

  pub Keeps-unless_refused :
      (q : A → Bool) (o : Option A) (e : Error) → Keeps Q (unless_refused q o e)
  Keeps-unless_refused q o e = quiet Q (unless_refused q o e) (λ w. refl) (λ w. refl)

  pub Keeps-query : (f : Database → A) → Keeps Q (query f)
  Keeps-query f = quiet Q (query f) (λ w. refl) (λ w. refl)

  pub bound_db :
      {B : Type 0} (f : A → Action B) (r : Result A × World)
      → ((a : A) → Keeps Q (f a))
      → Q r.1.db
      → Q (elim r.0 as (λ _. Result B × World) [ ok a ↦ f a r.1 | err e ↦ raise e r.1 ]).1.db
  bound_db f (ok a, w) k h = (k a).at_db w h
  bound_db f (err e, w) k h = h

  bound_saved :
      {B : Type 0} (f : A → Action B) (r : Result A × World)
      → ((a : A) → Keeps Q (f a))
      → Holds Q r.1
      → Q (elim r.0 as (λ _. Result B × World) [ ok a ↦ f a r.1 | err e ↦ raise e r.1 ]).1.saved
  bound_saved f (ok a, w) k h = (k a).at_saved w h
  bound_saved f (err e, w) k h = h.in_saved

  pub Keeps-bind :
      {B : Type 0} {m : Action A} {f : A → Action B}
      → Keeps Q m
      → ((a : A) → Keeps Q (f a))
      → Keeps Q (m >>= f)
  Keeps-bind {m = m} {f = f} k l = record {
    at_db = λ w h. bound_db f (m w) l (k.at_db w h);
    at_saved = λ w h. bound_saved f (m w) l (Holds-Keeps Q w k h);
  }

  pub Keeps-if : (b : Bool) {m n : Action A} → Keeps Q m → Keeps Q n → Keeps Q (if b then m else n)
  Keeps-if true k l = k
  Keeps-if false k l = l

  handled_db :
      (n : Action A) (r : Result A × World) → Keeps Q n → Q r.1.db → Q (after_duplicate n r).1.db
  handled_db n (err duplicate, w) l h = l.at_db w h
  handled_db n (err (http s d), w) l h = h
  handled_db n (err integrity, w) l h = h
  handled_db n (err email_delivery, w) l h = h
  handled_db n (err pending_rollback, w) l h = h
  handled_db n (err multiple_results, w) l h = h
  handled_db n (ok a, w) l h = h

  handled_saved :
      (n : Action A) (r : Result A × World)
      → Keeps Q n
      → Holds Q r.1
      → Q (after_duplicate n r).1.saved
  handled_saved n (err duplicate, w) l h = l.at_saved w h
  handled_saved n (err (http s d), w) l h = h.in_saved
  handled_saved n (err integrity, w) l h = h.in_saved
  handled_saved n (err email_delivery, w) l h = h.in_saved
  handled_saved n (err pending_rollback, w) l h = h.in_saved
  handled_saved n (err multiple_results, w) l h = h.in_saved
  handled_saved n (ok a, w) l h = h.in_saved

  pub Keeps-on_duplicate : {m n : Action A} → Keeps Q m → Keeps Q n → Keeps Q (on_duplicate m n)
  Keeps-on_duplicate {m = m} {n = n} k l = record {
    at_db = λ w h. handled_db n (m w) l (k.at_db w h);
    at_saved = λ w h. handled_saved n (m w) l (Holds-Keeps Q w k h);
  }

pub Keeps-raise_if : (Q : Database → Type 0) (c : Bool) (e : Error) → Keeps Q (raise_if c e)
Keeps-raise_if Q c e = quiet Q (raise_if c e) (λ w. refl) (λ w. refl)

pub Keeps-clock : (Q : Database → Type 0) → Keeps Q clock
Keeps-clock Q = quiet Q clock (λ w. refl) (λ w. refl)

pub Keeps-random : (Q : Database → Type 0) (p : Platform) → Keeps Q (random p)
Keeps-random Q p = quiet Q (random p) (λ w. refl) (λ w. refl)

pub Keeps-send : (Q : Database → Type 0) (p : Platform) (m : Mail) → Keeps Q (send p m)
Keeps-send Q p m = quiet Q (send p m) (λ w. refl) (λ w. refl)

either :
    {A : Type 0} (P : World → Type 0) (c : Bool) (r s : Result A × World)
    → P r.1
    → P s.1
    → P (if◌then◌else◌ {A = Result A × World} c r s).1
either P true r s h k = h
either P false r s h k = k

pub Keeps-write :
    (Q : Database → Type 0) (f : Database → Database)
    → ((d : Database) → Q d → Q (f d))
    → Keeps Q (write f)
Keeps-write Q f k = record {
  at_db = λ w h. either (λ v. Q v.db) w.failed _ _ h (k w.db h);
  at_saved = λ w h. either (λ v. Q v.saved) w.failed _ _ h.in_saved h.in_saved;
}

pub Keeps-insert_unless :
    (Q : Database → Type 0) (e : Error) (c : Database → Bool) (f : Database → Database)
    → ((d : Database) → Q d → Q (f d))
    → Keeps Q (insert_unless e c f)
Keeps-insert_unless Q e c f k = record {
  at_db =
      λ w h. either (λ v. Q v.db) w.failed _ _ h (either (λ v. Q v.db) (c w.db) _ _ h (k w.db h));
  at_saved = λ w h.
      either (λ v. Q v.saved) w.failed _ _ h.in_saved
        (either (λ v. Q v.saved) (c w.db) _ _ h.in_saved h.in_saved);
}

pub Keeps-commit : (Q : Database → Type 0) → Keeps Q commit
Keeps-commit Q = record {
  at_db = λ w h. either (λ v. Q v.db) w.failed _ _ h h;
  at_saved = λ w h. either (λ v. Q v.saved) w.failed _ _ h.in_saved h.in_db;
}

pub ruleset keeps_rules = (
  Keeps-pure, Keeps-raise, Keeps-or_raise, Keeps-unless_refused, Keeps-query, Keeps-bind, Keeps-if,
  Keeps-on_duplicate, Keeps-raise_if, Keeps-clock, Keeps-random, Keeps-send, Keeps-commit,
)
