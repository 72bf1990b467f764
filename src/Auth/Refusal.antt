-- ===== src/Auth/Refusal.antt =====
-- Requests that are refused as bad ones.
use flipradar.Auth.Stores.Mfa.{is_mfa_token_blacklisted}
use flipradar.Base.{
  ℕ, ◌≡◌, refl, Bool, true, false, ◌||◌, Option, none, some, arith, find, is_marked, if◌then◌else◌,
}
use flipradar.Auth.Rows.{AccountToken, Purpose}
use flipradar.Auth.Session.{
  Action, World, Result, ok, err, http, Detail, unless_refused, ◌>>=◌, raise, pending_rollback,
  or_raise, clock, raise_if, pure,
}
use flipradar.Auth.Stores.AccountTokens.{has_hash, get_account_token_by_hash}
use flipradar.Auth.Recovery.{assert_account_token_valid, spent}
use flipradar.Auth.Refused.{Spent, is_spent, MfaListed}

-- The request is refused as a bad one.
pub record Refuses {A : Type 0} (m : Action A) (w : World) : Type 0 where
  pub detail : Detail
  pub refused : (m w).0 ≡ err (http 400 detail)

module _ {A B : Type 0} (w : World) where
  pub or_raise-Refuses :
      (o : Option A) (d : Detail) (f : A → Action B)
      → ((a : A) → Refuses (f a) w)
      → Refuses (or_raise o (http 400 d) >>= f) w
  or_raise-Refuses none d f k = record { detail = d; refused = refl }
  or_raise-Refuses (some a) d f k = k a

  row_or_refused :
      (b : Bool) (a : A) (d : Detail) (f : A → Action B)
      → Refuses (f a) w
      → (e : Detail) × ((elim (if b then err (http 400 d) else ok a) as (λ _. Result B × World) [
        | ok a ↦ f a w
        | err x ↦ raise x w
      ]).0
          ≡ err (http 400 e))
  row_or_refused true a d f k = (d, refl)
  row_or_refused false a d f k = (k.detail, k.refused)

  pub unless_refused-Refuses :
      (q : A → Bool) (o : Option A) (d : Detail) (f : A → Action B)
      → ((a : A) → Refuses (f a) w)
      → Refuses (unless_refused q o (http 400 d) >>= f) w
  unless_refused-Refuses q none d f k = record { detail = d; refused = refl }
  unless_refused-Refuses q (some a) d f k =
      let (e, x) = row_or_refused (q a) a d f (k a) in record { detail = e; refused = x }

  refused_row :
      (b : Bool) (a : A) (d : Detail) (f : A → Action B)
      → b ≡ true
      → (elim (if b then err (http 400 d) else ok a) as (λ _. Result B × World) [
        | ok a ↦ f a w
        | err x ↦ raise x w
      ]).0
        ≡ err (http 400 d)
  refused_row true a d f k = refl
  refused_row false a d f k = cc

  refused_found :
      (q : A → Bool) (o : Option A) (d : Detail) (f : A → Action B)
      → is_marked q o ≡ true
      → ((unless_refused q o (http 400 d) >>= f) w).0 ≡ err (http 400 d)
  refused_found q none d f k = refl
  refused_found q (some a) d f k = refused_row (q a) a d f k

  queried :
      (b : Bool) (o : A) (d : Detail) (f : A → Action B)
      → b ≡ false
      → (f o w).0 ≡ err (http 400 d)
      → (elim (if b then err pending_rollback else ok o) as (λ _. Result B × World) [
        | ok o ↦ f o w
        | err x ↦ raise x w
      ]).0
        ≡ err (http 400 d)
  queried true o d f e k = cc
  queried false o d f e k = k

pub clock-Refuses :
    {B : Type 0} (w : World) (f : ℕ → Action B) → Refuses (f w.now) w → Refuses (clock >>= f) w
clock-Refuses w f k = record { detail = k.detail; refused = k.refused }

spent_is_refused :
    (i now : ℕ) (o : Option AccountToken)
    → is_marked is_spent o ≡ true
    → is_marked (spent i now) o ≡ true
spent_is_refused i now none h = h
spent_is_refused i now (some t) h = ground arith

-- The row of the hash is refused, as it is spent.
pub found_refused :
    {B : Type 0} (h : ℕ) (purpose : Purpose) (i : ℕ) (d : Detail) (f : AccountToken → Action B)
    (w : World)
    → w.failed ≡ false
    → Spent h purpose w.db
    → Refuses
        (get_account_token_by_hash h purpose >>= λ found.
          assert_account_token_valid found i w.now (http 400 d) >>= f)
        w
unfolding get_account_token_by_hash
found_refused h purpose i d f w clean k =
    let o : Option AccountToken = find (has_hash h purpose) w.db.account_tokens in
    record {
      detail = d;
      refused =
          queried w w.failed o d (λ o. unless_refused (spent i w.now) o (http 400 d) >>= f) clean
            (refused_found w (spent i w.now) o d f (spent_is_refused i w.now o k));
    }

-- A token on the blacklist is refused.
pub listed_refused :
    {B : Type 0} (h : ℕ) (b : Bool) (d : Detail) (f : Unit {0} → Action B) (w : World)
    → w.failed ≡ false
    → MfaListed h w.db
    → Refuses (is_mfa_token_blacklisted h >>= λ listed. raise_if (b || listed) (http 400 d) >>= f) w
unfolding is_mfa_token_blacklisted
listed_refused h b d f w clean k = record { detail = d; refused = ground arith }

pub read-Refuses :
    {A C B : Type 0} (w : World) (o : Option A) (d : Detail) (g : A → C) (f : C → Action B)
    → ((c : C) → Refuses (f c) w)
    → Refuses ((or_raise o (http 400 d) >>= λ a. pure (g a)) >>= f) w
read-Refuses w none d g f k = record { detail = d; refused = refl }
read-Refuses w (some a) d g f k = record { detail = (k (g a)).detail; refused = (k (g a)).refused }

pub ruleset refusal_rules = (
  read-Refuses, listed_refused, or_raise-Refuses, unless_refused-Refuses, clock-Refuses,
  found_refused,
)
