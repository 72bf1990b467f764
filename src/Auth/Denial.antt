-- ===== src/Auth/Denial.antt =====
-- A refresh token whose session is revoked is refused, as the code goes.
use flipradar.Auth.Steps.{query_step}
use flipradar.Auth.Tokens.{decode_refresh_token, decode_token}
use flipradar.Auth.Stores.Users.{get_user_by_id, user_is}
use flipradar.Auth.Refused.{Closed, is_closed}
use flipradar.Auth.Platform.{Platform, Claims}
use flipradar.Auth.Rows.{Database, User, RefreshTokenSession, Reason, refresh, rotation}
use flipradar.Auth.Stores.Sessions.{
  session_has_hash, get_refresh_token_session_by_hash, is_refresh_token_blacklisted,
  revoke_refresh_token_session, revoked_has_hash,
}
use flipradar.Auth.Sessions.{
  refresh_auth_tokens, revoke_refresh_token, already_revoked, revoke_session_of_token,
  revoke_live_token, unusable, token_response,
}
use flipradar.Base.{
  ◌≡◌, refl, Bool, true, false, Option, none, some, ℕ, is_marked, arith, find, is_some, ◌||◌, ap,
  ◌∙◌, if◌then◌else◌,
}
use flipradar.Auth.Session.{
  ok, err, http, ◌>>=◌, ◌>>◌, World, Detail, query, pure, invalid_refresh_token, Action, raise_if,
  not_authenticated, Error, Result, raise, or_raise, clock,
}

module _ {A B : Type 0} (w : World) where
  denies_or_raise :
      (o : Option A) (e : Error) (f : A → Action B)
      → ((a : A) → (f a w).0 ≡ err e)
      → ((or_raise o e >>= f) w).0 ≡ err e
  denies_or_raise none e f k = refl
  denies_or_raise (some a) e f k = k a

  denies_query :
      (g : Database → A) (e : Error) (f : A → Action B)
      → w.failed ≡ false
      → (f (g w.db) w).0 ≡ err e
      → ((query g >>= f) w).0 ≡ err e
  denies_query g e f clean k = ap (λ r. r.0) (query_step g f w clean) ∙ k

  stopped :
      (r : Result A × World) (e : Error) (f : A → Action B)
      → r.0 ≡ err e
      → (elim r.0 as (λ _. Result B × World) [ ok a ↦ f a r.1 | err x ↦ raise x r.1 ]).0 ≡ err e
  stopped (ok a, v) e f k = cc
  stopped (err x, v) e f k =
      ap (λ (q : Result A). elim q as (λ _. Result B) [ ok a ↦ err e | err y ↦ err y ]) k

  denies_first :
      (m : Action A) (e : Error) (f : A → Action B) → (m w).0 ≡ err e → ((m >>= f) w).0 ≡ err e
  denies_first m e f k = stopped (m w) e f k

unusable_row :
    (b : Bool) (e : Error) (m : Action (Unit {0})) (w : World)
    → b ≡ true
    → ((raise_if b e >>= λ _. m) w).0 ≡ err e
unusable_row true e m w k = refl
unusable_row false e m w k = cc

is_unusable : (a b c : Bool) → b ≡ true → (a || b || c) ≡ true
is_unusable a b c k = ground arith

-- A session that is revoked, at the place where it is tested.
revoked_row :
    (p : Platform) (user : User) (now : ℕ) (reason : Reason) (o : Option RefreshTokenSession)
    (w : World)
    → is_marked is_closed o ≡ true
    → (revoke_session_of_token p user now reason o w).0 ≡ err (http 401 invalid_refresh_token)
unfolding revoke_session_of_token
revoked_row p user now reason none w k = cc
revoked_row p user now reason (some s) w k =
    unusable_row (unusable user.id now s) (http 401 invalid_refresh_token)
      (revoke_refresh_token_session s now reason >> pure tt) w
      (is_unusable _ (is_some s.revoked_at) _ k)

-- The action ends in the 401 of a refresh token.
record Denies (m : Action User) (w : World) : Type 0 where
  denied : (m w).0 ≡ err (http 401 invalid_refresh_token)

module _ (p : Platform) (w : World) where
  Denies-or_raise :
      {A : Type 0} (o : Option A) (f : A → Action User)
      → ((a : A) → Denies (f a) w)
      → Denies (or_raise o (http 401 invalid_refresh_token) >>= f) w
  Denies-or_raise o f k = record { denied = denies_or_raise w o _ f (λ a. (k a).denied) }

  Denies-user :
      (i : ℕ) (f : Option User → Action User)
      → w.failed ≡ false
      → Denies (f (find (user_is i) w.db.users)) w
      → Denies (get_user_by_id i >>= f) w
  unfolding get_user_by_id
  Denies-user i f clean k = record {
    denied = denies_query w (λ d. find (user_is i) d.users) _ f clean k.denied;
  }

  Denies-clock : (f : ℕ → Action User) → Denies (f w.now) w → Denies (clock >>= f) w
  Denies-clock f k = record { denied = k.denied }

  Denies-session :
      (user : User) (h : ℕ) (f : Unit {0} → Action User)
      → w.failed ≡ false
      → Closed h w.db
      → Denies
          (get_refresh_token_session_by_hash h >>= λ o.
            revoke_session_of_token p user w.now rotation o >>= f)
          w
  unfolding get_refresh_token_session_by_hash
  Denies-session user h f clean k =
      let o : Option RefreshTokenSession = find (session_has_hash h) w.db.sessions in
      let e : Error = http 401 invalid_refresh_token in
      let row =
        denies_first w (revoke_session_of_token p user w.now rotation o) e f
          (revoked_row p user w.now rotation o w k) in
      record {
        denied =
            denies_query w (λ d. find (session_has_hash h) d.sessions) e
              (λ o. revoke_session_of_token p user w.now rotation o >>= f) clean row;
      }

  live_token-Denies :
      (h : ℕ) (c : Claims)
      → w.failed ≡ false
      → Closed h w.db
      → Denies (revoke_live_token p h c rotation false) w
  unfolding revoke_live_token
  live_token-Denies h c clean k =
      search (Denies-or_raise, Denies-user, Denies-clock, Denies-session, clean, k) depth 20

module _ (p : Platform) (t : ℕ) (c : Claims) (w : World) (clean : w.failed ≡ false) where
  revoked_token_denied :
      Closed (p.sha256 t) w.db
      → (revoke_refresh_token p t c rotation false w).0 ≡ err (http 401 invalid_refresh_token)
  unfolding revoke_refresh_token already_revoked is_refresh_token_blacklisted
  revoked_token_denied k =
      let h : ℕ = p.sha256 t in
      denies_query w (λ d. is_some (find (revoked_has_hash h) d.blacklist))
        (http 401 invalid_refresh_token)
        (λ b. if b then already_revoked p c false else revoke_live_token p h c rotation false) clean
        (listed_or_not (is_some (find (revoked_has_hash h) w.db.blacklist)) k)
    where
      listed_or_not :
          (b : Bool)
          → Closed (p.sha256 t) w.db
          → ((if b
                then already_revoked p c false
                else revoke_live_token p (p.sha256 t) c rotation false)
              w).0
            ≡ err (http 401 invalid_refresh_token)
      listed_or_not true k = refl
      listed_or_not false k = (live_token-Denies p w (p.sha256 t) c clean k).denied

-- A refresh token whose session is revoked is refused.
pub session_refused :
    (p : Platform) (t : ℕ) (w : World)
    → w.failed ≡ false
    → Closed (p.sha256 t) w.db
    → (d : Detail) × ((refresh_auth_tokens p t w).0 ≡ err (http 401 d))
unfolding refresh_auth_tokens decode_refresh_token
session_refused p t w clean k = decoded (decode_token p w.now t refresh)
  where
    decoded :
        (o : Option Claims)
        → (d : Detail) × (((or_raise o (http 401 not_authenticated) >>= λ c.
                revoke_refresh_token p t c rotation false >>= token_response p)
              w).0
            ≡ err (http 401 d))
    decoded none = (not_authenticated, refl)
    decoded (some c) = (
      invalid_refresh_token,
      denies_first w (revoke_refresh_token p t c rotation false) (http 401 invalid_refresh_token)
          (token_response p) (revoked_token_denied p t c w clean k),
    )
