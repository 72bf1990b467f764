-- ===== src/Auth/Logout.antt =====
-- A refresh token that was logged out is refused from then on.
use flipradar.Auth.Keeps.Runs.{Holds-run, failed-run}
use flipradar.Auth.Keeps.Sessions.{already_revoked-Keeps}
use flipradar.Auth.Requests.{Event, run}
use flipradar.Auth.Replay.{blacklist_refresh_token-Makes, refresh_refused}
use flipradar.Auth.Tokens.{refresh_token_jti, refresh_token_expiry, microseconds}
use flipradar.Auth.Keeps.Requests.{makes_rules, get_db_session_clean, get_db_session_error}
use flipradar.Auth.Refused.{Listed, Listed-Lasting}
use flipradar.Auth.Keeps.Ends.{Ends, Ends-last, Ends-pure, Holds-ended}
use flipradar.Auth.Keeps.Rules.{Makes, Keeps-pure}
use flipradar.Auth.Sessions.{
  revoke_live_token, logout_user, revoke_refresh_token, already_revoked, refresh_auth_tokens,
}
use flipradar.Auth.Stores.Sessions.{
  blacklist_refresh_token, is_refresh_token_blacklisted, revoked_has_hash,
}
use flipradar.Auth.Rows.{User, Reason, logout}
use flipradar.Auth.Platform.{Platform, Claims}
use flipradar.Base.{
  ◌≡◌, refl, Bool, true, false, ◌⊎◌, inl, inr, Option, none, some, ℕ, List, if◌then◌else◌, some_row,
  ◌==◌, ◌||◌, is_some, find,
}
use flipradar.Auth.Session.{
  ok, err, http, duplicate, integrity, email_delivery, pending_rollback, multiple_results, ◌>>=◌,
  ◌>>◌, World, Result, Action, on_duplicate, after_duplicate, pure, or_raise, raise,
  invalid_refresh_token, get_db_session, Detail,
}

module _ (p : Platform) where
  module _ (user : User) (h : ℕ) (c : Claims) (r : Reason) where
    -- The token goes on the blacklist.
    listing : Action User
    listing = do
      jti ← refresh_token_jti c
      expires_at ← refresh_token_expiry c
      blacklist_refresh_token user.id h jti expires_at r
      pure user

    listing-Makes : Makes (Listed h) listing
    unfolding listing
    listing-Makes = search (makes_rules, blacklist_refresh_token-Makes, Keeps-pure) depth 20

  pub refused_insert :
      (b d : Bool) (w v : World) (u : User)
      → let r : Result (Unit {0}) × World =
          if b
          then (err pending_rollback, w)
          else if d
          then (err duplicate, record w { failed = true })
          else (ok tt, v) in
        let s = elim r.0 as (λ _. Result User × World) [
          | ok x ↦ pure u r.1
          | err e ↦ raise e r.1
        ] in
        s.0 ≡ err duplicate → s.1.failed ≡ true
  refused_insert true d w v u e = cc
  refused_insert false true w v u e = refl
  refused_insert false false w v u e = cc

  -- What the `try` block leaves when it ends in a duplicate.
  listing-duplicate :
      (user : User) (h : ℕ) (r : Reason) (j e : Option ℕ) (w : World)
      → let m : Action User = (do
        jti ← or_raise j (http 401 invalid_refresh_token)
        expires_at ← (or_raise e (http 401 invalid_refresh_token) >>= λ x. pure (microseconds x))
        blacklist_refresh_token user.id h jti expires_at r
        pure user) in
        (m w).0 ≡ err duplicate → (m w).1.failed ≡ true
  unfolding blacklist_refresh_token
  listing-duplicate user h r none e w x = cc
  listing-duplicate user h r (some j) none w x = cc
  listing-duplicate user h r (some j) (some e) w x =
      refused_insert w.failed (some_row (λ b. b.token_hash == h || b.token_jti == j) w.db.blacklist)
        w _ user x

  on_duplicate_ends :
      (h : ℕ) (user : User) (o : Result User × World) (a : User)
      → ((b : User) → o.0 ≡ ok b → Listed h o.1.db)
      → (o.0 ≡ err duplicate → o.1.failed ≡ true)
      → (after_duplicate (pure user) o).0 ≡ ok a
      → ((after_duplicate (pure user) o).1.failed ≡ true)
        ⊎ Listed h (after_duplicate (pure user) o).1.db
  on_duplicate_ends h user (ok b, w) a k l e = inr (k b refl)
  on_duplicate_ends h user (err duplicate, w) a k l e = inl (l refl)
  on_duplicate_ends h user (err (http s d), w) a k l e = cc
  on_duplicate_ends h user (err integrity, w) a k l e = cc
  on_duplicate_ends h user (err email_delivery, w) a k l e = cc
  on_duplicate_ends h user (err pending_rollback, w) a k l e = cc
  on_duplicate_ends h user (err multiple_results, w) a k l e = cc

  listing-Ends :
      (user : User) (h : ℕ) (c : Claims) (r : Reason)
      → Ends (Listed h) (on_duplicate (listing user h c r) (pure user))
  unfolding listing
  listing-Ends user h c r = record {
    at = λ w a e.
        on_duplicate_ends h user (listing user h c r w) a ((listing-Makes user h c r).at w)
          (listing-duplicate user h r c.jti c.exp w) e;
  }

  revoke_live_token-Ends :
      (h : ℕ) (c : Claims) (r : Reason) → Ends (Listed h) (revoke_live_token p h c r true)
  unfolding revoke_live_token listing
  revoke_live_token-Ends h c r = search (Ends-last, listing-Ends) depth 20

  -- A token that is listed already stays listed, and another one is listed now.
  chosen :
      (b : Bool) (h : ℕ) (c : Claims) (w : World) (a : User)
      → (b ≡ true → Listed h w.db)
      → let m : Action User =
          if b then already_revoked p c true else revoke_live_token p h c logout true in
        (m w).0 ≡ ok a → ((m w).1.failed ≡ true) ⊎ Listed h (m w).1.db
  chosen true h c w a k e =
      inr ((already_revoked-Keeps (Listed-Lasting h) p c true).at_db w (k refl))
  chosen false h c w a k e = (revoke_live_token-Ends h c logout).at w a e

  asked :
      (b : Bool) (h : ℕ) (c : Claims) (w : World) (a : User)
      → let f : Bool → Action User = λ listed.
        if listed then already_revoked p c true else revoke_live_token p h c logout true in
        let r : Result Bool × World = (
          if b
              then err pending_rollback
              else ok (is_some (find (revoked_has_hash h) w.db.blacklist)),
          w,
        ) in
        let s = elim r.0 as (λ _. Result User × World) [ ok x ↦ f x r.1 | err e ↦ raise e r.1 ] in
        s.0 ≡ ok a → (s.1.failed ≡ true) ⊎ Listed h s.1.db
  asked true h c w a e = cc
  asked false h c w a e =
      chosen (is_some (find (revoked_has_hash h) w.db.blacklist)) h c w a (λ listed. listed) e

  revoke_refresh_token-Ends :
      (t : ℕ) (c : Claims) → Ends (Listed (p.sha256 t)) (revoke_refresh_token p t c logout true)
  unfolding revoke_refresh_token is_refresh_token_blacklisted
  revoke_refresh_token-Ends t c = record { at = λ w a e. asked w.failed (p.sha256 t) c w a e }

  logout_user-Ends :
      (t : ℕ) (user : User) → Ends (Listed (p.sha256 t)) (logout_user p (some t) user)
  unfolding logout_user
  logout_user-Ends t user = search (Ends-last, Ends-pure, revoke_refresh_token-Ends) depth 20

  -- A refresh token that was logged out is refused with a 401 ever after, whatever account
  -- requests and jobs come between, at whatever times.
  pub logout_user-refresh_auth_tokens :
      (t : ℕ) (user : User) (w : World) (r : Unit {0}) (rs : List (ℕ × Event))
      → (get_db_session (logout_user p (some t) user) w).0 ≡ ok r
      → (d : Detail) × ((get_db_session
            (refresh_auth_tokens p t)
            (run p rs (get_db_session (logout_user p (some t) user) w).1)).0
          ≡ err (http 401 d))
  logout_user-refresh_auth_tokens t user w r rs e =
      let l = Listed-Lasting (p.sha256 t) in
      let u : World = (get_db_session (logout_user p (some t) user) w).1 in
      let v : World = run p rs u in
      let listed =
        (Holds-run l (λ d k. k) p rs u
          (Holds-ended (Listed (p.sha256 t)) w r (logout_user-Ends t user) e)).in_db in
      let clean = failed-run p rs u (get_db_session_clean (logout_user p (some t) user) w) in
      let (d, refused) = refresh_refused p t v clean listed in
      (d, get_db_session_error (refresh_auth_tokens p t) v _ refused)
