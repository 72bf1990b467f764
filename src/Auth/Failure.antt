-- ===== src/Auth/Failure.antt =====
-- The last failure of an MFA challenge that is allowed, `mfa_failure` of services/auth_service.py.
use flipradar.Auth.Steps.{step, write_step, insert_step, query_step}
use flipradar.Auth.Mails.{send_security_notification}
use flipradar.Auth.Stores.Users.{get_user_by_id, user_is}
use flipradar.Auth.Sessions.{TokenResponse}
use flipradar.Auth.Refused.{MfaListed}
use flipradar.Auth.Session.{
  World, ok, Result, err, http, too_many_mfa_attempts, Action, ◌>>◌, commit, raise, integrity,
  ◌>>=◌, Error, pure, pending_rollback, invalid_mfa_challenge,
}
use flipradar.Auth.Rows.{MfaChallenge, User, MfaTokenBlacklist, Database}
use flipradar.Auth.Stores.Mfa.{
  blacklist_mfa_token, mfa_revoked_has_hash, increment_mfa_challenge_failures, challenge_is,
  one_more_failure,
}
use flipradar.Auth.Mfa.{mfa_failure, notify_rate_limited}
use flipradar.Auth.Platform.{Platform}
use flipradar.Base.{
  none, some, ℕ, ◌≡◌, false, is_some-find-append, ==_refl, Bool, some_row, ◌==◌, ◌||◌, leb, ◌+◌,
  true, Option, ◌++◌, update_where, ◌∷◌, [], if◌then◌else◌, find, ◌∙◌, ap,
}

committed :
    {A : Type 0} {e : Error} (v : World)
    → v.failed ≡ false
    → (((commit >> raise {A = A} e) v).0 ≡ err e) × (((commit >> raise {A = A} e) v).1.saved ≡ v.db)
committed {A = A} {e = e} v clean =
    let path : (commit >> raise {A = A} e) v ≡ (err e, record v { saved = v.db }) =
      step commit (λ _. raise e) v (record v { saved = v.db }) tt
        (ap
          (λ b.
            if◌then◌else◌ {A = Result (Unit {0}) × World} b (err pending_rollback, v)
              (ok tt, record v { saved = v.db }))
          clean) in
    (ap (λ r. r.0) path, ap (λ r. r.1.saved) path)

module _ (p : Platform) where
  -- The rest of a failure that was the last one.
  locked : Option User → Action TokenResponse
  locked o = notify_rate_limited p o >> (commit >> raise (http 429 too_many_mfa_attempts))

  locked-commits :
      (o : Option User) (v : World)
      → v.failed ≡ false
      → ((locked o v).0 ≡ err (http 429 too_many_mfa_attempts)) × ((locked o v).1.saved ≡ v.db)
  unfolding notify_rate_limited send_security_notification locked
  locked-commits none v clean = committed v clean
  locked-commits (some u) v clean = committed _ clean

  failure_step :
      {B : Type 0} (c : MfaChallenge) (k : ℕ → Action B) (w : World)
      → w.failed ≡ false
      → (increment_mfa_challenge_failures c >>= k) w
        ≡ k (c.failed_attempt_count + 1) (record w {
          db = record w.db {
            challenges = update_where (challenge_is c.id) one_more_failure w.db.challenges;
          };
        })
  unfolding increment_mfa_challenge_failures
  failure_step c k w clean =
      let g : Database → Database = λ d. record d {
        challenges = update_where (challenge_is c.id) one_more_failure d.challenges;
      } in
      step (increment_mfa_challenge_failures c) k w (record w { db = g w.db })
        (c.failed_attempt_count + 1) (write_step g (λ _. pure (c.failed_attempt_count + 1)) w clean)

  pub mfa_failure_locks :
      (c : MfaChallenge) (i h j : ℕ) (w : World)
      → w.failed ≡ false
      → some_row (λ b. b.token_hash == h || b.token_jti == j) w.db.mfa_blacklist ≡ false
      → leb p.settings.mfa_max_attempts (c.failed_attempt_count + 1) ≡ true
      → ((mfa_failure p c i h j w).0 ≡ err (http 429 too_many_mfa_attempts))
        × MfaListed h (mfa_failure p c i h j w).1.saved
  unfolding mfa_failure blacklist_mfa_token get_user_by_id locked
  mfa_failure_locks c i h j w clean fresh last =
      let entry : MfaTokenBlacklist = record { user_id = i; token_hash = h; token_jti = j } in
      let u : World = record w {
        db = record w.db {
          challenges = update_where (challenge_is c.id) one_more_failure w.db.challenges;
        };
      } in
      let v : World = record u {
        db = record u.db { mfa_blacklist = u.db.mfa_blacklist ++ (entry ∷ []) };
      } in
      let after : Bool → Action TokenResponse = λ b.
        if b
        then blacklist_mfa_token i h j >> (get_user_by_id i >>= locked)
        else (commit >> raise (http 400 invalid_mfa_challenge)) in
      let path : mfa_failure p c i h j w ≡ locked (find (user_is i) w.db.users) v =
        failure_step c (λ n. after (leb p.settings.mfa_max_attempts n)) w clean
        ∙ ap (λ b. after b u) last
        ∙ insert_step integrity
            (λ d. some_row (λ b. b.token_hash == h || b.token_jti == j) d.mfa_blacklist)
            (λ d. record d { mfa_blacklist = d.mfa_blacklist ++ (entry ∷ []) })
            (λ _. get_user_by_id i >>= locked) u clean fresh
        ∙ query_step (λ d. find (user_is i) d.users) locked v clean in
      let (raised, saved) = locked-commits (find (user_is i) w.db.users) v clean in
      (
        ap (λ r. r.0) path ∙ raised,
        rw (ap (λ r. r.1.saved.mfa_blacklist) path ∙ ap (λ d. d.mfa_blacklist) saved)
            (is_some-find-append (mfa_revoked_has_hash h) w.db.mfa_blacklist entry (==_refl h)),
      )
