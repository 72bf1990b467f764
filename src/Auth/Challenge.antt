-- ===== src/Auth/Challenge.antt =====
-- An MFA challenge works once.
use flipradar.Auth.Keeps.Runs.{failed-run, Holds-requests}
use flipradar.Auth.Requests.{Event, run, is_request}
use flipradar.Auth.Sessions.{TokenResponse}
use flipradar.Auth.Refusal.{Refuses, refusal_rules}
use flipradar.Auth.Keeps.Tokens.{token_rules}
use flipradar.Auth.Keeps.Requests.{
  Makes-last, makes_rules, Makes-if, get_db_session_error, get_db_session_clean, Holds-made,
}
use flipradar.Auth.Refused.{MfaListed, MfaListed-Lasting}
use flipradar.Auth.Session.{World, get_db_session, ok, Action}
use flipradar.Auth.Rows.{MfaChallenge}
use flipradar.Auth.Keeps.Rules.{Makes}
use flipradar.Auth.Stores.Mfa.{blacklist_mfa_token, mfa_revoked_has_hash}
use flipradar.Auth.Mfa.{complete_mfa, verify_mfa_challenge, mfa_failure}
use flipradar.Auth.Platform.{Platform}
use flipradar.Base.{ℕ, Text, ◌≡◌, arith, false, is_some-find-append, ==_refl, List, true, All}

module _ (p : Platform) where
  blacklist_mfa_token-Makes : (i h j : ℕ) → Makes (MfaListed h) (blacklist_mfa_token i h j)
  unfolding blacklist_mfa_token
  blacklist_mfa_token-Makes i h j = record {
    at = λ w a x. ground (
      arith,
      is_some-find-append (mfa_revoked_has_hash h) w.db.mfa_blacklist
          (record { user_id = i; token_hash = h; token_jti = j }) (==_refl h),
    );
  }

  mfa_failure-Makes : (c : MfaChallenge) (i h j : ℕ) → Makes (MfaListed h) (mfa_failure p c i h j)
  unfolding mfa_failure
  mfa_failure-Makes c i h j = search makes_rules depth 30

  complete_mfa-Makes : (i h j : ℕ) → Makes (MfaListed h) (complete_mfa p i h j)
  unfolding complete_mfa
  complete_mfa-Makes i h j =
      search (makes_rules, token_rules, blacklist_mfa_token-Makes, MfaListed-Lasting) depth 30

  verify_mfa_challenge-Makes :
      (t : ℕ) (c s : Text) → Makes (MfaListed (p.sha256 t)) (verify_mfa_challenge p t c s)
  unfolding verify_mfa_challenge
  verify_mfa_challenge-Makes t c s =
      search (Makes-last, Makes-if, complete_mfa-Makes, mfa_failure-Makes) depth 30

  pub verify_mfa_challenge_refused :
      (t : ℕ) (c s : Text) (w : World)
      → w.failed ≡ false
      → MfaListed (p.sha256 t) w.db
      → Refuses (verify_mfa_challenge p t c s) w
  unfolding verify_mfa_challenge
  verify_mfa_challenge_refused t c s w clean k = search (refusal_rules, clean, k) depth 20

  -- A challenge token that opened a session is refused with a 400, with whatever code and answer,
  -- whatever account requests come between, at whatever times, until the worker's job empties the
  -- blacklist of MFA tokens.
  pub verify_mfa_challenge-once :
      (t : ℕ) (c s c' s' : Text) (w : World) (r : TokenResponse) (es : List (ℕ × Event))
      → All (λ e. is_request e.1 ≡ true) es
      → (get_db_session (verify_mfa_challenge p t c s) w).0 ≡ ok r
      → Refuses
          (get_db_session (verify_mfa_challenge p t c' s'))
          (run p es (get_db_session (verify_mfa_challenge p t c s) w).1)
  verify_mfa_challenge-once t c s c' s' w r es only e =
      let m : Action TokenResponse = verify_mfa_challenge p t c s in
      let u : World = (get_db_session m w).1 in
      let listed =
        Holds-requests (MfaListed-Lasting (p.sha256 t)) p es u only
          (Holds-made (MfaListed (p.sha256 t)) w r (verify_mfa_challenge-Makes t c s) e) in
      let clean = failed-run p es u (get_db_session_clean m w) in
      let n = verify_mfa_challenge_refused t c' s' (run p es u) clean listed.in_db in
      record {
        detail = n.detail;
        refused = get_db_session_error (verify_mfa_challenge p t c' s') (run p es u) _ n.refused;
      }
