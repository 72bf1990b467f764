-- ===== src/Auth/Keeps/Mfa.antt =====
-- The requests about MFA keep a lasting property.
use flipradar.Base.{ℕ, Bool, true, false, Option, none, some, List, Text, if◌then◌else◌}
use flipradar.Auth.Rows.{Database, User, MfaChallenge, Question}
use flipradar.Auth.Platform.{Platform}
use flipradar.Auth.Session.{Action, pure}
use flipradar.Auth.Stores.Users.{normalize_email_address}
use flipradar.Auth.Keeps.Rules.{Keeps, Keeps-bind}
use flipradar.Auth.Keeps.Lasting.{Lasting}
use flipradar.Auth.Keeps.Stores.{get_user_by_email-Keeps}
use flipradar.Auth.Keeps.Tokens.{token_rules}
use flipradar.Auth.Mfa.{
  issue_mfa_challenge, notify_rate_limited, mfa_failure, complete_mfa, verify_mfa_challenge,
  store_answers, update_mfa_settings, send_mfa_reset, request_mfa_reset, confirm_mfa_reset,
}

module _ {Q : Database → Type 0} (l : Lasting Q) where
  pub issue_mfa_challenge-Keeps : (p : Platform) (u : User) → Keeps Q (issue_mfa_challenge p u)
  unfolding issue_mfa_challenge
  issue_mfa_challenge-Keeps p u = search (token_rules, l) depth 40

  pub notify_rate_limited-Keeps :
      (p : Platform) (u : Option User) → Keeps Q (notify_rate_limited p u)
  unfolding notify_rate_limited
  notify_rate_limited-Keeps p none = search token_rules
  notify_rate_limited-Keeps p (some u) = search (token_rules, l) depth 40

  pub mfa_failure-Keeps :
      (p : Platform) (c : MfaChallenge) (i h j : ℕ) → Keeps Q (mfa_failure p c i h j)
  unfolding mfa_failure
  mfa_failure-Keeps p c i h j = search (token_rules, l, notify_rate_limited-Keeps) depth 40

  pub complete_mfa-Keeps : (p : Platform) (i h j : ℕ) → Keeps Q (complete_mfa p i h j)
  unfolding complete_mfa
  complete_mfa-Keeps p i h j = search (token_rules, l) depth 40

  pub verify_mfa_challenge-Keeps :
      (p : Platform) (t : ℕ) (c a : Text) → Keeps Q (verify_mfa_challenge p t c a)
  unfolding verify_mfa_challenge
  verify_mfa_challenge-Keeps p t c a =
      search (token_rules, mfa_failure-Keeps, complete_mfa-Keeps) depth 40

  pub store_answers-Keeps :
      (p : Platform) (u : User) (b : Bool) (qs : List (Question × Text))
      → Keeps Q (store_answers p u b qs)
  unfolding store_answers
  store_answers-Keeps p u false qs = search token_rules
  store_answers-Keeps p u true qs = search (token_rules, l) depth 40

  pub update_mfa_settings-Keeps :
      (p : Platform) (u : User) (s : Text) (b : Bool) (qs : List (Question × Text))
      → Keeps Q (update_mfa_settings p u s b qs)
  unfolding update_mfa_settings
  update_mfa_settings-Keeps p u s b qs = search (token_rules, l, store_answers-Keeps) depth 40

  pub send_mfa_reset-Keeps : (p : Platform) (u : User) → Keeps Q (send_mfa_reset p u)
  unfolding send_mfa_reset
  send_mfa_reset-Keeps p u = search (token_rules, l) depth 40

  mfa_reset_of-Keeps :
      (p : Platform) (o : Option User)
      → Keeps Q (elim o as (λ _. Action (Unit {0})) [
        | none ↦ pure tt
        | some user ↦ if user.mfa_enabled then send_mfa_reset p user else pure tt
      ])
  mfa_reset_of-Keeps p none = search token_rules
  mfa_reset_of-Keeps p (some u) = search (token_rules, send_mfa_reset-Keeps)

  pub request_mfa_reset-Keeps : (p : Platform) (e : Text) → Keeps Q (request_mfa_reset p e)
  unfolding request_mfa_reset
  request_mfa_reset-Keeps p e =
      Keeps-bind Q (get_user_by_email-Keeps l (normalize_email_address e)) (mfa_reset_of-Keeps p)

  pub confirm_mfa_reset-Keeps : (p : Platform) (t : ℕ) → Keeps Q (confirm_mfa_reset p t)
  unfolding confirm_mfa_reset
  confirm_mfa_reset-Keeps p t = search (token_rules, l) depth 40
