-- ===== src/Auth/Keeps/Accounts.antt =====
-- The requests about accounts and their recovery keep a lasting property.
use flipradar.Base.{ℕ, Option, none, some, Text}
use flipradar.Auth.Rows.{Database, User, AccountToken}
use flipradar.Auth.Platform.{Platform}
use flipradar.Auth.Session.{Action, Error, pure}
use flipradar.Auth.Keeps.Rules.{Keeps, Keeps-bind}
use flipradar.Auth.Keeps.Lasting.{Lasting}
use flipradar.Auth.Keeps.Stores.{get_user_by_username_or_email-Keeps}
use flipradar.Auth.Keeps.Tokens.{token_rules}
use flipradar.Auth.Keeps.Mfa.{issue_mfa_challenge-Keeps}
use flipradar.Auth.Accounts.{
  get_current_user, existing_user, register_user, authenticate_user, change_password,
  request_account_deletion, update_account_settings,
}
use flipradar.Auth.Recovery.{
  user_of_token, verify_email, request_email_change, confirm_email_change, reset_password_of,
  request_password_reset, confirm_password_reset, resend_verification_email,
}

module _ {Q : Database → Type 0} (l : Lasting Q) where
  pub get_current_user-Keeps : (p : Platform) (t : ℕ) → Keeps Q (get_current_user p t)
  unfolding get_current_user
  get_current_user-Keeps p t = search token_rules depth 40

  pub existing_user-Keeps : (p : Platform) (n e : Text) → Keeps Q (existing_user p n e)
  unfolding existing_user
  existing_user-Keeps p n e = search token_rules depth 40

  pub register_user-Keeps : (p : Platform) (n e s : Text) → Keeps Q (register_user p n e s)
  unfolding register_user
  register_user-Keeps p n e s = search (token_rules, l, existing_user-Keeps) depth 40

  pub authenticate_user-Keeps : (p : Platform) (n s : Text) → Keeps Q (authenticate_user p n s)
  unfolding authenticate_user
  authenticate_user-Keeps p n s = search (token_rules, l, issue_mfa_challenge-Keeps) depth 40

  pub change_password-Keeps :
      (p : Platform) (u : User) (s n : Text) → Keeps Q (change_password p u s n)
  unfolding change_password
  change_password-Keeps p u s n = search (token_rules, l) depth 40

  pub request_account_deletion-Keeps :
      (p : Platform) (u : User) (s : Text) → Keeps Q (request_account_deletion p u s)
  unfolding request_account_deletion
  request_account_deletion-Keeps p u s = search (token_rules, l) depth 40

  pub update_account_settings-Keeps :
      (u : User) (n : Option Text) → Keeps Q (update_account_settings u n)
  unfolding update_account_settings
  update_account_settings-Keeps u n = search (token_rules, l) depth 40

  pub user_of_token-Keeps : (t : AccountToken) (i : ℕ) (e : Error) → Keeps Q (user_of_token t i e)
  unfolding user_of_token
  user_of_token-Keeps t i e = search token_rules depth 40

  pub verify_email-Keeps : (p : Platform) (t : ℕ) → Keeps Q (verify_email p t)
  unfolding verify_email
  verify_email-Keeps p t = search (token_rules, l, user_of_token-Keeps) depth 40

  pub request_email_change-Keeps :
      (p : Platform) (u : User) (s e : Text) → Keeps Q (request_email_change p u s e)
  unfolding request_email_change
  request_email_change-Keeps p u s e = search (token_rules, l) depth 40

  pub confirm_email_change-Keeps : (p : Platform) (t : ℕ) → Keeps Q (confirm_email_change p t)
  unfolding confirm_email_change
  confirm_email_change-Keeps p t = search (token_rules, l, user_of_token-Keeps) depth 40

  pub reset_password_of-Keeps : (p : Platform) (u : User) → Keeps Q (reset_password_of p u)
  unfolding reset_password_of
  reset_password_of-Keeps p u = search (token_rules, l) depth 40

  password_reset_of-Keeps :
      (p : Platform) (o : Option User)
      → Keeps Q (elim o as (λ _. Action (Unit {0})) [
        | none ↦ pure tt
        | some user ↦ reset_password_of p user
      ])
  password_reset_of-Keeps p none = search token_rules
  password_reset_of-Keeps p (some u) = reset_password_of-Keeps p u

  pub request_password_reset-Keeps :
      (p : Platform) (e : Text) → Keeps Q (request_password_reset p e)
  unfolding request_password_reset
  request_password_reset-Keeps p e =
      Keeps-bind Q (get_user_by_username_or_email-Keeps l e) (password_reset_of-Keeps p)

  pub confirm_password_reset-Keeps :
      (p : Platform) (t : ℕ) (s : Text) → Keeps Q (confirm_password_reset p t s)
  unfolding confirm_password_reset
  confirm_password_reset-Keeps p t s = search (token_rules, l, user_of_token-Keeps) depth 40

  pub resend_verification_email-Keeps :
      (p : Platform) (u : User) → Keeps Q (resend_verification_email p u)
  unfolding resend_verification_email
  resend_verification_email-Keeps p u = search (token_rules, l) depth 40
