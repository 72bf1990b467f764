-- ===== src/Auth/Keeps/Tokens.antt =====
-- The tokens that are issued and the mails that carry them keep a lasting property.
use flipradar.Base.{ℕ, Bool, Option, Text}
use flipradar.Auth.Rows.{Database, User, TokenType, Purpose}
use flipradar.Auth.Platform.{Platform, EmailSendResult, SecurityEvent}
use flipradar.Auth.Keeps.Rules.{Keeps}
use flipradar.Auth.Keeps.Lasting.{Lasting}
use flipradar.Auth.Keeps.Stores.{store_rules}
use flipradar.Auth.Tokens.{
  create_token, create_access_token, create_refresh_token, create_account_token, create_mfa_token,
  decode_refresh_token,
}
use flipradar.Auth.Mails.{
  require_email_delivery, send_security_notification, issue_account_token,
  send_email_verification_token, send_password_reset_token, send_email_change_token,
}
use flipradar.Auth.Sessions.{token_response}

module _ {Q : Database → Type 0} (l : Lasting Q) where
  pub create_token-Keeps :
      (p : Platform) (i : ℕ) (t : TokenType) (e : ℕ) (pu : Option Purpose) (n : Option Text)
      → Keeps Q (create_token p i t e pu n)
  unfolding create_token
  create_token-Keeps p i t e pu n = search store_rules depth 30

  pub create_access_token-Keeps : (p : Platform) (i : ℕ) → Keeps Q (create_access_token p i)
  unfolding create_access_token
  create_access_token-Keeps p i = search (store_rules, create_token-Keeps) depth 30

  pub create_refresh_token-Keeps : (p : Platform) (i : ℕ) → Keeps Q (create_refresh_token p i)
  unfolding create_refresh_token
  create_refresh_token-Keeps p i = search (store_rules, create_token-Keeps) depth 30

  pub create_account_token-Keeps :
      (p : Platform) (i : ℕ) (pu : Purpose) (n : Option Text)
      → Keeps Q (create_account_token p i pu n)
  unfolding create_account_token
  create_account_token-Keeps p i pu n = search (store_rules, create_token-Keeps) depth 30

  pub create_mfa_token-Keeps : (p : Platform) (i : ℕ) → Keeps Q (create_mfa_token p i)
  unfolding create_mfa_token
  create_mfa_token-Keeps p i = search (store_rules, create_token-Keeps) depth 30

  pub decode_refresh_token-Keeps : (p : Platform) (t : ℕ) → Keeps Q (decode_refresh_token p t)
  unfolding decode_refresh_token
  decode_refresh_token-Keeps p t = search store_rules depth 30

  pub require_email_delivery-Keeps :
      (r : Option EmailSendResult) → Keeps Q (require_email_delivery r)
  unfolding require_email_delivery
  require_email_delivery-Keeps r = search store_rules depth 30

  pub send_security_notification-Keeps :
      (p : Platform) (u : User) (e : SecurityEvent) → Keeps Q (send_security_notification p u e)
  unfolding send_security_notification
  send_security_notification-Keeps p u e = search store_rules depth 30

  pub issue_account_token-Keeps :
      (p : Platform) (u : User) (pu : Purpose) (b : Bool) (n : Option Text)
      → Keeps Q (issue_account_token p u pu b n)
  unfolding issue_account_token
  issue_account_token-Keeps p u pu b n =
      search (store_rules, l, create_account_token-Keeps) depth 30

  pub send_email_verification_token-Keeps :
      (p : Platform) (u : User) → Keeps Q (send_email_verification_token p u)
  unfolding send_email_verification_token
  send_email_verification_token-Keeps p u = search (store_rules, issue_account_token-Keeps) depth 30

  pub send_password_reset_token-Keeps :
      (p : Platform) (u : User) → Keeps Q (send_password_reset_token p u)
  unfolding send_password_reset_token
  send_password_reset_token-Keeps p u = search (store_rules, issue_account_token-Keeps) depth 30

  pub send_email_change_token-Keeps :
      (p : Platform) (u : User) (e : Text) → Keeps Q (send_email_change_token p u e)
  unfolding send_email_change_token
  send_email_change_token-Keeps p u e = search (store_rules, issue_account_token-Keeps) depth 30

  pub token_response-Keeps : (p : Platform) (u : User) → Keeps Q (token_response p u)
  unfolding token_response
  token_response-Keeps p u =
      search
        (
          store_rules, l, create_access_token-Keeps, create_refresh_token-Keeps,
          decode_refresh_token-Keeps,
        )
        depth 30

pub ruleset token_rules = (
  store_rules, create_token-Keeps, create_access_token-Keeps, create_refresh_token-Keeps,
  create_account_token-Keeps, create_mfa_token-Keeps, decode_refresh_token-Keeps,
  require_email_delivery-Keeps, send_security_notification-Keeps, issue_account_token-Keeps,
  send_email_verification_token-Keeps, send_password_reset_token-Keeps,
  send_email_change_token-Keeps, token_response-Keeps,
)
