-- ===== src/Auth/Mails.antt =====
-- Mails and tokens that are mailed: the helpers of backend/flipradar/services/auth_service.py.
use flipradar.Base.{
  ℕ, ◌+◌, Bool, true, false, not, ◌&&◌, Option, none, some, Text, if◌then◌else◌, is_some,
}
use flipradar.Auth.Rows.{
  User, AccountToken, Purpose, email_verification, password_reset, email_change, reissued,
}
use flipradar.Auth.Platform.{
  Platform, EmailSendResult, SecurityEvent, Mail, Content, verify_email_link, reset_password_link,
  email_change_link, security,
}
use flipradar.Auth.Session.{
  Action, ◌>>=◌, ◌>>◌, pure, or_raise, raise_if, clock, send, http, email_delivery,
  invalid_verification_token,
}
use flipradar.Auth.Tokens.{
  microseconds, create_account_token, decode_account_token, account_token_jti, account_token_expiry,
}
use flipradar.Auth.Stores.AccountTokens.{
  create_account_token_record, mark_account_token_sent, revoke_account_tokens_for_user,
}

abbrev pub email_was_sent : Option EmailSendResult → Bool
email_was_sent none = true
email_was_sent (some r) = r.sent

-- Attempted and refused.
abbrev pub delivery_failed : Option EmailSendResult → Bool
delivery_failed none = false
delivery_failed (some r) = r.attempted && not r.sent

unfoldable pub require_email_delivery : Option EmailSendResult → Action (Unit {0})
require_email_delivery result = raise_if (delivery_failed result) email_delivery

abbrev pub mail_to : User → Content → Mail
mail_to user content = record {
  to_address = user.email;
  username = user.username;
  content = content;
}

-- When the next mail may be asked for.
abbrev pub resend_available_at : ℕ → Option AccountToken → Option ℕ
resend_available_at cooldown none = none
resend_available_at cooldown (some t) = elim t.last_sent_at [
  | none ↦ none
  | some sent ↦ some (sent + microseconds cooldown)
]

module _ (p : Platform) where
  unfoldable pub send_security_notification : User → SecurityEvent → Action Bool
  send_security_notification user event = do
    result ← send p (mail_to user (security event))
    pure (email_was_sent result)

  unfoldable pub issue_account_token : User → Purpose → Bool → Option Text → Action ℕ
  unfolding create_account_token decode_account_token revoke_account_tokens_for_user
      create_account_token_record mark_account_token_sent
  issue_account_token user purpose mark_sent new_email = do
    now ← clock
    token ← create_account_token p user.id purpose new_email
    payload ←
        or_raise (decode_account_token p now token purpose) (http 400 invalid_verification_token)
    revoke_account_tokens_for_user user.id purpose now reissued
    jti ← account_token_jti payload
    expires_at ← account_token_expiry payload
    row ←
        create_account_token_record p user.id purpose (p.sha256 token) jti expires_at
          (if mark_sent then some now else none) (if mark_sent then 1 else 0)
    row' ←
        if mark_sent && not (is_some row.last_sent_at)
        then mark_account_token_sent row now
        else pure row
    pure token

  unfoldable pub send_email_verification_token : User → Action (Option EmailSendResult)
  send_email_verification_token user = do
    token ← issue_account_token user email_verification true none
    send p (mail_to user (verify_email_link token))

  unfoldable pub send_password_reset_token : User → Action (Option EmailSendResult)
  send_password_reset_token user = do
    token ← issue_account_token user password_reset true none
    send p (mail_to user (reset_password_link token))

  unfoldable pub send_email_change_token : User → Text → Action (Option EmailSendResult)
  send_email_change_token user new_email = do
    token ← issue_account_token user email_change true (some new_email)
    send p (record {
      to_address = new_email;
      username = user.username;
      content = email_change_link new_email token;
    })
