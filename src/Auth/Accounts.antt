-- ===== src/Auth/Accounts.antt =====
-- Registration, login, profile, password and deletion, of
-- backend/flipradar/services/auth_service.py, and the current user of api/dependencies/auth.py.
use flipradar.Base.{ℕ, ◌+◌, ◌*◌, Bool, not, Option, Text, text_eq, if◌then◌else◌, is_some}
use flipradar.Auth.Rows.{User, access}
use flipradar.Auth.Platform.{Platform, registration, deletion_scheduled, password_changed}
use flipradar.Auth.Session.{
  Action, ◌>>=◌, ◌>>◌, pure, raise, or_raise, raise_if, on_duplicate, clock, random, send, http,
  not_authenticated, verification_required, invalid_credentials, user_already_exists,
  current_password_incorrect, new_password_must_differ,
}
use flipradar.Auth.Tokens.{microseconds, decode_token}
use flipradar.Auth.Stores.Users.{
  normalize_email_address, get_user_by_username_or_email, get_user_by_id, create_user,
  update_user_display_name, update_user_password_hash, schedule_user_deletion,
}
use flipradar.Auth.Mails.{
  mail_to, email_was_sent, require_email_delivery, send_security_notification,
  send_email_verification_token,
}
use flipradar.Auth.Sessions.{TokenResponse, token_response}
use flipradar.Auth.Mfa.{MfaChallengeResponse, issue_mfa_challenge}

-- `AccountActionResponse` and its like: whether the message says that a mail was not delivered.
pub record ActionResponse : Type 0 where
  pub notified : Bool

pub data LoginResponse : Type 0 where
  tokens : TokenResponse → LoginResponse
  challenge : MfaChallengeResponse → LoginResponse

module _ (p : Platform) where
  unfoldable pub get_current_user : ℕ → Action User
  unfolding decode_token get_user_by_id
  get_current_user token = do
    now ← clock
    payload ← or_raise (decode_token p now token access) (http 401 not_authenticated)
    user_id ← or_raise payload.subject (http 401 not_authenticated)
    or_raise (← get_user_by_id user_id) (http 401 not_authenticated)

  unfoldable pub get_verified_user : User → Action User
  get_verified_user current_user = do
    raise_if (not current_user.is_email_verified) (http 403 verification_required)
    pure current_user

  -- By the username, then by the email.
  unfoldable pub existing_user : Text → Text → Action (Option User)
  unfolding get_user_by_username_or_email
  existing_user username email = do
    found ← get_user_by_username_or_email username
    if is_some found then pure found else get_user_by_username_or_email email

  unfoldable pub register_user : Text → Text → Text → Action TokenResponse
  unfolding create_user normalize_email_address
  register_user username email password = do
    existing ← existing_user username email
    raise_if (is_some existing) (http 409 user_already_exists)
    user ←
        on_duplicate
          (do
            salt ← random p
            create_user p username username (normalize_email_address email)
                (p.hash_password salt password))
          (raise (http 409 user_already_exists))
    require_email_delivery (← send_email_verification_token p user)
    send p (mail_to user registration)
    token_response p user

  unfoldable pub authenticate_user : Text → Text → Action LoginResponse
  unfolding get_user_by_username_or_email
  authenticate_user username_or_email password = do
    found ← get_user_by_username_or_email username_or_email
    user ← or_raise found (http 401 invalid_credentials)
    raise_if (not (p.verify_password password user.hashed_password)) (http 401 invalid_credentials)
    if user.mfa_enabled
        then (do c ← issue_mfa_challenge p user; pure (challenge c))
        else (do t ← token_response p user; pure (tokens t))

  unfoldable pub change_password : User → Text → Text → Action ActionResponse
  unfolding update_user_password_hash
  change_password current_user current_password new_password = do
    raise_if (not (p.verify_password current_password current_user.hashed_password))
        (http 400 current_password_incorrect)
    raise_if (text_eq current_password new_password) (http 400 new_password_must_differ)
    salt ← random p
    update_user_password_hash current_user (p.hash_password salt new_password)
    sent ← send_security_notification p current_user password_changed
    pure (record { notified = sent })

  -- The deletion comes 24 hours later.
  unfoldable pub request_account_deletion : User → Text → Action (ActionResponse × ℕ)
  unfolding schedule_user_deletion
  request_account_deletion current_user current_password = do
    raise_if (not (p.verify_password current_password current_user.hashed_password))
        (http 400 current_password_incorrect)
    now ← clock
    let scheduled_at = now + microseconds (24 * 3600)
    schedule_user_deletion current_user now scheduled_at
    result ← send p (mail_to current_user (deletion_scheduled scheduled_at))
    pure (record { notified = email_was_sent result }, scheduled_at)

unfoldable pub update_account_settings : User → Option Text → Action User
unfolding update_user_display_name
update_account_settings current_user display_name =
    update_user_display_name current_user display_name
