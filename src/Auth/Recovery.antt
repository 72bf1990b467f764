-- ===== src/Auth/Recovery.antt =====
-- Email verification, email change and password reset, of
-- backend/flipradar/services/auth_service.py.
use flipradar.Base.{
  ℕ, Bool, true, false, not, ◌||◌, Option, none, some, [], ◌∷◌, Text, text_eq, leb, ltb, ◌==◌,
  if◌then◌else◌, is_some,
}
use flipradar.Auth.Rows.{
  User, AccountToken, email_verification, password_reset, email_change, verified,
  email_change_complete, password_reset_complete,
}
use flipradar.Auth.Platform.{Platform, password_was_reset, email_change_requested, Claims}
use flipradar.Auth.Session.{
  Action, ◌>>=◌, ◌>>◌, pure, raise, or_raise, unless_refused, raise_if, on_duplicate, clock, random,
  http, Error, current_password_incorrect, invalid_verification_token, invalid_reset_token,
  invalid_email_change_token, new_email_must_differ, email_already_exists, wait_for_email_change,
  wait_for_password_reset, wait_for_verification,
}
use flipradar.Auth.Tokens.{decode_account_token, account_token_subject}
use flipradar.Auth.Stores.Users.{
  normalize_email_address, pending_is, get_user_by_username_or_email, get_user_by_email,
  get_user_by_id, mark_user_email_verified, update_user_password_hash, stage_user_email_change,
  apply_user_email_change,
}
use flipradar.Auth.Stores.AccountTokens.{
  get_account_token_by_hash, get_latest_account_token_for_user, mark_account_token_used,
  revoke_account_tokens_for_user,
}
use flipradar.Auth.Mails.{
  require_email_delivery, send_security_notification, send_email_verification_token,
  send_password_reset_token, send_email_change_token, resend_available_at,
}
use flipradar.Auth.Accounts.{ActionResponse}

-- The condition of `_assert_account_token_valid`, on a row that is there.
abbrev pub spent : ℕ → ℕ → AccountToken → Bool
spent user_id now t =
    not (t.user_id == user_id) || is_some t.used_at || is_some t.revoked_at || leb t.expires_at now

-- A missing row fails the same test.
abbrev pub assert_account_token_valid : Option AccountToken → ℕ → ℕ → Error → Action AccountToken
assert_account_token_valid found user_id now invalid_error =
    unless_refused (spent user_id now) found invalid_error

-- The cooldown is not over.
abbrev pub too_early : Option ℕ → ℕ → Bool
too_early none now = false
too_early (some t) now = ltb now t

abbrev pub is_empty : Text → Bool
is_empty [] = true
is_empty (c ∷ s) = false

-- The new email of a token, if it is a text that is not empty.
abbrev pub claimed_email : Claims → Action Text
claimed_email c = unless_refused is_empty c.new_email (http 400 invalid_email_change_token)

-- The user of a token row, which is loaded with it, or else is looked up.
unfoldable pub user_of_token : AccountToken → ℕ → Error → Action User
unfolding get_user_by_id
user_of_token t user_id invalid_error = do
  loaded ← get_user_by_id t.user_id
  found ← if is_some loaded then pure loaded else get_user_by_id user_id
  or_raise found invalid_error

module _ (p : Platform) where
  unfoldable pub verify_email : ℕ → Action (Unit {0})
  unfolding decode_account_token get_account_token_by_hash mark_user_email_verified
      mark_account_token_used revoke_account_tokens_for_user
  verify_email token = do
    now ← clock
    payload ←
        or_raise (decode_account_token p now token email_verification)
          (http 400 invalid_verification_token)
    user_id ← account_token_subject payload
    found ← get_account_token_by_hash (p.sha256 token) email_verification
    row ← assert_account_token_valid found user_id now (http 400 invalid_verification_token)
    user ← user_of_token row user_id (http 400 invalid_verification_token)
    user' ← if user.is_email_verified then pure user else mark_user_email_verified user now
    mark_account_token_used row now
    revoke_account_tokens_for_user user.id email_verification now verified

  unfoldable pub request_email_change : User → Text → Text → Action (Unit {0})
  unfolding normalize_email_address get_user_by_email get_latest_account_token_for_user
      stage_user_email_change
  request_email_change current_user current_password email = do
    raise_if (not (p.verify_password current_password current_user.hashed_password))
        (http 400 current_password_incorrect)
    let new_email = normalize_email_address email
    raise_if (text_eq new_email current_user.email) (http 400 new_email_must_differ)
    taken ← get_user_by_email new_email
    raise_if (is_some taken) (http 409 email_already_exists)
    latest_token ← get_latest_account_token_for_user current_user.id email_change
    let available_at =
        resend_available_at p.settings.account_token_resend_cooldown_seconds latest_token
    now ← clock
    raise_if (too_early available_at now) (http 429 wait_for_email_change)
    on_duplicate (stage_user_email_change current_user new_email)
        (raise (http 409 email_already_exists))
    require_email_delivery (← send_email_change_token p current_user new_email)
    send_security_notification p current_user (email_change_requested new_email)
    pure tt

  unfoldable pub confirm_email_change : ℕ → Action (Unit {0})
  unfolding decode_account_token normalize_email_address get_account_token_by_hash get_user_by_email
      apply_user_email_change mark_account_token_used revoke_account_tokens_for_user
  confirm_email_change token = do
    now ← clock
    payload ←
        or_raise (decode_account_token p now token email_change)
          (http 400 invalid_email_change_token)
    user_id ← account_token_subject payload
    claimed ← claimed_email payload
    let new_email = normalize_email_address claimed
    found ← get_account_token_by_hash (p.sha256 token) email_change
    row ← assert_account_token_valid found user_id now (http 400 invalid_email_change_token)
    user ← user_of_token row user_id (http 400 invalid_email_change_token)
    raise_if (not (pending_is new_email user.pending_email)) (http 400 invalid_email_change_token)
    taken ← get_user_by_email new_email
    raise_if (is_some taken) (http 409 email_already_exists)
    on_duplicate (apply_user_email_change user new_email now)
        (raise (http 409 email_already_exists))
    mark_account_token_used row now
    revoke_account_tokens_for_user user.id email_change now email_change_complete

  -- What a request for a password reset does for a user that exists.
  unfoldable pub reset_password_of : User → Action (Unit {0})
  unfolding get_latest_account_token_for_user
  reset_password_of user = do
    latest_token ← get_latest_account_token_for_user user.id password_reset
    let available_at =
        resend_available_at p.settings.account_token_resend_cooldown_seconds latest_token
    now ← clock
    raise_if (too_early available_at now) (http 429 wait_for_password_reset)
    send_password_reset_token p user
    pure tt

  -- The answer is the same whether or not there is such a user.
  unfoldable pub request_password_reset : Text → Action (Unit {0})
  unfolding get_user_by_username_or_email
  request_password_reset email = do
    found ← get_user_by_username_or_email email
    elim found [ none ↦ pure tt | some user ↦ reset_password_of user ]

  unfoldable pub confirm_password_reset : ℕ → Text → Action ActionResponse
  unfolding decode_account_token get_account_token_by_hash update_user_password_hash
      mark_account_token_used revoke_account_tokens_for_user
  confirm_password_reset token password = do
    now ← clock
    payload ←
        or_raise (decode_account_token p now token password_reset) (http 400 invalid_reset_token)
    user_id ← account_token_subject payload
    found ← get_account_token_by_hash (p.sha256 token) password_reset
    row ← assert_account_token_valid found user_id now (http 400 invalid_reset_token)
    user ← user_of_token row user_id (http 400 invalid_reset_token)
    salt ← random p
    update_user_password_hash user (p.hash_password salt password)
    mark_account_token_used row now
    revoke_account_tokens_for_user user.id password_reset now password_reset_complete
    sent ← send_security_notification p user password_was_reset
    pure (record { notified = sent })

  -- The result says whether a mail was sent.
  unfoldable pub resend_verification_email : User → Action Bool
  unfolding get_latest_account_token_for_user
  resend_verification_email current_user =
      if current_user.is_email_verified then pure false else (do
        latest_token ← get_latest_account_token_for_user current_user.id email_verification
        let available_at =
            resend_available_at p.settings.account_token_resend_cooldown_seconds latest_token
        now ← clock
        raise_if (too_early available_at now) (http 429 wait_for_verification)
        require_email_delivery (← send_email_verification_token p current_user)
        pure true)
