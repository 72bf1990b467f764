-- ===== src/Auth/Requests.antt =====
-- The account requests of backend/flipradar/api/routes/auth_routes.py and user_routes.py, each with
-- its handler, and runs of any number of them and of the job that empties the blacklist of MFA tokens.
use flipradar.Auth.Stores.Mfa.{clear_mfa_token_blacklist}
use flipradar.Base.{ℕ, ◌+◌, Bool, true, false, Option, List, [], ◌∷◌, Text}
use flipradar.Auth.Rows.{Question}
use flipradar.Auth.Platform.{Platform}
use flipradar.Auth.Session.{Action, World, ◌>>=◌, ◌>>◌, pure, get_db_session}
use flipradar.Auth.Sessions.{
  refresh_auth_tokens, logout_user, list_active_sessions, revoke_session, revoke_all_sessions,
}
use flipradar.Auth.Mfa.{
  verify_mfa_challenge, update_mfa_settings, request_mfa_reset, confirm_mfa_reset,
}
use flipradar.Auth.Accounts.{
  get_current_user, register_user, authenticate_user, change_password, request_account_deletion,
  update_account_settings,
}
use flipradar.Auth.Recovery.{
  verify_email, request_email_change, confirm_email_change, request_password_reset,
  confirm_password_reset, resend_verification_email,
}

-- The first argument of a request that wants a signed-in user is the access token.
pub data Request : Type 0 where
  register : Text → Text → Text → Request
  login : Text → Text → Request
  mfa_verify : ℕ → Text → Text → Request
  mfa_reset_request : Text → Request
  mfa_reset_confirm : ℕ → Request
  email_verify : ℕ → Request
  email_change_confirm : ℕ → Request
  verification_resend : ℕ → Request
  password_reset_request : Text → Request
  password_reset_confirm : ℕ → Text → Request
  token_refresh : ℕ → Request
  session_logout : ℕ → Option ℕ → Request
  me : ℕ → Request
  settings_update : ℕ → Option Text → Request
  mfa_settings : ℕ → Text → Bool → List (Question × Text) → Request
  password_change : ℕ → Text → Text → Request
  deletion_request : ℕ → Text → Request
  email_change_request : ℕ → Text → Text → Request
  session_list : ℕ → Request
  session_revoke : ℕ → ℕ → Request
  sessions_revoke_all : ℕ → Request

-- A request, or the daily job `clear_mfa_token_blacklist` of backend/flipradar/worker/tasks.py.
pub data Event : Type 0 where
  requested : Request → Event
  mfa_tokens_cleared : Event

abbrev pub is_request : Event → Bool
is_request (requested r) = true
is_request mfa_tokens_cleared = false

module _ (p : Platform) where
  unfoldable pub handle : Request → Action (Unit {0})
  handle (register username email password) = register_user p username email password >> pure tt
  handle (login name password) = authenticate_user p name password >> pure tt
  handle (mfa_verify token code answer) = verify_mfa_challenge p token code answer >> pure tt
  handle (mfa_reset_request email) = request_mfa_reset p email
  handle (mfa_reset_confirm token) = confirm_mfa_reset p token >> pure tt
  handle (email_verify token) = verify_email p token
  handle (email_change_confirm token) = confirm_email_change p token
  handle (verification_resend access) = do
    user ← get_current_user p access
    resend_verification_email p user
    pure tt
  handle (password_reset_request email) = request_password_reset p email
  handle (password_reset_confirm token password) =
      confirm_password_reset p token password >> pure tt
  handle (token_refresh token) = refresh_auth_tokens p token >> pure tt
  handle (session_logout access token) = do
    user ← get_current_user p access
    logout_user p token user
  handle (me access) = get_current_user p access >> pure tt
  handle (settings_update access display_name) = do
    user ← get_current_user p access
    update_account_settings user display_name
    pure tt
  handle (mfa_settings access password enabled answers) = do
    user ← get_current_user p access
    update_mfa_settings p user password enabled answers
    pure tt
  handle (password_change access current new) = do
    user ← get_current_user p access
    change_password p user current new
    pure tt
  handle (deletion_request access password) = do
    user ← get_current_user p access
    request_account_deletion p user password
    pure tt
  handle (email_change_request access password email) = do
    user ← get_current_user p access
    request_email_change p user password email
  handle (session_list access) = do
    user ← get_current_user p access
    list_active_sessions user
    pure tt
  handle (session_revoke access session_id) = do
    user ← get_current_user p access
    revoke_session user session_id
  handle (sessions_revoke_all access) = do
    user ← get_current_user p access
    revoke_all_sessions user

  -- A job of the worker has a session of its own, and commits at its end.
  unfoldable pub handle_event : Event → Action (Unit {0})
  unfolding handle clear_mfa_token_blacklist
  handle_event (requested r) = handle r
  handle_event mfa_tokens_cleared = clear_mfa_token_blacklist >> pure tt

  -- Events one after the other, each some time after the one before.
  unfoldable pub run : List (ℕ × Event) → World → World
  unfolding handle_event
  run [] w = w
  run ((wait, e) ∷ rest) w =
      run rest (get_db_session (handle_event e) (record w { now = w.now + wait })).1
