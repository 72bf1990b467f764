-- ===== src/Auth/Sessions.antt =====
-- Refresh tokens and sessions: rotation, logout, revocation, of
-- backend/flipradar/services/auth_service.py.
use flipradar.Base.{
  ℕ, Bool, true, false, not, ◌||◌, Option, none, some, List, [], ◌∷◌, leb, ◌==◌, if◌then◌else◌,
  is_some,
}
use flipradar.Auth.Rows.{
  User, RefreshTokenSession, Reason, rotation, logout, user_revoked_session,
  user_revoked_all_sessions,
}
use flipradar.Auth.Platform.{Platform, Claims}
use flipradar.Auth.Session.{
  Action, ◌>>=◌, ◌>>◌, pure, raise, or_raise, unless_refused, raise_if, on_duplicate, clock, http,
  invalid_refresh_token, session_not_found,
}
use flipradar.Auth.Tokens.{
  create_access_token, create_refresh_token, decode_refresh_token, refresh_token_subject,
  refresh_token_jti, refresh_token_expiry,
}
use flipradar.Auth.Stores.Users.{get_user_by_id}
use flipradar.Auth.Stores.Sessions.{
  is_refresh_token_blacklisted, blacklist_refresh_token, create_refresh_token_session,
  get_refresh_token_session_by_hash, list_active_refresh_token_sessions_for_user,
  get_refresh_token_session_for_user, revoke_refresh_token_session,
  revoke_active_refresh_token_sessions_for_user,
}

pub record TokenResponse : Type 0 where
  pub access_token : ℕ
  pub refresh_token : ℕ
  pub user : User

-- A session that cannot be used by `user_id` at `now`.
abbrev pub unusable : ℕ → ℕ → RefreshTokenSession → Bool
unusable user_id now s = not (s.user_id == user_id) || is_some s.revoked_at || leb s.expires_at now

-- A session that is revoked or over; the query by owner has been made.
abbrev pub closed : ℕ → RefreshTokenSession → Bool
closed now s = is_some s.revoked_at || leb s.expires_at now

module _ (p : Platform) where
  unfoldable pub token_response : User → Action TokenResponse
  unfolding create_refresh_token decode_refresh_token create_refresh_token_session
      create_access_token
  token_response user = do
    refresh_token ← create_refresh_token p user.id
    payload ← decode_refresh_token p refresh_token
    jti ← refresh_token_jti payload
    expires_at ← refresh_token_expiry payload
    now ← clock
    row ← create_refresh_token_session p user.id (p.sha256 refresh_token) jti expires_at now
    access_token ← create_access_token p user.id
    pure (record { access_token = access_token; refresh_token = refresh_token; user = user })

  -- The session of the token, if it has one, must be usable, and is revoked.
  unfoldable pub revoke_session_of_token :
      User → ℕ → Reason → Option RefreshTokenSession → Action (Unit {0})
  unfolding revoke_refresh_token_session
  revoke_session_of_token user now reason none = pure tt
  revoke_session_of_token user now reason (some s) = do
    raise_if (unusable user.id now s) (http 401 invalid_refresh_token)
    revoke_refresh_token_session s now reason
    pure tt

  -- A token that is blacklisted already: an error, unless the caller ignores it.
  unfoldable pub already_revoked : Claims → Bool → Action User
  unfolding get_user_by_id
  already_revoked payload false = raise (http 401 invalid_refresh_token)
  already_revoked payload true = do
    user_id ← refresh_token_subject payload
    or_raise (← get_user_by_id user_id) (http 401 invalid_refresh_token)

  -- The rest of `_revoke_refresh_token`, for a token that is not blacklisted.
  unfoldable pub revoke_live_token : ℕ → Claims → Reason → Bool → Action User
  unfolding get_user_by_id get_refresh_token_session_by_hash revoke_session_of_token
      blacklist_refresh_token
  revoke_live_token token_hash payload reason ignore_existing = do
    user_id ← refresh_token_subject payload
    user ← or_raise (← get_user_by_id user_id) (http 401 invalid_refresh_token)
    now ← clock
    session ← get_refresh_token_session_by_hash token_hash
    revoke_session_of_token user now reason session
    on_duplicate
        (do
          jti ← refresh_token_jti payload
          expires_at ← refresh_token_expiry payload
          blacklist_refresh_token user.id token_hash jti expires_at reason
          pure user)
        (if ignore_existing then pure user else raise (http 401 invalid_refresh_token))

  unfoldable pub revoke_refresh_token : ℕ → Claims → Reason → Bool → Action User
  unfolding is_refresh_token_blacklisted
  revoke_refresh_token refresh_token payload reason ignore_existing = do
    let token_hash = p.sha256 refresh_token
    listed ← is_refresh_token_blacklisted token_hash
    if listed
        then already_revoked payload ignore_existing
        else revoke_live_token token_hash payload reason ignore_existing

  unfoldable pub refresh_auth_tokens : ℕ → Action TokenResponse
  unfolding decode_refresh_token
  refresh_auth_tokens refresh_token = do
    payload ← decode_refresh_token p refresh_token
    user ← revoke_refresh_token refresh_token payload rotation false
    token_response user

  unfoldable pub logout_user : Option ℕ → User → Action (Unit {0})
  unfolding decode_refresh_token
  logout_user none current_user = pure tt
  logout_user (some refresh_token) current_user = do
    payload ← decode_refresh_token p refresh_token
    user_id ← refresh_token_subject payload
    raise_if (not (user_id == current_user.id)) (http 401 invalid_refresh_token)
    user ← revoke_refresh_token refresh_token payload logout true
    pure tt

unfoldable pub list_active_sessions : User → Action (List RefreshTokenSession)
unfolding list_active_refresh_token_sessions_for_user
list_active_sessions current_user = do
  now ← clock
  list_active_refresh_token_sessions_for_user current_user.id now

-- A session that is blacklisted already stays so.
unfoldable pub blacklist_session_token : RefreshTokenSession → Reason → Action (Unit {0})
unfolding blacklist_refresh_token
blacklist_session_token session reason =
    on_duplicate
      (blacklist_refresh_token session.user_id session.token_hash session.token_jti
        session.expires_at reason)
      (pure tt)

unfoldable pub revoke_session : User → ℕ → Action (Unit {0})
unfolding get_refresh_token_session_for_user revoke_refresh_token_session blacklist_session_token
revoke_session current_user session_id = do
  found ← get_refresh_token_session_for_user current_user.id session_id
  now ← clock
  session ← unless_refused (closed now) found (http 404 session_not_found)
  row ← revoke_refresh_token_session session now user_revoked_session
  blacklist_session_token row user_revoked_session

unfoldable pub blacklist_each : List RefreshTokenSession → Reason → Action (Unit {0})
blacklist_each [] reason = pure tt
blacklist_each (s ∷ rest) reason = blacklist_session_token s reason >> blacklist_each rest reason

unfoldable pub revoke_all_sessions : User → Action (Unit {0})
unfolding revoke_active_refresh_token_sessions_for_user
revoke_all_sessions current_user = do
  now ← clock
  sessions ←
      revoke_active_refresh_token_sessions_for_user current_user.id now user_revoked_all_sessions
  blacklist_each sessions user_revoked_all_sessions
