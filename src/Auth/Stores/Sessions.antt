-- ===== src/Auth/Stores/Sessions.antt =====
-- The refresh token sessions and the blacklist of refresh tokens.
use flipradar.Base.{
  ℕ, Bool, not, ◌&&◌, ◌||◌, Option, none, some, List, [], ◌∷◌, ◌++◌, ltb, ◌==◌, if◌then◌else◌, find,
  some_row, update_where, select, is_some,
}
use flipradar.Auth.Rows.{RefreshTokenSession, RefreshTokenBlacklist, Database, Reason}
use flipradar.Auth.Platform.{Platform}
use flipradar.Auth.Session.{
  Action, ◌>>=◌, ◌>>◌, pure, query, write, insert_unless, random, clock, duplicate,
}

abbrev pub session_is : ℕ → RefreshTokenSession → Bool
session_is i s = s.id == i

abbrev pub session_has_hash : ℕ → RefreshTokenSession → Bool
session_has_hash token_hash s = s.token_hash == token_hash

abbrev pub revoked_has_hash : ℕ → RefreshTokenBlacklist → Bool
revoked_has_hash token_hash b = b.token_hash == token_hash

abbrev pub active : ℕ → ℕ → RefreshTokenSession → Bool
active user_id now s = s.user_id == user_id && not (is_some s.revoked_at) && ltb now s.expires_at

abbrev pub revoked : ℕ → Reason → RefreshTokenSession → RefreshTokenSession
revoked revoked_at reason s = record s {
  revoked_at = some revoked_at;
  revoked_reason = some reason;
}

abbrev pub change_sessions :
    (RefreshTokenSession → Bool) → (RefreshTokenSession → RefreshTokenSession) → Database → Database
change_sessions q f d = record d { sessions = update_where q f d.sessions }

unfoldable pub is_refresh_token_blacklisted : ℕ → Action Bool
is_refresh_token_blacklisted token_hash =
    query λ d. is_some (find (revoked_has_hash token_hash) d.blacklist)

unfoldable pub blacklist_refresh_token : ℕ → ℕ → ℕ → ℕ → Reason → Action (Unit {0})
blacklist_refresh_token user_id token_hash token_jti expires_at reason =
    let entry : RefreshTokenBlacklist = record {
      user_id = user_id;
      token_hash = token_hash;
      token_jti = token_jti;
      expires_at = expires_at;
      reason = reason;
    } in
    insert_unless duplicate
      (λ d. some_row (λ b. b.token_hash == token_hash || b.token_jti == token_jti) d.blacklist)
      (λ d. record d { blacklist = d.blacklist ++ (entry ∷ []) })

unfoldable pub create_refresh_token_session :
    Platform → ℕ → ℕ → ℕ → ℕ → ℕ → Action RefreshTokenSession
create_refresh_token_session p user_id token_hash token_jti expires_at last_seen_at = do
  i ← random p
  now ← clock
  let session : RefreshTokenSession = record {
    id = i;
    user_id = user_id;
    token_hash = token_hash;
    token_jti = token_jti;
    expires_at = expires_at;
    last_seen_at = last_seen_at;
    revoked_at = none;
    revoked_reason = none;
    created_at = now;
  }
  insert_unless duplicate
      (λ d. some_row (λ s. s.token_hash == token_hash || s.token_jti == token_jti) d.sessions)
      (λ d. record d { sessions = d.sessions ++ (session ∷ []) })
  pure session

unfoldable pub get_refresh_token_session_by_hash : ℕ → Action (Option RefreshTokenSession)
get_refresh_token_session_by_hash token_hash =
    query λ d. find (session_has_hash token_hash) d.sessions

-- `ORDER BY last_seen_at DESC, created_at DESC`, by insertion.
abbrev pub seen_before : RefreshTokenSession → RefreshTokenSession → Bool
seen_before s t =
    ltb s.last_seen_at t.last_seen_at
    || (s.last_seen_at == t.last_seen_at && ltb s.created_at t.created_at)

abbrev pub insert_session :
    RefreshTokenSession → List RefreshTokenSession → List RefreshTokenSession
insert_session s [] = s ∷ []
insert_session s (t ∷ ts) = if seen_before s t then t ∷ insert_session s ts else s ∷ t ∷ ts

abbrev pub by_last_seen : List RefreshTokenSession → List RefreshTokenSession
by_last_seen [] = []
by_last_seen (s ∷ ts) = insert_session s (by_last_seen ts)

unfoldable pub list_active_refresh_token_sessions_for_user :
    ℕ → ℕ → Action (List RefreshTokenSession)
list_active_refresh_token_sessions_for_user user_id now =
    query λ d. by_last_seen (select (active user_id now) d.sessions)

unfoldable pub get_refresh_token_session_for_user : ℕ → ℕ → Action (Option RefreshTokenSession)
get_refresh_token_session_for_user user_id session_id =
    query λ d. find (λ s. session_is session_id s && s.user_id == user_id) d.sessions

unfoldable pub revoke_refresh_token_session :
    RefreshTokenSession → ℕ → Reason → Action RefreshTokenSession
revoke_refresh_token_session session revoked_at reason = do
  write (change_sessions (session_is session.id) (revoked revoked_at reason))
  pure (revoked revoked_at reason session)

unfoldable pub revoke_active_refresh_token_sessions_for_user :
    ℕ → ℕ → Reason → Action (List RefreshTokenSession)
unfolding list_active_refresh_token_sessions_for_user
revoke_active_refresh_token_sessions_for_user user_id revoked_at reason = do
  sessions ← list_active_refresh_token_sessions_for_user user_id revoked_at
  write (change_sessions (active user_id revoked_at) (revoked revoked_at reason))
  pure sessions
