-- ===== src/Auth/Keeps/Sessions.antt =====
-- The requests about sessions keep a lasting property.
use flipradar.Base.{ℕ, Bool, true, false, Option, none, some, List, [], ◌∷◌}
use flipradar.Auth.Rows.{Database, User, RefreshTokenSession, Reason}
use flipradar.Auth.Platform.{Platform, Claims}
use flipradar.Auth.Keeps.Rules.{Keeps, Keeps-bind}
use flipradar.Auth.Keeps.Lasting.{Lasting}
use flipradar.Auth.Keeps.Tokens.{token_rules}
use flipradar.Auth.Sessions.{
  revoke_session_of_token, already_revoked, revoke_live_token, revoke_refresh_token,
  refresh_auth_tokens, logout_user, list_active_sessions, blacklist_session_token, revoke_session,
  blacklist_each, revoke_all_sessions,
}

module _ {Q : Database → Type 0} (l : Lasting Q) where
  pub revoke_session_of_token-Keeps :
      (p : Platform) (u : User) (at : ℕ) (r : Reason) (s : Option RefreshTokenSession)
      → Keeps Q (revoke_session_of_token p u at r s)
  unfolding revoke_session_of_token
  revoke_session_of_token-Keeps p u at r none = search token_rules
  revoke_session_of_token-Keeps p u at r (some s) = search (token_rules, l) depth 40

  pub already_revoked-Keeps :
      (p : Platform) (c : Claims) (b : Bool) → Keeps Q (already_revoked p c b)
  unfolding already_revoked
  already_revoked-Keeps p c false = search token_rules
  already_revoked-Keeps p c true = search token_rules depth 40

  pub revoke_live_token-Keeps :
      (p : Platform) (h : ℕ) (c : Claims) (r : Reason) (b : Bool)
      → Keeps Q (revoke_live_token p h c r b)
  unfolding revoke_live_token
  revoke_live_token-Keeps p h c r b =
      search (token_rules, l, revoke_session_of_token-Keeps) depth 40

  pub revoke_refresh_token-Keeps :
      (p : Platform) (t : ℕ) (c : Claims) (r : Reason) (b : Bool)
      → Keeps Q (revoke_refresh_token p t c r b)
  unfolding revoke_refresh_token
  revoke_refresh_token-Keeps p t c r b =
      search (token_rules, already_revoked-Keeps, revoke_live_token-Keeps) depth 40

  pub refresh_auth_tokens-Keeps : (p : Platform) (t : ℕ) → Keeps Q (refresh_auth_tokens p t)
  unfolding refresh_auth_tokens
  refresh_auth_tokens-Keeps p t = search (token_rules, l, revoke_refresh_token-Keeps) depth 40

  pub logout_user-Keeps : (p : Platform) (t : Option ℕ) (u : User) → Keeps Q (logout_user p t u)
  unfolding logout_user
  logout_user-Keeps p none u = search token_rules
  logout_user-Keeps p (some t) u = search (token_rules, l, revoke_refresh_token-Keeps) depth 40

  pub list_active_sessions-Keeps : (u : User) → Keeps Q (list_active_sessions u)
  unfolding list_active_sessions
  list_active_sessions-Keeps u = search token_rules depth 40

  pub blacklist_session_token-Keeps :
      (s : RefreshTokenSession) (r : Reason) → Keeps Q (blacklist_session_token s r)
  unfolding blacklist_session_token
  blacklist_session_token-Keeps s r = search (token_rules, l) depth 40

  pub revoke_session-Keeps : (u : User) (i : ℕ) → Keeps Q (revoke_session u i)
  unfolding revoke_session
  revoke_session-Keeps u i = search (token_rules, l, blacklist_session_token-Keeps) depth 40

  pub blacklist_each-Keeps :
      (ss : List RefreshTokenSession) (r : Reason) → Keeps Q (blacklist_each ss r)
  unfolding blacklist_each
  blacklist_each-Keeps [] r = search token_rules
  blacklist_each-Keeps (s ∷ ss) r =
      Keeps-bind Q (blacklist_session_token-Keeps s r) λ _. blacklist_each-Keeps ss r

  pub revoke_all_sessions-Keeps : (u : User) → Keeps Q (revoke_all_sessions u)
  unfolding revoke_all_sessions
  revoke_all_sessions-Keeps u = search (token_rules, l, blacklist_each-Keeps) depth 40
