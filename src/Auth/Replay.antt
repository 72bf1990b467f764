-- ===== src/Auth/Replay.antt =====
-- A token that was used is refused from then on, whatever account requests and jobs come
-- between.
use flipradar.Base.{
  ℕ, ◌≡◌, false, List, arith, ==_refl, is_some-find-append, Option-cases, inl, inr,
}
use flipradar.Auth.Rows.{Reason, refresh}
use flipradar.Auth.Platform.{Platform, Claims}
use flipradar.Auth.Session.{
  World, ok, err, http, Detail, not_authenticated, invalid_refresh_token, get_db_session,
}
use flipradar.Auth.Tokens.{decode_token}
use flipradar.Auth.Stores.Sessions.{revoked_has_hash, blacklist_refresh_token}
use flipradar.Auth.Sessions.{
  TokenResponse, already_revoked, revoke_live_token, revoke_refresh_token, refresh_auth_tokens,
}
use flipradar.Auth.Requests.{Event, run}
use flipradar.Auth.Keeps.Rules.{Makes, Keeps-pure}
use flipradar.Auth.Keeps.Requests.{
  Makes-last, Makes-first, Makes-if, Makes-raise, get_db_session_error, makes_rules,
}
use flipradar.Auth.Keeps.Runs.{outlasts}
use flipradar.Auth.Keeps.Tokens.{token_response-Keeps}
use flipradar.Auth.Refused.{Listed, Listed-Lasting}

module _ (p : Platform) where
  -- A refresh token whose hash is blacklisted is refused.
  pub refresh_refused :
      (t : ℕ) (w : World)
      → w.failed ≡ false
      → Listed (p.sha256 t) w.db
      → (d : Detail) × ((refresh_auth_tokens p t w).0 ≡ err (http 401 d))
  unfolding refresh_auth_tokens revoke_refresh_token already_revoked
  refresh_refused t w clean listed = elim (Option-cases (decode_token p w.now t refresh)) [
    | inl e ↦ (not_authenticated, ground arith)
    | inr (c, e) ↦ (invalid_refresh_token, ground arith)
  ]

  pub blacklist_refresh_token-Makes :
      (i h j e : ℕ) (r : Reason) → Makes (Listed h) (blacklist_refresh_token i h j e r)
  unfolding blacklist_refresh_token
  blacklist_refresh_token-Makes i h j e r = record {
    at = λ w a x. ground (
      arith,
      is_some-find-append (revoked_has_hash h) w.db.blacklist
          (record { user_id = i; token_hash = h; token_jti = j; expires_at = e; reason = r })
          (==_refl h),
    );
  }

  revoke_live_token-Makes :
      (h : ℕ) (c : Claims) (r : Reason) → Makes (Listed h) (revoke_live_token p h c r false)
  unfolding revoke_live_token
  revoke_live_token-Makes h c r =
      search (makes_rules, blacklist_refresh_token-Makes, Keeps-pure) depth 20

  refresh_auth_tokens-Makes : (t : ℕ) → Makes (Listed (p.sha256 t)) (refresh_auth_tokens p t)
  unfolding refresh_auth_tokens revoke_refresh_token already_revoked
  refresh_auth_tokens-Makes t =
      search
        (
          Makes-last, Makes-first, Makes-if, Makes-raise, revoke_live_token-Makes,
          token_response-Keeps, Listed-Lasting,
        )
        depth 20

  -- A refresh token that was exchanged for a new pair is refused with a 401 ever after,
  -- whatever account requests and jobs come between, at whatever times.
  pub refresh-refresh :
      (t : ℕ) (w : World) (r : TokenResponse) (rs : List (ℕ × Event))
      → (get_db_session (refresh_auth_tokens p t) w).0 ≡ ok r
      → (d : Detail) × ((get_db_session
            (refresh_auth_tokens p t)
            (run p rs (get_db_session (refresh_auth_tokens p t) w).1)).0
          ≡ err (http 401 d))
  refresh-refresh t w r rs e =
      let v : World = run p rs (get_db_session (refresh_auth_tokens p t) w).1 in
      let (listed, clean) =
        outlasts (Listed-Lasting (p.sha256 t)) (λ d k. k) p w r rs (refresh_auth_tokens-Makes t)
          e in
      let (d, refused) = refresh_refused t v clean listed in
      (d, get_db_session_error (refresh_auth_tokens p t) v _ refused)
