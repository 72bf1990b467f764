-- ===== src/Auth/Revoked.antt =====
-- The refresh token of a session that was revoked is refused from then on.
use flipradar.Auth.Replay.{refresh_refused}
use flipradar.Auth.Steps.{query_step}
use flipradar.Auth.Keeps.Requests.{get_db_session_clean, get_db_session_error}
use flipradar.Auth.Keeps.Runs.{Holds-run, failed-run}
use flipradar.Auth.Requests.{Event, run}
use flipradar.Auth.Refused.{Listed, Listed-Lasting}
use flipradar.Auth.Keeps.Ends.{Ends, Holds-ended_at}
use flipradar.Auth.Rows.{
  RefreshTokenSession, Database, User, user_revoked_session, Reason, RefreshTokenBlacklist,
}
use flipradar.Auth.Sessions.{blacklist_session_token, revoke_session, refresh_auth_tokens, closed}
use flipradar.Auth.Stores.Sessions.{
  revoke_refresh_token_session, blacklist_refresh_token, session_is, revoked_has_hash, revoked,
  get_refresh_token_session_for_user,
}
use flipradar.Auth.Platform.{Platform}
use flipradar.Base.{
  ◌≡◌, refl, Bool, true, false, ◌⊎◌, inl, inr, Option, some, ℕ, if◌then◌else◌, List, some_row, find,
  ◌==◌, ◌&&◌, ◌||◌, ◌++◌, ◌∷◌, [], is_some-find-append, ==_refl, ◌∙◌, ap, subst, sym,
}
use flipradar.Auth.Session.{
  ok, err, http, duplicate, pending_rollback, ◌>>=◌, World, Action, session_not_found, Result,
  raise, after_duplicate, pure, get_db_session, Detail, clock, unless_refused,
}

added :
    (b d : Bool) (w : World) (g : Database → Database) (h : ℕ)
    → Listed h (g w.db)
    → (a : Unit {0})
    → let r : Result (Unit {0}) × World =
        if b
        then (err pending_rollback, w)
        else if d
        then (err duplicate, record w { failed = true })
        else (ok tt, record w { db = g w.db }) in
      (after_duplicate (pure tt) r).0 ≡ ok a
      → ((after_duplicate (pure tt) r).1.failed ≡ true)
        ⊎ Listed h (after_duplicate (pure tt) r).1.db
added true d w g h k a e = cc
added false true w g h k a e = inl refl
added false false w g h k a e = inr k

blacklist_session_token-Ends :
    (s : RefreshTokenSession) (r : Reason)
    → Ends (Listed s.token_hash) (blacklist_session_token s r)
unfolding blacklist_session_token blacklist_refresh_token
blacklist_session_token-Ends s r = record {
  at = λ w a e.
      let entry : RefreshTokenBlacklist = record {
        user_id = s.user_id;
        token_hash = s.token_hash;
        token_jti = s.token_jti;
        expires_at = s.expires_at;
        reason = r;
      } in
      added w.failed
        (some_row (λ b. b.token_hash == s.token_hash || b.token_jti == s.token_jti) w.db.blacklist)
        w (λ d. record d { blacklist = d.blacklist ++ (entry ∷ []) }) s.token_hash
        (is_some-find-append (revoked_has_hash s.token_hash) w.db.blacklist entry
          (==_refl s.token_hash))
        a e;
}

-- What follows once the session was found.
abbrev closing : ℕ → RefreshTokenSession → Action (Unit {0})
closing now s = do
  row ← revoke_refresh_token_session s now user_revoked_session
  blacklist_session_token row user_revoked_session

rewritten :
    (b : Bool) (w v : World) (row : RefreshTokenSession) (a : Unit {0})
    → let q : Result (Unit {0}) × World = if b then (err pending_rollback, w) else (ok tt, v) in
      let o : Result RefreshTokenSession × World =
        elim q.0 as (λ _. Result RefreshTokenSession × World) [
          | ok x ↦ pure row q.1
          | err e ↦ raise e q.1
        ] in
      let r = elim o.0 as (λ _. Result (Unit {0}) × World) [
        | ok s ↦ blacklist_session_token s user_revoked_session o.1
        | err e ↦ raise e o.1
      ] in
      r.0 ≡ ok a → (r.1.failed ≡ true) ⊎ Listed row.token_hash r.1.db
rewritten true w v row a e = cc
rewritten false w v row a e = (blacklist_session_token-Ends row user_revoked_session).at v a e

closing-Ends : (now : ℕ) (s : RefreshTokenSession) → Ends (Listed s.token_hash) (closing now s)
unfolding revoke_refresh_token_session
closing-Ends now s = record {
  at = λ w a e. rewritten w.failed w _ (revoked now user_revoked_session s) a e;
}

open_or_not :
    (b : Bool) (s : RefreshTokenSession) (w : World) (a : Unit {0})
    → let r =
        elim (if b then err (http 404 session_not_found) else ok s)
          as (λ _. Result (Unit {0}) × World) [ ok s ↦ closing w.now s w | err e ↦ raise e w ] in
      r.0 ≡ ok a → (r.1.failed ≡ true) ⊎ Listed s.token_hash r.1.db
open_or_not true s w a e = cc
open_or_not false s w a e = (closing-Ends w.now s).at w a e

revoke_session-Listed :
    (user : User) (i : ℕ) (s : RefreshTokenSession) (w : World)
    → w.failed ≡ false
    → find (λ s. session_is i s && s.user_id == user.id) w.db.sessions ≡ some s
    → (b : Unit {0}) → (revoke_session user i w).0 ≡ ok b
    → ((revoke_session user i w).1.failed ≡ true)
      ⊎ Listed s.token_hash (revoke_session user i w).1.db
unfolding revoke_session get_refresh_token_session_for_user
revoke_session-Listed user i s w clean found b =
    let after : Option RefreshTokenSession → Action (Unit {0}) = λ o.
      clock >>= λ now. unless_refused (closed now) o (http 404 session_not_found) >>= closing now in
    let path : revoke_session user i w ≡ after (some s) w =
      query_step (λ d. find (λ s. session_is i s && s.user_id == user.id) d.sessions) after w clean
      ∙ ap (λ o. after o w) found in
    subst
      (λ (r : Result (Unit {0}) × World).
        r.0 ≡ ok b → (r.1.failed ≡ true) ⊎ Listed s.token_hash r.1.db)
      (sym path) (open_or_not (closed w.now s) s w b)

-- The refresh token of a session that its user revoked is refused with a 401 ever after,
-- whatever account requests and jobs come between, at whatever times. The session is the one of
-- the identifier and the user, and has the hash of the token.
pub revoke_session-refresh_auth_tokens :
    (p : Platform) (t i : ℕ) (user : User) (s : RefreshTokenSession) (w : World) (r : Unit {0})
    (rs : List (ℕ × Event))
    → w.failed ≡ false
    → find (λ s. session_is i s && s.user_id == user.id) w.db.sessions ≡ some s
    → s.token_hash ≡ p.sha256 t
    → (get_db_session (revoke_session user i) w).0 ≡ ok r
    → (d : Detail) × ((get_db_session
          (refresh_auth_tokens p t)
          (run p rs (get_db_session (revoke_session user i) w).1)).0
        ≡ err (http 401 d))
revoke_session-refresh_auth_tokens p t i user s w r rs clean found hash e =
    let l = Listed-Lasting s.token_hash in
    let u : World = (get_db_session (revoke_session user i) w).1 in
    let v : World = run p rs u in
    let listed : Listed s.token_hash v.db =
      (Holds-run l (λ d k. k) p rs u
        (Holds-ended_at (Listed s.token_hash) (revoke_session user i) w r
          (revoke_session-Listed user i s w clean found) e)).in_db in
    let usable = failed-run p rs u (get_db_session_clean (revoke_session user i) w) in
    let (d, refused) = refresh_refused p t v usable (rw⁻¹ hash listed) in
    (d, get_db_session_error (refresh_auth_tokens p t) v _ refused)
