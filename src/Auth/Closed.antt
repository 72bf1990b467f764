-- ===== src/Auth/Closed.antt =====
-- The refresh tokens of a user are refused once all sessions of the user are revoked.
use flipradar.Auth.Denial.{session_refused}
use flipradar.Auth.Keeps.Requests.{get_db_session_clean, get_db_session_error}
use flipradar.Auth.Keeps.Runs.{failed-run, Holds-run}
use flipradar.Auth.Keeps.Ends.{Holds-ended_at}
use flipradar.Auth.Requests.{Event, run}
use flipradar.Auth.Keeps.Rules.{Keeps-query, Keeps-pure}
use flipradar.Auth.Keeps.Sessions.{blacklist_each-Keeps}
use flipradar.Auth.Refused.{Closed, Closed-Lasting, is_closed}
use flipradar.Auth.Platform.{Platform}
use flipradar.Auth.Keeps.Leads.{Leads, Leads-first, Leads-next, Leads-write}
use flipradar.Auth.Rows.{Database, User, RefreshTokenSession, user_revoked_all_sessions}
use flipradar.Auth.Stores.Sessions.{
  revoke_active_refresh_token_sessions_for_user, list_active_refresh_token_sessions_for_user,
  revoked, session_has_hash, by_last_seen, active, change_sessions,
}
use flipradar.Auth.Sessions.{refresh_auth_tokens, revoke_all_sessions}
use flipradar.Base.{
  ◌≡◌, refl, Bool, true, false, inr, ℕ, ◌&&◌, is_marked, not, arith, ◌==◌, ltb, find, select,
  is_marked-find-turned, is_some, List,
}
use flipradar.Auth.Session.{ok, err, http, ◌>>=◌, World, Detail, query, write, pure, get_db_session}

-- The session of the hash is the user's, and not over at the instant.
abbrev Present : ℕ → ℕ → ℕ → Database → Type 0
Present h i at d =
    is_marked (λ (s : RefreshTokenSession). s.user_id == i && ltb at s.expires_at)
      (find (session_has_hash h) d.sessions)
    ≡ true

left_open : (a b c : Bool) → (a && b) ≡ true → (a && not c && b) ≡ false → c ≡ true
left_open a b c h k = ground arith

module _ (h i at : ℕ) where
  revoke_all-Leads :
      Leads
        (Present h i at)
        (Closed h)
        (revoke_active_refresh_token_sessions_for_user i at user_revoked_all_sessions)
  unfolding revoke_active_refresh_token_sessions_for_user
      list_active_refresh_token_sessions_for_user
  revoke_all-Leads =
      let f : RefreshTokenSession → RefreshTokenSession = revoked at user_revoked_all_sessions in
      Leads-next (Present h i at) (Closed h)
        {m = query λ d. by_last_seen (select (active i at) d.sessions)}
        {f = λ sessions. write (change_sessions (active i at) f) >>= λ _. pure sessions}
        (Keeps-query (Present h i at) _)
        λ sessions.
          Leads-first (Present h i at) (Closed h)
            (Leads-write (Present h i at) (Closed h) (change_sessions (active i at) f) λ d k.
              is_marked-find-turned (λ s. s.user_id == i && ltb at s.expires_at) is_closed
                (session_has_hash h) (active i at) f d.sessions (λ s. refl) (λ s a b. refl)
                (λ s a b.
                  left_open (s.user_id == i) (ltb at s.expires_at) (is_some s.revoked_at) a b)
                k)
            (λ _. Keeps-pure (Closed h) sessions)

revoke_all_sessions-Closed :
    (h : ℕ) (user : User) (w : World) (a : Unit {0})
    → Present h user.id w.now w.db
    → (revoke_all_sessions user w).0 ≡ ok a
    → Closed h (revoke_all_sessions user w).1.db
unfolding revoke_all_sessions
revoke_all_sessions-Closed h user w a k e =
    (Leads-first (Present h user.id w.now) (Closed h) (revoke_all-Leads h user.id w.now)
        λ xs. blacklist_each-Keeps (Closed-Lasting h) xs user_revoked_all_sessions).at
      w a k e

-- Once all sessions of a user are revoked, the refresh token of every session of the user that
-- was not over at that instant is refused with a 401 ever after, whatever account requests and
-- jobs come between, at whatever times.
pub revoke_all_sessions-refresh_auth_tokens :
    (p : Platform) (t : ℕ) (user : User) (w : World) (r : Unit {0}) (rs : List (ℕ × Event))
    → is_marked
        (λ (s : RefreshTokenSession). s.user_id == user.id && ltb w.now s.expires_at)
        (find (session_has_hash (p.sha256 t)) w.db.sessions)
      ≡ true
    → (get_db_session (revoke_all_sessions user) w).0 ≡ ok r
    → (d : Detail) × ((get_db_session
          (refresh_auth_tokens p t)
          (run p rs (get_db_session (revoke_all_sessions user) w).1)).0
        ≡ err (http 401 d))
revoke_all_sessions-refresh_auth_tokens p t user w r rs present e =
    let h : ℕ = p.sha256 t in
    let u : World = (get_db_session (revoke_all_sessions user) w).1 in
    let v : World = run p rs u in
    let closed_now =
      Holds-ended_at (Closed h) (revoke_all_sessions user) w r
        (λ a x. inr (revoke_all_sessions-Closed h user w a present x)) e in
    let clean = failed-run p rs u (get_db_session_clean (revoke_all_sessions user) w) in
    let (d, refused) =
      session_refused p t v clean
        (Holds-run (Closed-Lasting h) (λ d k. k) p rs u closed_now).in_db in
    (d, get_db_session_error (refresh_auth_tokens p t) v _ refused)
