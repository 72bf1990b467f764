-- ===== src/Auth/Keeps/Runs.antt =====
-- A lasting property outlives every run of account requests and jobs.
use flipradar.Base.{ℕ, ◌+◌, List, [], ◌∷◌, ◌≡◌, false, true, All, arith}
use flipradar.Auth.Stores.Mfa.{clear_mfa_token_blacklist}
use flipradar.Auth.Rows.{Database}
use flipradar.Auth.Platform.{Platform}
use flipradar.Auth.Session.{World, get_db_session, Action, ok}
use flipradar.Auth.Keeps.Rules.{Holds, Keeps, keeps_rules, Keeps-write, Makes}
use flipradar.Auth.Keeps.Lasting.{Lasting}
use flipradar.Auth.Keeps.Requests.{Holds-get_db_session, get_db_session_clean, Holds-made}
use flipradar.Auth.Keeps.Sessions.{
  refresh_auth_tokens-Keeps, logout_user-Keeps, list_active_sessions-Keeps, revoke_session-Keeps,
  revoke_all_sessions-Keeps,
}
use flipradar.Auth.Keeps.Mfa.{
  verify_mfa_challenge-Keeps, update_mfa_settings-Keeps, request_mfa_reset-Keeps,
  confirm_mfa_reset-Keeps,
}
use flipradar.Auth.Keeps.Accounts.{
  get_current_user-Keeps, register_user-Keeps, authenticate_user-Keeps, change_password-Keeps,
  request_account_deletion-Keeps, update_account_settings-Keeps, verify_email-Keeps,
  request_email_change-Keeps, confirm_email_change-Keeps, request_password_reset-Keeps,
  confirm_password_reset-Keeps, resend_verification_email-Keeps,
}
use flipradar.Auth.Requests.{
  Request, Event, requested, mfa_tokens_cleared, is_request, handle, handle_event, run, register,
  login, mfa_verify, mfa_reset_request, mfa_reset_confirm, email_verify, email_change_confirm,
  verification_resend, password_reset_request, password_reset_confirm, token_refresh,
  session_logout, me, settings_update, mfa_settings, password_change, deletion_request,
  email_change_request, session_list, session_revoke, sessions_revoke_all,
}

module _ {Q : Database → Type 0} (l : Lasting Q) where
  handle-Keeps : (p : Platform) (r : Request) → Keeps Q (handle p r)
  unfolding handle
  handle-Keeps p (register n e s) = search (keeps_rules, l, register_user-Keeps) depth 12
  handle-Keeps p (login n s) = search (keeps_rules, l, authenticate_user-Keeps) depth 12
  handle-Keeps p (mfa_verify t c a) = search (keeps_rules, l, verify_mfa_challenge-Keeps) depth 12
  handle-Keeps p (mfa_reset_request e) = search (keeps_rules, l, request_mfa_reset-Keeps) depth 12
  handle-Keeps p (mfa_reset_confirm t) = search (keeps_rules, l, confirm_mfa_reset-Keeps) depth 12
  handle-Keeps p (email_verify t) = search (keeps_rules, l, verify_email-Keeps) depth 12
  handle-Keeps p (email_change_confirm t) =
      search (keeps_rules, l, confirm_email_change-Keeps) depth 12
  handle-Keeps p (verification_resend a) =
      search (keeps_rules, l, get_current_user-Keeps, resend_verification_email-Keeps) depth 12
  handle-Keeps p (password_reset_request e) =
      search (keeps_rules, l, request_password_reset-Keeps) depth 12
  handle-Keeps p (password_reset_confirm t s) =
      search (keeps_rules, l, confirm_password_reset-Keeps) depth 12
  handle-Keeps p (token_refresh t) = search (keeps_rules, l, refresh_auth_tokens-Keeps) depth 12
  handle-Keeps p (session_logout a t) =
      search (keeps_rules, l, get_current_user-Keeps, logout_user-Keeps) depth 12
  handle-Keeps p (me a) = search (keeps_rules, l, get_current_user-Keeps) depth 12
  handle-Keeps p (settings_update a n) =
      search (keeps_rules, l, get_current_user-Keeps, update_account_settings-Keeps) depth 12
  handle-Keeps p (mfa_settings a s b q) =
      search (keeps_rules, l, get_current_user-Keeps, update_mfa_settings-Keeps) depth 12
  handle-Keeps p (password_change a s n) =
      search (keeps_rules, l, get_current_user-Keeps, change_password-Keeps) depth 12
  handle-Keeps p (deletion_request a s) =
      search (keeps_rules, l, get_current_user-Keeps, request_account_deletion-Keeps) depth 12
  handle-Keeps p (email_change_request a s e) =
      search (keeps_rules, l, get_current_user-Keeps, request_email_change-Keeps) depth 12
  handle-Keeps p (session_list a) =
      search (keeps_rules, l, get_current_user-Keeps, list_active_sessions-Keeps) depth 12
  handle-Keeps p (session_revoke a i) =
      search (keeps_rules, l, get_current_user-Keeps, revoke_session-Keeps) depth 12
  handle-Keeps p (sessions_revoke_all a) =
      search (keeps_rules, l, get_current_user-Keeps, revoke_all_sessions-Keeps) depth 12

  -- What an event must not undo: only the job does what no request does.
  abbrev pub Survives : Event → Type 0
  Survives (requested r) = Unit
  Survives mfa_tokens_cleared = (d : Database) → Q d → Q (record d { mfa_blacklist = [] })

  handle_event-Keeps : (p : Platform) (e : Event) → Survives e → Keeps Q (handle_event p e)
  unfolding handle_event clear_mfa_token_blacklist
  handle_event-Keeps p (requested r) k = handle-Keeps p r
  handle_event-Keeps p mfa_tokens_cleared k = search (keeps_rules, Keeps-write, k) depth 12

  -- A lasting property that holds of both databases outlives every run of events that it survives.
  pub Holds-events :
      (p : Platform) (es : List (ℕ × Event)) (w : World)
      → All (λ e. Survives e.1) es
      → Holds Q w
      → Holds Q (run p es w)
  unfolding run
  Holds-events p [] w k h = h
  Holds-events p ((wait, e) ∷ es) w k h =
      let v : World = record w { now = w.now + wait } in
      Holds-events p es (get_db_session (handle_event p e) v).1 k.1 (
        Holds-get_db_session Q v (handle_event-Keeps p e k.0)
          (record { in_db = h.in_db; in_saved = h.in_saved }))

  outlived :
      ((d : Database) → Q d → Q (record d { mfa_blacklist = [] }))
      → (es : List (ℕ × Event)) → All (λ e. Survives e.1) es
  outlived k [] = tt
  outlived k ((wait, requested r) ∷ es) = (tt, outlived k es)
  outlived k ((wait, mfa_tokens_cleared) ∷ es) = (k, outlived k es)

  -- A property that says nothing of the blacklist of MFA tokens outlives every run.
  pub Holds-run :
      ((d : Database) → Q d → Q (record d { mfa_blacklist = [] }))
      → (p : Platform) (es : List (ℕ × Event)) (w : World) → Holds Q w
      → Holds Q (run p es w)
  Holds-run k p es w = Holds-events p es w (outlived k es)

  requests_only :
      (es : List (ℕ × Event)) → All (λ e. is_request e.1 ≡ true) es → All (λ e. Survives e.1) es
  requests_only [] k = tt
  requests_only ((wait, requested r) ∷ es) k = (tt, requests_only es k.1)
  requests_only ((wait, mfa_tokens_cleared) ∷ es) k = ground (arith, k.0)

  -- Any lasting property outlives the runs without the job.
  pub Holds-requests :
      (p : Platform) (es : List (ℕ × Event)) (w : World)
      → All (λ e. is_request e.1 ≡ true) es
      → Holds Q w
      → Holds Q (run p es w)
  Holds-requests p es w k = Holds-events p es w (requests_only es k)

-- The session stays usable from event to event.
pub failed-run :
    (p : Platform) (es : List (ℕ × Event)) (w : World)
    → w.failed ≡ false
    → (run p es w).failed ≡ false
unfolding run
failed-run p [] w e = e
failed-run p ((wait, r) ∷ rs) w e =
    let v : World = record w { now = w.now + wait } in
    failed-run p rs (get_db_session (handle_event p r) v).1
      (get_db_session_clean (handle_event p r) v)

-- What a request that returned has brought about, if it lasts, still holds after every run of
-- events, in a session that is usable.
pub outlasts :
    {A : Type 0} {Q : Database → Type 0} (l : Lasting Q)
    → ((d : Database) → Q d → Q (record d { mfa_blacklist = [] }))
    → (p : Platform) {m : Action A} (w : World) (a : A) (es : List (ℕ × Event)) → Makes Q m
    → (get_db_session m w).0 ≡ ok a
    → let v = run p es (get_db_session m w).1 in Q v.db × (v.failed ≡ false)
outlasts {Q = Q} l c p {m = m} w a es k e =
    let v : World = (get_db_session m w).1 in
    (
      (Holds-run l c p es v (Holds-made Q w a k e)).in_db,
      failed-run p es v (get_db_session_clean m w),
    )
