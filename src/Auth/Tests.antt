-- ===== src/Auth/Tests.antt =====
-- Concrete requests, on which the theorems about accounts are applied.
use flipradar.Auth.Accounts.{authenticate_user}
use flipradar.Auth.Session.{ok}
use flipradar.Auth.Login.{authenticate_user-tokens}
use flipradar.Auth.Closed.{revoke_all_sessions-refresh_auth_tokens}
use flipradar.Auth.Revoked.{revoke_session-refresh_auth_tokens}
use flipradar.Auth.Logout.{logout_user-refresh_auth_tokens}
use flipradar.Auth.Outstanding.{issue_account_token-outstanding, revoke_all_sessions-active}
use flipradar.Auth.SingleUse.{
  confirm_email_change-once, confirm_password_reset-once, verify_email-once, confirm_mfa_reset-once,
}
use flipradar.Auth.Challenge.{verify_mfa_challenge-once}
use flipradar.Auth.Locked.{verify_mfa_challenge-locks}
use flipradar.Auth.Refusal.{Refuses}
use flipradar.Auth.Kinds.{create_account_token-decode_account_token}
use flipradar.Auth.Mails.{issue_account_token, send_security_notification}
use flipradar.Auth.Stores.Sessions.{
  blacklist_refresh_token, list_active_refresh_token_sessions_for_user,
  revoke_active_refresh_token_sessions_for_user, create_refresh_token_session,
  get_refresh_token_session_by_hash, is_refresh_token_blacklisted, active,
  revoke_refresh_token_session, get_refresh_token_session_for_user,
}
use flipradar.Auth.Stores.AccountTokens.{
  get_account_token_by_hash, create_account_token_record, mark_account_token_sent,
  mark_account_token_used, revoke_account_tokens_for_user, outstanding,
}
use flipradar.Auth.Recovery.{
  confirm_password_reset, confirm_email_change, user_of_token, verify_email,
}
use flipradar.Auth.Stores.Users.{
  get_user_by_username_or_email, apply_user_email_change, get_user_by_email, get_user_by_id,
  normalize_email_address, mark_user_email_verified, update_user_password_hash,
  update_user_mfa_enabled,
}
use flipradar.Auth.Stores.Mfa.{
  blacklist_mfa_token, delete_mfa_challenges_for_user, get_mfa_challenge_by_hash,
  get_mfa_security_question, increment_mfa_challenge_failures, is_mfa_token_blacklisted,
  clear_mfa_token_blacklist,
}
use flipradar.Auth.Mfa.{
  mfa_failure, confirm_mfa_reset, complete_mfa, verify_mfa_challenge, notify_rate_limited,
}
use flipradar.Auth.Replay.{refresh-refresh}
use flipradar.Auth.Tokens.{
  decode_refresh_token, decode_token, create_token, decode_account_token, create_account_token,
  payload_of, create_access_token, create_refresh_token, decode_mfa_token,
}
use flipradar.Auth.Sessions.{
  refresh_auth_tokens, blacklist_each, already_revoked, blacklist_session_token,
  revoke_all_sessions, revoke_live_token, revoke_refresh_token, revoke_session_of_token,
  token_response, logout_user, revoke_session,
}
use flipradar.Auth.Requests.{run, handle_event, mfa_tokens_cleared}
use flipradar.Auth.Platform.{Claims, Platform}
use flipradar.Auth.Session.{get_db_session, Detail, err, http, too_many_mfa_attempts}
use flipradar.Base.{
  ◌≡◌, refl, true, false, none, some, [], ◌∷◌, arith, count_by, select, ◌≤◌, ℕ, ◌*◌, ◌<◌,
  if◌then◌else◌, ◌==◌,
}
use flipradar.Auth.Rows.{password_reset, mfa, refresh}
use flipradar.Auth.Sample.{
  plain_user, plain_world, platform, user, challenge, world, between, open_session, signed_in,
  platform_of_made, claims, issue_world, made_claims,
}

refresh-refresh_example :
    (d : Detail) × ((get_db_session
        (refresh_auth_tokens platform 1)
        (run platform between (get_db_session (refresh_auth_tokens platform 1) world).1)).0
      ≡ err (http 401 d))
unfolding already_revoked blacklist_refresh_token create_access_token create_refresh_token
    create_refresh_token_session create_token decode_refresh_token decode_token get_db_session
    get_refresh_token_session_by_hash get_user_by_id is_refresh_token_blacklisted payload_of
    refresh_auth_tokens revoke_live_token revoke_refresh_token revoke_refresh_token_session
    revoke_session_of_token token_response
refresh-refresh_example =
    refresh-refresh platform 1 world (record { access_token = 11; refresh_token = 12; user = user })
      between refl

verify_email-once_example :
    Refuses
      (get_db_session (verify_email platform 2))
      (run platform between (get_db_session (verify_email platform 2) world).1)
unfolding decode_account_token decode_token get_account_token_by_hash get_db_session get_user_by_id
    mark_account_token_used mark_user_email_verified revoke_account_tokens_for_user user_of_token
    verify_email
verify_email-once_example = verify_email-once platform 2 world tt between refl

confirm_email_change-once_example :
    Refuses
      (get_db_session (confirm_email_change platform 4))
      (run platform between (get_db_session (confirm_email_change platform 4) world).1)
unfolding apply_user_email_change confirm_email_change decode_account_token decode_token
    get_account_token_by_hash get_db_session get_user_by_email get_user_by_id
    mark_account_token_used normalize_email_address revoke_account_tokens_for_user user_of_token
confirm_email_change-once_example = confirm_email_change-once platform 4 world tt between refl

confirm_password_reset-once_example :
    Refuses
      (get_db_session (confirm_password_reset platform 3 (112 ∷ 113 ∷ [])))
      (run platform between (get_db_session (confirm_password_reset platform 3 (112 ∷ [])) world).1)
unfolding confirm_password_reset decode_account_token decode_token get_account_token_by_hash
    get_db_session get_user_by_id mark_account_token_used revoke_account_tokens_for_user
    send_security_notification update_user_password_hash user_of_token
confirm_password_reset-once_example =
    confirm_password_reset-once platform 3 (112 ∷ []) (112 ∷ 113 ∷ []) world
      (record { notified = true }) between refl

confirm_mfa_reset-once_example :
    Refuses
      (get_db_session (confirm_mfa_reset platform 5))
      (run platform between (get_db_session (confirm_mfa_reset platform 5) world).1)
unfolding confirm_mfa_reset decode_account_token decode_token delete_mfa_challenges_for_user
    get_account_token_by_hash get_db_session get_user_by_id
    list_active_refresh_token_sessions_for_user mark_account_token_used
    revoke_active_refresh_token_sessions_for_user send_security_notification update_user_mfa_enabled
confirm_mfa_reset-once_example = confirm_mfa_reset-once platform 5 world true between refl

verify_mfa_challenge-once_example :
    Refuses (get_db_session (verify_mfa_challenge platform 6 (49 ∷ 50 ∷ []) (97 ∷ []))) (
      run platform between
        (get_db_session (verify_mfa_challenge platform 6 (49 ∷ 50 ∷ []) (97 ∷ [])) world).1)
unfolding blacklist_mfa_token complete_mfa create_access_token create_refresh_token
    create_refresh_token_session create_token decode_mfa_token decode_refresh_token decode_token
    get_db_session get_mfa_challenge_by_hash get_mfa_security_question get_user_by_id
    increment_mfa_challenge_failures is_mfa_token_blacklisted mfa_failure notify_rate_limited
    payload_of send_security_notification token_response verify_mfa_challenge
verify_mfa_challenge-once_example =
    verify_mfa_challenge-once platform 6 (49 ∷ 50 ∷ []) (97 ∷ []) (49 ∷ 50 ∷ []) (97 ∷ []) world
      (record { access_token = 11; refresh_token = 12; user = user }) between (refl, tt) refl

-- Every token has the number of its identifier.
abbrev fresh_tokens : Platform
fresh_tokens = record platform {
  encode = λ c. elim c.jti [ none ↦ 0 | some j ↦ j ];
  decode = λ now t.
      if t == 6 then some (claims mfa none none 106) else some (claims refresh none none t);
}

-- After the worker's job a token that opened a session opens a second one.
verify_mfa_challenge_after_job :
    let w =
      (get_db_session (verify_mfa_challenge fresh_tokens 6 (49 ∷ 50 ∷ []) (97 ∷ [])) world).1 in
    (get_db_session
      (verify_mfa_challenge fresh_tokens 6 (49 ∷ 50 ∷ []) (97 ∷ []))
      (run fresh_tokens ((60_000_000, mfa_tokens_cleared) ∷ []) w)).0
    ≡ ok (record { access_token = 1_005; refresh_token = 1_003; user = user })
unfolding blacklist_mfa_token clear_mfa_token_blacklist complete_mfa create_access_token
    create_refresh_token create_refresh_token_session create_token decode_mfa_token
    decode_refresh_token decode_token get_db_session get_mfa_challenge_by_hash
    get_mfa_security_question get_user_by_id handle_event increment_mfa_challenge_failures
    is_mfa_token_blacklisted mfa_failure notify_rate_limited payload_of run
    send_security_notification token_response verify_mfa_challenge
verify_mfa_challenge_after_job = refl

-- The code is right and the answer is wrong.
verify_mfa_challenge-locks_example :
    let r = get_db_session (verify_mfa_challenge platform 6 (49 ∷ 50 ∷ []) (98 ∷ 98 ∷ [])) world in
    (r.0 ≡ err (http 429 too_many_mfa_attempts))
    × Refuses
        (get_db_session (verify_mfa_challenge platform 6 (49 ∷ 50 ∷ []) (97 ∷ [])))
        (run platform between r.1)
unfolding decode_mfa_token decode_token
verify_mfa_challenge-locks_example =
    verify_mfa_challenge-locks platform 6 (49 ∷ 50 ∷ []) (98 ∷ 98 ∷ []) (49 ∷ 50 ∷ []) (97 ∷ [])
      (claims mfa none none 106) 7 106 1_000_000_000 challenge world between refl refl refl refl
      refl (omega arith) refl refl refl (omega arith) (refl, tt)

issue_account_token-outstanding_example :
    count_by
      (outstanding 7 password_reset)
      (issue_account_token platform user password_reset true none world).1.db.account_tokens
    ≡ 1
unfolding create_account_token create_account_token_record create_token decode_account_token
    decode_token get_db_session issue_account_token mark_account_token_sent payload_of
    revoke_account_tokens_for_user
issue_account_token-outstanding_example =
    issue_account_token-outstanding platform user password_reset true none world 13 refl

revoke_all_sessions-active_example :
    select (active 7 5) (revoke_all_sessions user signed_in).1.db.sessions ≡ []
unfolding blacklist_each blacklist_refresh_token blacklist_session_token get_db_session
    list_active_refresh_token_sessions_for_user revoke_active_refresh_token_sessions_for_user
    revoke_all_sessions
revoke_all_sessions-active_example = revoke_all_sessions-active user signed_in tt refl

in_its_times :
    (now i e : ℕ)
    → some 5 ≡ some i
    → i * 1_000_000 ≤ now
    → some 1_805 ≡ some e
    → now < e * 1_000_000
    → platform_of_made.decode now 13 ≡ some made_claims
in_its_times now i e issued later expires early =
    let first : i ≡ 5 = cc issued in
    let last : e ≡ 1_805 = cc expires in ground (arith, first, last)

create_account_token-decode_account_token_example :
    (c : Claims) × (c.subject ≡ some 7)
    × (decode_account_token platform_of_made 6_000_000 13 password_reset ≡ some c)
unfolding create_account_token create_token decode_account_token decode_token get_db_session
    payload_of
create_account_token-decode_account_token_example =
    create_account_token-decode_account_token platform_of_made 7 password_reset password_reset none
      issue_world 13 6_000_000 (record { decode-encode = in_its_times }) refl (omega arith)
      (omega arith)

logout_user-refresh_auth_tokens_example :
    (d : Detail) × ((get_db_session
        (refresh_auth_tokens platform 1)
        (run platform between (get_db_session (logout_user platform (some 1) user) signed_in).1)).0
      ≡ err (http 401 d))
unfolding already_revoked blacklist_refresh_token decode_refresh_token decode_token get_db_session
    get_refresh_token_session_by_hash get_user_by_id is_refresh_token_blacklisted logout_user
    revoke_live_token revoke_refresh_token revoke_refresh_token_session revoke_session_of_token
logout_user-refresh_auth_tokens_example =
    logout_user-refresh_auth_tokens platform 1 user signed_in tt between refl

revoke_session-refresh_auth_tokens_example :
    (d : Detail) × ((get_db_session
        (refresh_auth_tokens platform 1)
        (run platform between (get_db_session (revoke_session user 9) signed_in).1)).0
      ≡ err (http 401 d))
unfolding blacklist_refresh_token blacklist_session_token get_db_session
    get_refresh_token_session_for_user revoke_refresh_token_session revoke_session
revoke_session-refresh_auth_tokens_example =
    revoke_session-refresh_auth_tokens platform 1 9 user open_session signed_in tt between refl refl
      refl refl

revoke_all_sessions-refresh_auth_tokens_example :
    (d : Detail) × ((get_db_session
        (refresh_auth_tokens platform 1)
        (run platform between (get_db_session (revoke_all_sessions user) signed_in).1)).0
      ≡ err (http 401 d))
unfolding blacklist_each blacklist_refresh_token blacklist_session_token get_db_session
    list_active_refresh_token_sessions_for_user revoke_active_refresh_token_sessions_for_user
    revoke_all_sessions
revoke_all_sessions-refresh_auth_tokens_example =
    revoke_all_sessions-refresh_auth_tokens platform 1 user signed_in tt between refl refl

authenticate_user-tokens_example :
    ((get_user_by_username_or_email (117 ∷ []) plain_world).0 ≡ ok (some plain_user))
    × (platform.verify_password (1 ∷ 2 ∷ 3 ∷ []) plain_user.hashed_password ≡ true)
    × (plain_user.mfa_enabled ≡ false)
unfolding authenticate_user create_access_token create_refresh_token create_refresh_token_session
    create_token decode_refresh_token decode_token get_user_by_username_or_email
    normalize_email_address payload_of token_response
authenticate_user-tokens_example =
    authenticate_user-tokens platform (117 ∷ []) (1 ∷ 2 ∷ 3 ∷ []) plain_world
      (authenticate_user platform (117 ∷ []) (1 ∷ 2 ∷ 3 ∷ []) plain_world).1
      (record { access_token = 11; refresh_token = 12; user = plain_user }) refl
