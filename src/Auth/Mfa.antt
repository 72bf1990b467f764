-- ===== src/Auth/Mfa.antt =====
-- MFA challenges, settings and reset, of backend/flipradar/services/auth_service.py.
use flipradar.Base.{
  ℕ, ◌%◌, Bool, true, false, not, ◌&&◌, ◌||◌, Option, none, some, List, [], ◌∷◌, Text, leb,
  if◌then◌else◌,
}
use flipradar.Auth.Rows.{
  User, MfaChallenge, Question, mfa_security_questions, mfa_reset, mfa_was_reset,
}
use flipradar.Auth.Platform.{
  Platform, mfa_code, mfa_reset_link, mfa_rate_limited, mfa_was_enabled, mfa_was_disabled,
  mfa_reset_requested, mfa_reset_done,
}
use flipradar.Auth.Session.{
  Action, ◌>>=◌, ◌>>◌, pure, raise, or_raise, unless_refused, raise_if, clock, commit, random, send,
  http, current_password_incorrect, verify_email_before_mfa, answer_every_question,
  invalid_mfa_challenge, too_many_mfa_attempts,
}
use flipradar.Auth.Tokens.{
  create_mfa_token, decode_mfa_token, mfa_token_subject, mfa_token_jti, mfa_token_expiry,
  decode_account_token, account_token_subject,
}
use flipradar.Auth.Stores.Users.{
  normalize_email_address, get_user_by_email, get_user_by_id, update_user_mfa_enabled,
}
use flipradar.Auth.Stores.AccountTokens.{get_account_token_by_hash, mark_account_token_used}
use flipradar.Auth.Stores.Sessions.{revoke_active_refresh_token_sessions_for_user}
use flipradar.Auth.Stores.Mfa.{
  create_mfa_challenge, get_mfa_challenge_by_hash, is_mfa_token_blacklisted, blacklist_mfa_token,
  replace_mfa_security_questions, get_mfa_security_question, increment_mfa_challenge_failures,
  delete_mfa_challenges_for_user,
}
use flipradar.Auth.Mails.{
  mail_to, require_email_delivery, send_security_notification, issue_account_token,
}
use flipradar.Auth.Answers.{
  digits_of, choose, normalized_answer, complete, wrong_answer, wrong_code, reset_spent,
}
use flipradar.Auth.Sessions.{TokenResponse, token_response}

pub record MfaChallengeResponse : Type 0 where
  pub challenge_token : ℕ
  pub expires_at : ℕ
  pub security_question_id : Question

module _ (p : Platform) where
  abbrev pub mfa_code_hash : Text → ℕ
  mfa_code_hash code = p.hmac code

  abbrev pub mfa_answer_hash : Text → ℕ
  mfa_answer_hash answer = mfa_code_hash (normalized_answer answer)

  abbrev hashed_answers : List (Question × Text) → List (Question × ℕ)
  hashed_answers [] = []
  hashed_answers ((q, answer) ∷ rest) = (q, mfa_answer_hash answer) ∷ hashed_answers rest

  unfoldable pub issue_mfa_challenge : User → Action MfaChallengeResponse
  unfolding create_mfa_token decode_mfa_token create_mfa_challenge require_email_delivery
  issue_mfa_challenge user = do
    drawn ← random p
    let code = digits_of 8 (drawn % 100_000_000)
    picked ← random p
    let question_id = choose (picked % 5) mfa_security_questions
    token ← create_mfa_token p user.id
    now ← clock
    payload ← or_raise (decode_mfa_token p now token) (http 400 invalid_mfa_challenge)
    expires_at ← mfa_token_expiry payload
    jti ← mfa_token_jti payload
    row ←
        create_mfa_challenge p user.id (p.sha256 token) jti (mfa_code_hash code) question_id
          expires_at
    require_email_delivery (← send p (mail_to user (mfa_code code)))
    pure (record {
      challenge_token = token;
      expires_at = expires_at;
      security_question_id = question_id;
    })

  -- The user of a challenge that was rate limited is told, if there still is one.
  unfoldable pub notify_rate_limited : Option User → Action Bool
  unfolding send_security_notification
  notify_rate_limited none = pure true
  notify_rate_limited (some user) = send_security_notification p user mfa_rate_limited

  -- A wrong code or answer: one more failure, and at the last one the token is blacklisted. Both
  -- are committed before the exception.
  unfoldable pub mfa_failure : MfaChallenge → ℕ → ℕ → ℕ → Action TokenResponse
  unfolding increment_mfa_challenge_failures blacklist_mfa_token get_user_by_id
  mfa_failure challenge user_id token_hash token_jti = do
    failures ← increment_mfa_challenge_failures challenge
    if leb p.settings.mfa_max_attempts failures
        then (do
          blacklist_mfa_token user_id token_hash token_jti
          user ← get_user_by_id user_id
          notify_rate_limited user
          commit
          raise (http 429 too_many_mfa_attempts))
        else (do commit; raise (http 400 invalid_mfa_challenge))

  -- Code and answer were right: the challenge is used up, and a session opens.
  unfoldable pub complete_mfa : ℕ → ℕ → ℕ → Action TokenResponse
  unfolding get_user_by_id blacklist_mfa_token
  complete_mfa user_id token_hash token_jti = do
    found ← get_user_by_id user_id
    user ← or_raise found (http 400 invalid_mfa_challenge)
    raise_if (not user.mfa_enabled) (http 400 invalid_mfa_challenge)
    blacklist_mfa_token user.id token_hash token_jti
    token_response p user

  unfoldable pub verify_mfa_challenge : ℕ → Text → Text → Action TokenResponse
  unfolding decode_mfa_token is_mfa_token_blacklisted get_mfa_challenge_by_hash
      get_mfa_security_question
  verify_mfa_challenge token code security_answer = do
    now ← clock
    payload ← or_raise (decode_mfa_token p now token) (http 400 invalid_mfa_challenge)
    let token_hash = p.sha256 token
    user_id ← mfa_token_subject payload
    token_jti ← mfa_token_jti payload
    expires_at ← mfa_token_expiry payload
    listed ← is_mfa_token_blacklisted token_hash
    raise_if (leb expires_at now || listed) (http 400 invalid_mfa_challenge)
    found ← get_mfa_challenge_by_hash token_hash
    challenge ← or_raise found (http 400 invalid_mfa_challenge)
    listed_since ← is_mfa_token_blacklisted token_hash
    if listed_since || wrong_code user_id token_jti now (mfa_code_hash code) challenge
        then mfa_failure challenge user_id token_hash token_jti
        else (do
          question ← get_mfa_security_question user_id challenge.security_question_id
          if wrong_answer (mfa_answer_hash security_answer) question
              then mfa_failure challenge user_id token_hash token_jti
              else complete_mfa user_id token_hash token_jti)

  -- The answers are stored, if MFA is turned on.
  unfoldable pub store_answers : User → Bool → List (Question × Text) → Action (Unit {0})
  unfolding replace_mfa_security_questions
  store_answers current_user false answers = pure tt
  store_answers current_user true answers = do
    raise_if (not (complete answers)) (http 422 answer_every_question)
    replace_mfa_security_questions current_user.id (hashed_answers answers)

  unfoldable pub update_mfa_settings : User → Text → Bool → List (Question × Text) → Action Bool
  unfolding update_user_mfa_enabled send_security_notification
  update_mfa_settings current_user current_password enabled answers = do
    raise_if (not (p.verify_password current_password current_user.hashed_password))
        (http 400 current_password_incorrect)
    raise_if (enabled && not current_user.is_email_verified) (http 400 verify_email_before_mfa)
    store_answers current_user enabled answers
    user ← update_user_mfa_enabled current_user enabled
    send_security_notification p user (if enabled then mfa_was_enabled else mfa_was_disabled)
    pure user.mfa_enabled

  -- What a request for an MFA reset does for a user with MFA.
  unfoldable pub send_mfa_reset : User → Action (Unit {0})
  unfolding send_security_notification
  send_mfa_reset user = do
    token ← issue_account_token p user mfa_reset true none
    send p (mail_to user (mfa_reset_link token))
    send_security_notification p user mfa_reset_requested
    pure tt

  -- The answer is the same whether or not there is such a user.
  unfoldable pub request_mfa_reset : Text → Action (Unit {0})
  unfolding normalize_email_address get_user_by_email
  request_mfa_reset email = do
    found ← get_user_by_email (normalize_email_address email)
    elim found [
      | none ↦ pure tt
      | some user ↦ if user.mfa_enabled then send_mfa_reset user else pure tt
    ]

  -- The result says whether the security mail was delivered.
  unfoldable pub confirm_mfa_reset : ℕ → Action Bool
  unfolding decode_account_token get_account_token_by_hash get_user_by_id mark_account_token_used
      delete_mfa_challenges_for_user update_user_mfa_enabled
      revoke_active_refresh_token_sessions_for_user send_security_notification
  confirm_mfa_reset token = do
    now ← clock
    payload ← or_raise (decode_account_token p now token mfa_reset) (http 400 invalid_mfa_challenge)
    user_id ← account_token_subject payload
    found ← get_account_token_by_hash (p.sha256 token) mfa_reset
    row ← unless_refused (reset_spent user_id now) found (http 400 invalid_mfa_challenge)
    found_user ← get_user_by_id user_id
    user ← or_raise found_user (http 400 invalid_mfa_challenge)
    mark_account_token_used row now
    delete_mfa_challenges_for_user user.id
    update_user_mfa_enabled user false
    revoke_active_refresh_token_sessions_for_user user.id now mfa_was_reset
    send_security_notification p user mfa_reset_done
