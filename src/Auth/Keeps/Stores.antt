-- ===== src/Auth/Keeps/Stores.antt =====
-- Every store operation keeps a lasting property, whether it returns or raises.
use flipradar.Base.{ℕ, Bool, Option, List, Text}
use flipradar.Auth.Rows.{
  User, AccountToken, RefreshTokenSession, MfaChallenge, Database, Purpose, Reason, Question,
}
use flipradar.Auth.Platform.{Platform}
use flipradar.Auth.Keeps.Rules.{Keeps, Keeps-write, Keeps-insert_unless, keeps_rules}
use flipradar.Auth.Stores.Users.{
  create_user, update_user_display_name, mark_user_email_verified, update_user_password_hash,
  schedule_user_deletion, update_user_mfa_enabled, stage_user_email_change, apply_user_email_change,
  get_user_by_username_or_email, get_user_by_email, get_user_by_id,
}
use flipradar.Auth.Stores.AccountTokens.{
  create_account_token_record, get_account_token_by_hash, get_latest_account_token_for_user,
  mark_account_token_sent, mark_account_token_used, revoke_account_tokens_for_user,
}
use flipradar.Auth.Stores.Sessions.{
  is_refresh_token_blacklisted, blacklist_refresh_token, create_refresh_token_session,
  get_refresh_token_session_by_hash, list_active_refresh_token_sessions_for_user,
  get_refresh_token_session_for_user, revoke_refresh_token_session,
  revoke_active_refresh_token_sessions_for_user,
}
use flipradar.Auth.Stores.Mfa.{
  create_mfa_challenge, get_mfa_challenge_by_hash, is_mfa_token_blacklisted, blacklist_mfa_token,
  replace_mfa_security_questions, get_mfa_security_question, increment_mfa_challenge_failures,
  delete_mfa_challenges_for_user,
}
use flipradar.Auth.Keeps.Lasting.{Lasting}

ruleset lasting_rules = (keeps_rules, Keeps-write, Keeps-insert_unless)

module _ {Q : Database → Type 0} (l : Lasting Q) where
  pub create_user-Keeps : (p : Platform) (n m e : Text) (h : ℕ) → Keeps Q (create_user p n m e h)
  unfolding create_user
  create_user-Keeps p n m e h = search (lasting_rules, l.users) depth 12

  pub update_user_display_name-Keeps :
      (u : User) (n : Option Text) → Keeps Q (update_user_display_name u n)
  unfolding update_user_display_name
  update_user_display_name-Keeps u n = search (lasting_rules, l.users) depth 12

  pub mark_user_email_verified-Keeps : (u : User) (at : ℕ) → Keeps Q (mark_user_email_verified u at)
  unfolding mark_user_email_verified
  mark_user_email_verified-Keeps u at = search (lasting_rules, l.users) depth 12

  pub update_user_password_hash-Keeps : (u : User) (h : ℕ) → Keeps Q (update_user_password_hash u h)
  unfolding update_user_password_hash
  update_user_password_hash-Keeps u h = search (lasting_rules, l.users) depth 12

  pub schedule_user_deletion-Keeps : (u : User) (r s : ℕ) → Keeps Q (schedule_user_deletion u r s)
  unfolding schedule_user_deletion
  schedule_user_deletion-Keeps u r s = search (lasting_rules, l.users) depth 12

  pub update_user_mfa_enabled-Keeps : (u : User) (b : Bool) → Keeps Q (update_user_mfa_enabled u b)
  unfolding update_user_mfa_enabled
  update_user_mfa_enabled-Keeps u b = search (lasting_rules, l.users) depth 12

  pub stage_user_email_change-Keeps : (u : User) (e : Text) → Keeps Q (stage_user_email_change u e)
  unfolding stage_user_email_change
  stage_user_email_change-Keeps u e = search (lasting_rules, l.users) depth 12

  pub apply_user_email_change-Keeps :
      (u : User) (e : Text) (at : ℕ) → Keeps Q (apply_user_email_change u e at)
  unfolding apply_user_email_change
  apply_user_email_change-Keeps u e at = search (lasting_rules, l.users) depth 12

  pub get_user_by_username_or_email-Keeps : (s : Text) → Keeps Q (get_user_by_username_or_email s)
  unfolding get_user_by_username_or_email
  get_user_by_username_or_email-Keeps s = search lasting_rules depth 12

  pub get_user_by_email-Keeps : (s : Text) → Keeps Q (get_user_by_email s)
  unfolding get_user_by_email
  get_user_by_email-Keeps s = search lasting_rules depth 12

  pub get_user_by_id-Keeps : (i : ℕ) → Keeps Q (get_user_by_id i)
  unfolding get_user_by_id
  get_user_by_id-Keeps i = search lasting_rules depth 12

  pub create_account_token_record-Keeps :
      (p : Platform) (i : ℕ) (pu : Purpose) (h j e : ℕ) (s : Option ℕ) (n : ℕ)
      → Keeps Q (create_account_token_record p i pu h j e s n)
  unfolding create_account_token_record
  create_account_token_record-Keeps p i pu h j e s n =
      search (lasting_rules, l.token_added) depth 12

  pub get_account_token_by_hash-Keeps :
      (h : ℕ) (pu : Purpose) → Keeps Q (get_account_token_by_hash h pu)
  unfolding get_account_token_by_hash
  get_account_token_by_hash-Keeps h pu = search lasting_rules depth 12

  pub get_latest_account_token_for_user-Keeps :
      (i : ℕ) (pu : Purpose) → Keeps Q (get_latest_account_token_for_user i pu)
  unfolding get_latest_account_token_for_user
  get_latest_account_token_for_user-Keeps i pu = search lasting_rules depth 12

  pub mark_account_token_sent-Keeps :
      (t : AccountToken) (at : ℕ) → Keeps Q (mark_account_token_sent t at)
  unfolding mark_account_token_sent
  mark_account_token_sent-Keeps t at = search (lasting_rules, l.token_sent) depth 12

  pub mark_account_token_used-Keeps :
      (t : AccountToken) (at : ℕ) → Keeps Q (mark_account_token_used t at)
  unfolding mark_account_token_used
  mark_account_token_used-Keeps t at = search (lasting_rules, l.token_used) depth 12

  pub revoke_account_tokens_for_user-Keeps :
      (i : ℕ) (pu : Purpose) (at : ℕ) (r : Reason)
      → Keeps Q (revoke_account_tokens_for_user i pu at r)
  unfolding revoke_account_tokens_for_user
  revoke_account_tokens_for_user-Keeps i pu at r = search (lasting_rules, l.token_revoked) depth 12

  pub is_refresh_token_blacklisted-Keeps : (h : ℕ) → Keeps Q (is_refresh_token_blacklisted h)
  unfolding is_refresh_token_blacklisted
  is_refresh_token_blacklisted-Keeps h = search lasting_rules depth 12

  pub blacklist_refresh_token-Keeps :
      (i h j e : ℕ) (r : Reason) → Keeps Q (blacklist_refresh_token i h j e r)
  unfolding blacklist_refresh_token
  blacklist_refresh_token-Keeps i h j e r = search (lasting_rules, l.blacklisted) depth 12

  pub create_refresh_token_session-Keeps :
      (p : Platform) (i h j e at : ℕ) → Keeps Q (create_refresh_token_session p i h j e at)
  unfolding create_refresh_token_session
  create_refresh_token_session-Keeps p i h j e at = search (lasting_rules, l.session_added) depth 12

  pub get_refresh_token_session_by_hash-Keeps :
      (h : ℕ) → Keeps Q (get_refresh_token_session_by_hash h)
  unfolding get_refresh_token_session_by_hash
  get_refresh_token_session_by_hash-Keeps h = search lasting_rules depth 12

  pub list_active_refresh_token_sessions_for_user-Keeps :
      (i at : ℕ) → Keeps Q (list_active_refresh_token_sessions_for_user i at)
  unfolding list_active_refresh_token_sessions_for_user
  list_active_refresh_token_sessions_for_user-Keeps i at = search lasting_rules depth 12

  pub get_refresh_token_session_for_user-Keeps :
      (i j : ℕ) → Keeps Q (get_refresh_token_session_for_user i j)
  unfolding get_refresh_token_session_for_user
  get_refresh_token_session_for_user-Keeps i j = search lasting_rules depth 12

  pub revoke_refresh_token_session-Keeps :
      (s : RefreshTokenSession) (at : ℕ) (r : Reason)
      → Keeps Q (revoke_refresh_token_session s at r)
  unfolding revoke_refresh_token_session
  revoke_refresh_token_session-Keeps s at r = search (lasting_rules, l.session_revoked) depth 12

  pub revoke_active_refresh_token_sessions_for_user-Keeps :
      (i at : ℕ) (r : Reason) → Keeps Q (revoke_active_refresh_token_sessions_for_user i at r)
  unfolding revoke_active_refresh_token_sessions_for_user
      list_active_refresh_token_sessions_for_user
  revoke_active_refresh_token_sessions_for_user-Keeps i at r =
      search (lasting_rules, l.session_revoked) depth 12

  pub create_mfa_challenge-Keeps :
      (p : Platform) (i h j c : ℕ) (q : Question) (e : ℕ)
      → Keeps Q (create_mfa_challenge p i h j c q e)
  unfolding create_mfa_challenge
  create_mfa_challenge-Keeps p i h j c q e = search (lasting_rules, l.mfa_rows) depth 12

  pub get_mfa_challenge_by_hash-Keeps : (h : ℕ) → Keeps Q (get_mfa_challenge_by_hash h)
  unfolding get_mfa_challenge_by_hash
  get_mfa_challenge_by_hash-Keeps h = search lasting_rules depth 12

  pub is_mfa_token_blacklisted-Keeps : (h : ℕ) → Keeps Q (is_mfa_token_blacklisted h)
  unfolding is_mfa_token_blacklisted
  is_mfa_token_blacklisted-Keeps h = search lasting_rules depth 12

  pub blacklist_mfa_token-Keeps : (i h j : ℕ) → Keeps Q (blacklist_mfa_token i h j)
  unfolding blacklist_mfa_token
  blacklist_mfa_token-Keeps i h j = search (lasting_rules, l.mfa_blacklisted) depth 12

  pub replace_mfa_security_questions-Keeps :
      (i : ℕ) (qs : List (Question × ℕ)) → Keeps Q (replace_mfa_security_questions i qs)
  unfolding replace_mfa_security_questions
  replace_mfa_security_questions-Keeps i qs = search (lasting_rules, l.mfa_rows) depth 12

  pub get_mfa_security_question-Keeps :
      (i : ℕ) (q : Question) → Keeps Q (get_mfa_security_question i q)
  unfolding get_mfa_security_question
  get_mfa_security_question-Keeps i q = search lasting_rules depth 12

  pub increment_mfa_challenge_failures-Keeps :
      (c : MfaChallenge) → Keeps Q (increment_mfa_challenge_failures c)
  unfolding increment_mfa_challenge_failures
  increment_mfa_challenge_failures-Keeps c = search (lasting_rules, l.mfa_rows) depth 12

  pub delete_mfa_challenges_for_user-Keeps : (i : ℕ) → Keeps Q (delete_mfa_challenges_for_user i)
  unfolding delete_mfa_challenges_for_user
  delete_mfa_challenges_for_user-Keeps i = search (lasting_rules, l.mfa_rows) depth 12

pub ruleset store_rules = (
  keeps_rules, create_user-Keeps, update_user_display_name-Keeps, mark_user_email_verified-Keeps,
  update_user_password_hash-Keeps, schedule_user_deletion-Keeps, update_user_mfa_enabled-Keeps,
  stage_user_email_change-Keeps, apply_user_email_change-Keeps, get_user_by_username_or_email-Keeps,
  get_user_by_email-Keeps, get_user_by_id-Keeps, create_account_token_record-Keeps,
  get_account_token_by_hash-Keeps, get_latest_account_token_for_user-Keeps,
  mark_account_token_sent-Keeps, mark_account_token_used-Keeps,
  revoke_account_tokens_for_user-Keeps, is_refresh_token_blacklisted-Keeps,
  blacklist_refresh_token-Keeps, create_refresh_token_session-Keeps,
  get_refresh_token_session_by_hash-Keeps, list_active_refresh_token_sessions_for_user-Keeps,
  get_refresh_token_session_for_user-Keeps, revoke_refresh_token_session-Keeps,
  revoke_active_refresh_token_sessions_for_user-Keeps, create_mfa_challenge-Keeps,
  get_mfa_challenge_by_hash-Keeps, is_mfa_token_blacklisted-Keeps, blacklist_mfa_token-Keeps,
  replace_mfa_security_questions-Keeps, get_mfa_security_question-Keeps,
  increment_mfa_challenge_failures-Keeps, delete_mfa_challenges_for_user-Keeps,
)
