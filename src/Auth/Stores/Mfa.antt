-- ===== src/Auth/Stores/Mfa.antt =====
-- The MFA challenges, the security questions and the blacklist of MFA tokens.
use flipradar.Base.{
  ℕ, ◌+◌, Bool, not, ◌&&◌, ◌||◌, Option, List, [], ◌∷◌, ◌++◌, ◌==◌, find, some_row, update_where,
  select, is_some, length,
}
use flipradar.Auth.Rows.{
  MfaChallenge, MfaSecurityQuestion, MfaTokenBlacklist, Question, question_eq,
}
use flipradar.Auth.Platform.{Platform}
use flipradar.Auth.Session.{
  Action, ◌>>=◌, ◌>>◌, pure, query, write, insert_unless, random, integrity,
}

abbrev pub challenge_is : ℕ → MfaChallenge → Bool
challenge_is i c = c.id == i

abbrev pub challenge_has_hash : ℕ → MfaChallenge → Bool
challenge_has_hash token_hash c = c.token_hash == token_hash

abbrev pub mfa_revoked_has_hash : ℕ → MfaTokenBlacklist → Bool
mfa_revoked_has_hash token_hash b = b.token_hash == token_hash

-- A duplicate here is the database's `IntegrityError`, which nothing translates.
unfoldable pub create_mfa_challenge : Platform → ℕ → ℕ → ℕ → ℕ → Question → ℕ → Action MfaChallenge
create_mfa_challenge p user_id token_hash token_jti code_hash security_question_id expires_at = do
  i ← random p
  let challenge : MfaChallenge = record {
    id = i;
    user_id = user_id;
    token_hash = token_hash;
    token_jti = token_jti;
    code_hash = code_hash;
    security_question_id = security_question_id;
    failed_attempt_count = 0;
    expires_at = expires_at;
  }
  insert_unless integrity
      (λ d. some_row (λ c. c.token_hash == token_hash || c.token_jti == token_jti) d.challenges)
      (λ d. record d { challenges = d.challenges ++ (challenge ∷ []) })
  pure challenge

unfoldable pub get_mfa_challenge_by_hash : ℕ → Action (Option MfaChallenge)
get_mfa_challenge_by_hash token_hash = query λ d. find (challenge_has_hash token_hash) d.challenges

unfoldable pub is_mfa_token_blacklisted : ℕ → Action Bool
is_mfa_token_blacklisted token_hash =
    query λ d. is_some (find (mfa_revoked_has_hash token_hash) d.mfa_blacklist)

unfoldable pub blacklist_mfa_token : ℕ → ℕ → ℕ → Action (Unit {0})
blacklist_mfa_token user_id token_hash token_jti =
    let entry : MfaTokenBlacklist = record {
      user_id = user_id;
      token_hash = token_hash;
      token_jti = token_jti;
    } in
    insert_unless integrity
      (λ d. some_row (λ b. b.token_hash == token_hash || b.token_jti == token_jti) d.mfa_blacklist)
      (λ d. record d { mfa_blacklist = d.mfa_blacklist ++ (entry ∷ []) })

unfoldable pub clear_mfa_token_blacklist : Action ℕ
clear_mfa_token_blacklist = do
  gone ← query λ d. length d.mfa_blacklist
  write λ d. record d { mfa_blacklist = [] }
  pure gone

abbrev pub question_rows : ℕ → List (Question × ℕ) → List MfaSecurityQuestion
question_rows user_id [] = []
question_rows user_id ((q, answer_hash) ∷ rest) =
    record { user_id = user_id; question_id = q; answer_hash = answer_hash }
    ∷ question_rows user_id rest

-- The questions come from a dictionary, so that no question is given twice.
unfoldable pub replace_mfa_security_questions : ℕ → List (Question × ℕ) → Action (Unit {0})
replace_mfa_security_questions user_id questions = write λ d. record d {
  questions =
      select (λ q. not (q.user_id == user_id)) d.questions ++ question_rows user_id questions;
}

unfoldable pub get_mfa_security_question : ℕ → Question → Action (Option MfaSecurityQuestion)
get_mfa_security_question user_id question_id =
    query λ d. find (λ q. q.user_id == user_id && question_eq q.question_id question_id) d.questions

abbrev pub one_more_failure : MfaChallenge → MfaChallenge
one_more_failure c = record c { failed_attempt_count = c.failed_attempt_count + 1 }

unfoldable pub increment_mfa_challenge_failures : MfaChallenge → Action ℕ
increment_mfa_challenge_failures challenge = do
  write λ d. record d {
    challenges = update_where (challenge_is challenge.id) one_more_failure d.challenges;
  }
  pure (challenge.failed_attempt_count + 1)

unfoldable pub delete_mfa_challenges_for_user : ℕ → Action (Unit {0})
delete_mfa_challenges_for_user user_id =
    write λ d. record d { challenges = select (λ c. not (c.user_id == user_id)) d.challenges }
