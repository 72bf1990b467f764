-- ===== src/Auth/Answers.antt =====
-- Codes, answers and the tests on them that the MFA code of
-- backend/flipradar/services/auth_service.py makes.
use flipradar.Base.{
  ℕ, zero, suc, ◌+◌, ◌/◌, ◌%◌, ◌^◌, Bool, true, false, not, ◌&&◌, ◌||◌, Option, none, some, List,
  [], ◌∷◌, Text, leb, ◌==◌, if◌then◌else◌, is_some, length, some_row,
}
use flipradar.Auth.Rows.{
  MfaChallenge, Question, question_eq, mfa_security_questions, first_pet, MfaSecurityQuestion,
  AccountToken,
}
use flipradar.Auth.Stores.Users.{is_space, lower, lstrip}

-- `f"{n:08d}"` for n below 10 ^ 8: k digits of n, with leading zeros.
abbrev pub digits_of : ℕ → ℕ → Text
digits_of zero n = []
digits_of (suc k) n = (48 + n / 10 ^ k % 10) ∷ digits_of k n

-- The n-th of the questions.
abbrev pub choose : ℕ → List Question → Question
choose n [] = first_pet
choose zero (q ∷ qs) = q
choose (suc n) (q ∷ qs) = choose n qs

-- Runs of white space become one space, and one at the end goes: `" ".join(s.split())` of a text
-- that does not begin with white space. `owed` says that a space comes before the next character.
abbrev pub squeeze : Bool → Text → Text
squeeze owed [] = []
squeeze owed (c ∷ s) =
    let rest = squeeze (is_space c) s in
    if is_space c then rest else if owed then 32 ∷ c ∷ rest else c ∷ rest

abbrev pub normalized_answer : Text → Text
normalized_answer answer = squeeze false (lower (lstrip answer))

-- Each supported question is answered, and there are no more answers than questions.
abbrev pub answers_all : List Question → List (Question × Text) → Bool
answers_all [] answers = true
answers_all (q ∷ qs) answers =
    some_row (λ (a : Question × Text). question_eq a.0 q) answers && answers_all qs answers

abbrev pub complete : List (Question × Text) → Bool
complete answers =
    answers_all mfa_security_questions answers && length answers == length mfa_security_questions

-- The stored answer does not match.
abbrev pub wrong_answer : ℕ → Option MfaSecurityQuestion → Bool
wrong_answer answer_hash none = true
wrong_answer answer_hash (some q) = not (q.answer_hash == answer_hash)

-- The challenge row is not the one of the token, is over, or has another code.
abbrev pub wrong_code : ℕ → ℕ → ℕ → ℕ → MfaChallenge → Bool
wrong_code user_id token_jti now code_hash c =
    not (c.user_id == user_id)
    || not (c.token_jti == token_jti)
    || leb c.expires_at now
    || not (c.code_hash == code_hash)

-- The test of a reset token in `confirm_mfa_reset`.
abbrev pub reset_spent : ℕ → ℕ → AccountToken → Bool
reset_spent user_id now t =
    not (t.user_id == user_id) || is_some t.used_at || is_some t.revoked_at || leb t.expires_at now
