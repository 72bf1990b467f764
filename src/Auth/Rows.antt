-- ===== src/Auth/Rows.antt =====
-- The rows that the account code reads and writes: backend/flipradar/domain/models/user.py,
-- account_token.py, refresh_token.py and mfa.py. Identifiers, hashes, signed tokens and their `jti`
-- are compared only, so they are numbers; instants are microseconds.
use flipradar.Base.{ℕ, Bool, true, false, Option, List, [], ◌∷◌, Text, ◌==◌}

pub data TokenType : Type 0 where
  access refresh account mfa : TokenType

pub data Purpose : Type 0 where
  email_verification password_reset email_change mfa_reset : Purpose

pub data Reason : Type 0 where
  reissued verified email_change_complete password_reset_complete : Reason
  rotation logout mfa_was_reset user_revoked_session user_revoked_all_sessions : Reason

-- `other` is an identifier that the code does not know.
pub data Question : Type 0 where
  first_pet childhood_street first_school favorite_teacher birth_city : Question
  other : ℕ → Question

abbrev pub type_eq : TokenType → TokenType → Bool
type_eq access access = true
type_eq refresh refresh = true
type_eq account account = true
type_eq mfa mfa = true
type_eq _ _ = false

abbrev pub purpose_eq : Purpose → Purpose → Bool
purpose_eq email_verification email_verification = true
purpose_eq password_reset password_reset = true
purpose_eq email_change email_change = true
purpose_eq mfa_reset mfa_reset = true
purpose_eq _ _ = false

abbrev pub question_eq : Question → Question → Bool
question_eq first_pet first_pet = true
question_eq childhood_street childhood_street = true
question_eq first_school first_school = true
question_eq favorite_teacher favorite_teacher = true
question_eq birth_city birth_city = true
question_eq (other a) (other b) = a == b
question_eq _ _ = false

-- `MFA_SECURITY_QUESTIONS`, by its keys.
abbrev pub mfa_security_questions : List Question
mfa_security_questions =
    first_pet ∷ childhood_street ∷ first_school ∷ favorite_teacher ∷ birth_city ∷ []

pub record User : Type 0 where
  pub id : ℕ
  pub username : Text
  pub display_name : Option Text
  pub email : Text
  pub pending_email : Option Text
  pub hashed_password : ℕ
  pub is_email_verified : Bool
  pub mfa_enabled : Bool
  pub email_verified_at : Option ℕ
  pub deletion_requested_at : Option ℕ
  pub deletion_scheduled_at : Option ℕ

pub record AccountToken : Type 0 where
  pub id : ℕ
  pub user_id : ℕ
  pub purpose : Purpose
  pub token_hash : ℕ
  pub token_jti : ℕ
  pub expires_at : ℕ
  pub used_at : Option ℕ
  pub revoked_at : Option ℕ
  pub revoked_reason : Option Reason
  pub last_sent_at : Option ℕ
  pub sent_count : ℕ
  pub created_at : ℕ

pub record RefreshTokenSession : Type 0 where
  pub id : ℕ
  pub user_id : ℕ
  pub token_hash : ℕ
  pub token_jti : ℕ
  pub expires_at : ℕ
  pub last_seen_at : ℕ
  pub revoked_at : Option ℕ
  pub revoked_reason : Option Reason
  pub created_at : ℕ

pub record RefreshTokenBlacklist : Type 0 where
  pub user_id : ℕ
  pub token_hash : ℕ
  pub token_jti : ℕ
  pub expires_at : ℕ
  pub reason : Reason

pub record MfaChallenge : Type 0 where
  pub id : ℕ
  pub user_id : ℕ
  pub token_hash : ℕ
  pub token_jti : ℕ
  pub code_hash : ℕ
  pub security_question_id : Question
  pub failed_attempt_count : ℕ
  pub expires_at : ℕ

pub record MfaSecurityQuestion : Type 0 where
  pub user_id : ℕ
  pub question_id : Question
  pub answer_hash : ℕ

pub record MfaTokenBlacklist : Type 0 where
  pub user_id : ℕ
  pub token_hash : ℕ
  pub token_jti : ℕ

-- The tables of the account code; of a portfolio only its owner's identifier is kept, for the
-- default portfolio that registration opens.
pub record Database : Type 0 where
  pub users : List User
  pub default_portfolios : List ℕ
  pub account_tokens : List AccountToken
  pub sessions : List RefreshTokenSession
  pub blacklist : List RefreshTokenBlacklist
  pub challenges : List MfaChallenge
  pub questions : List MfaSecurityQuestion
  pub mfa_blacklist : List MfaTokenBlacklist
