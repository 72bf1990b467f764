-- ===== src/Auth/Platform.antt =====
-- What the account code calls and this repository does not implement: PyJWT, the password hasher,
-- the digests, random draws and the mail server. With them stand the settings and the mails.
use flipradar.Base.{ℕ, ◌≡◌, Bool, Option, some, Text, ◌<◌, ◌*◌, ◌≤◌}
use flipradar.Auth.Rows.{TokenType, Purpose}

-- The claims of a signed token. An absent claim, or one of another type than the code asks for, is
-- `none`: a subject that is no UUID, an expiry that is no integer, an empty `jti`.
pub record Claims : Type 0 where
  pub subject : Option ℕ
  pub typ : Option TokenType
  pub jti : Option ℕ
  pub iat : Option ℕ
  pub exp : Option ℕ
  pub purpose : Option Purpose
  pub new_email : Option Text

-- `EmailSendResult`
pub record EmailSendResult : Type 0 where
  pub attempted : Bool
  pub sent : Bool

pub data SecurityEvent : Type 0 where
  mfa_rate_limited mfa_was_enabled mfa_was_disabled : SecurityEvent
  mfa_reset_requested mfa_reset_done : SecurityEvent
  password_changed password_was_reset : SecurityEvent
  email_change_requested : Text → SecurityEvent

-- What a mail says. A link carries the token that its URL holds.
pub data Content : Type 0 where
  registration : Content
  verify_email_link : ℕ → Content
  reset_password_link : ℕ → Content
  mfa_reset_link : ℕ → Content
  email_change_link : Text → ℕ → Content
  mfa_code : Text → Content
  security : SecurityEvent → Content
  deletion_scheduled : ℕ → Content

pub record Mail : Type 0 where
  pub to_address : Text
  pub username : Text
  pub content : Content

pub record AuthSettings : Type 0 where
  pub access_token_expire_minutes : ℕ
  pub refresh_token_expire_days : ℕ
  pub email_verification_token_expire_minutes : ℕ
  pub password_reset_token_expire_minutes : ℕ
  pub mfa_token_expire_minutes : ℕ
  pub mfa_max_attempts : ℕ
  pub account_token_resend_cooldown_seconds : ℕ

pub record Platform : Type 0 where
  pub settings : AuthSettings
  -- `jwt.encode`, and `jwt.decode` at an instant, which is `none` where it raises.
  pub encode : Claims → ℕ
  pub decode : ℕ → ℕ → Option Claims
  pub sha256 : ℕ → ℕ
  pub hmac : Text → ℕ
  -- The hash takes a salt.
  pub hash_password : ℕ → Text → ℕ
  pub verify_password : Text → ℕ → Bool
  -- The n-th random draw, and what the mail server makes of the n-th mail.
  pub draw : ℕ → ℕ
  pub deliver : ℕ → Mail → Option EmailSendResult

-- What the code relies on of PyJWT, for the claims that it signs: they read back from the second they
-- were issued in until the expiry.
pub record ReadsBack (p : Platform) (c : Claims) : Type 0 where
  pub decode-encode :
      (now i e : ℕ)
      → c.iat ≡ some i
      → i * 1_000_000 ≤ now
      → c.exp ≡ some e
      → now < e * 1_000_000
      → p.decode now (p.encode c) ≡ some c
