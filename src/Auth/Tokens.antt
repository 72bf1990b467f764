-- ===== src/Auth/Tokens.antt =====
-- Signed tokens: backend/flipradar/api/dependencies/auth.py, and the readers of their claims in
-- services/auth_service.py.
use flipradar.Base.{ℕ, ◌+◌, ◌*◌, ◌/◌, Bool, false, Option, none, some, Text, if◌then◌else◌}
use flipradar.Auth.Rows.{
  TokenType, access, refresh, account, mfa, type_eq, Purpose, password_reset, purpose_eq,
}
use flipradar.Auth.Platform.{Platform, Claims}
use flipradar.Auth.Session.{
  Action, ◌>>=◌, pure, or_raise, clock, random, http, not_authenticated, invalid_refresh_token,
  invalid_mfa_challenge, invalid_verification_token,
}

abbrev pub microseconds : ℕ → ℕ
microseconds s = s * 1_000_000

-- `payload.get("typ") == expected_type`
abbrev pub has_type : TokenType → Option TokenType → Bool
has_type t none = false
has_type t (some u) = type_eq u t

-- `payload.get("purpose") == expected_purpose`
abbrev pub has_purpose : Purpose → Option Purpose → Bool
has_purpose t none = false
has_purpose t (some u) = purpose_eq u t

module _ (p : Platform) where
  -- The payload that `_create_token` signs. `exp` and `iat` are whole seconds.
  unfoldable pub payload_of : ℕ → TokenType → ℕ → Option Purpose → Option Text → ℕ → ℕ → Claims
  payload_of subject token_type expires_at purpose new_email jti now = record {
    subject = some subject;
    typ = some token_type;
    jti = some jti;
    iat = some (now / 1_000_000);
    exp = some (expires_at / 1_000_000);
    purpose = purpose;
    new_email = new_email;
  }

  unfoldable pub create_token : ℕ → TokenType → ℕ → Option Purpose → Option Text → Action ℕ
  unfolding payload_of
  create_token subject token_type expires_at purpose new_email = do
    jti ← random p
    now ← clock
    pure (p.encode (payload_of subject token_type expires_at purpose new_email jti now))

  unfoldable pub create_access_token : ℕ → Action ℕ
  unfolding create_token
  create_access_token subject = do
    now ← clock
    let expires_at = now + microseconds (p.settings.access_token_expire_minutes * 60)
    create_token subject access expires_at none none

  unfoldable pub create_refresh_token : ℕ → Action ℕ
  unfolding create_token
  create_refresh_token subject = do
    now ← clock
    let expires_at = now + microseconds (p.settings.refresh_token_expire_days * 86_400)
    create_token subject refresh expires_at none none

  abbrev pub account_token_expires_at : Purpose → ℕ → ℕ
  account_token_expires_at purpose now =
      let expire_minutes =
        if purpose_eq purpose password_reset
        then p.settings.password_reset_token_expire_minutes
        else p.settings.email_verification_token_expire_minutes in
      now + microseconds (expire_minutes * 60)

  unfoldable pub create_account_token : ℕ → Purpose → Option Text → Action ℕ
  unfolding create_token
  create_account_token subject purpose new_email = do
    now ← clock
    create_token subject account (account_token_expires_at purpose now) (some purpose) new_email

  unfoldable pub create_mfa_token : ℕ → Action ℕ
  unfolding create_token
  create_mfa_token subject = do
    now ← clock
    let expires_at = now + microseconds (p.settings.mfa_token_expire_minutes * 60)
    create_token subject mfa expires_at none none

  -- The payload of a token that reads back with the expected type. `none` is the 401 of
  -- `_not_authenticated`, which every caller but one translates.
  unfoldable pub decode_token : ℕ → ℕ → TokenType → Option Claims
  decode_token now token expected_type = elim (p.decode now token) [
    | none ↦ none
    | some payload ↦ if has_type expected_type payload.typ then some payload else none
  ]

  unfoldable pub decode_account_token : ℕ → ℕ → Purpose → Option Claims
  unfolding decode_token
  decode_account_token now token expected_purpose = elim (decode_token now token account) [
    | none ↦ none
    | some payload ↦ if has_purpose expected_purpose payload.purpose then some payload else none
  ]

  unfoldable pub decode_mfa_token : ℕ → ℕ → Option Claims
  unfolding decode_token
  decode_mfa_token now token = decode_token now token mfa

  unfoldable pub decode_refresh_token : ℕ → Action Claims
  unfolding decode_token
  decode_refresh_token token = do
    now ← clock
    or_raise (decode_token now token refresh) (http 401 not_authenticated)

abbrev pub refresh_token_subject : Claims → Action ℕ
refresh_token_subject payload = or_raise payload.subject (http 401 invalid_refresh_token)

abbrev pub refresh_token_jti : Claims → Action ℕ
refresh_token_jti payload = or_raise payload.jti (http 401 invalid_refresh_token)

abbrev pub refresh_token_expiry : Claims → Action ℕ
refresh_token_expiry payload = do
  exp ← or_raise payload.exp (http 401 invalid_refresh_token)
  pure (microseconds exp)

abbrev pub account_token_subject : Claims → Action ℕ
account_token_subject payload = or_raise payload.subject (http 400 invalid_verification_token)

abbrev pub account_token_jti : Claims → Action ℕ
account_token_jti payload = or_raise payload.jti (http 400 invalid_verification_token)

abbrev pub account_token_expiry : Claims → Action ℕ
account_token_expiry payload = do
  exp ← or_raise payload.exp (http 400 invalid_verification_token)
  pure (microseconds exp)

abbrev pub mfa_token_subject : Claims → Action ℕ
mfa_token_subject payload = or_raise payload.subject (http 400 invalid_mfa_challenge)

abbrev pub mfa_token_jti : Claims → Action ℕ
mfa_token_jti payload = or_raise payload.jti (http 400 invalid_mfa_challenge)

abbrev pub mfa_token_expiry : Claims → Action ℕ
mfa_token_expiry payload = do
  exp ← or_raise payload.exp (http 400 invalid_mfa_challenge)
  pure (microseconds exp)
