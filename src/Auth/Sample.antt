-- ===== src/Auth/Sample.antt =====
-- A platform, a user and tables on which requests can be run.
use flipradar.Auth.Requests.{Event, requested, me}
use flipradar.Auth.Platform.{Platform, Claims, AuthSettings}
use flipradar.Auth.Session.{World}
use flipradar.Base.{
  ℕ, ◌+◌, true, false, Option, none, some, List, [], ◌∷◌, Text, length, ◌==◌, if◌then◌else◌, ◌&&◌,
  leb, ltb,
}
use flipradar.Auth.Rows.{
  User, AccountToken, MfaChallenge, Database, TokenType, access, refresh, account, mfa, Purpose,
  email_verification, password_reset, email_change, mfa_reset, first_pet, RefreshTokenSession,
}

abbrev pub settings : AuthSettings
settings = record {
  access_token_expire_minutes = 15;
  refresh_token_expire_days = 30;
  email_verification_token_expire_minutes = 60;
  password_reset_token_expire_minutes = 30;
  mfa_token_expire_minutes = 10;
  mfa_max_attempts = 1;
  account_token_resend_cooldown_seconds = 60;
}

abbrev pub claims : TokenType → Option Purpose → Option Text → ℕ → Claims
claims kind purpose new_email jti = record {
  subject = some 7;
  typ = some kind;
  jti = some jti;
  iat = some 0;
  exp = some 1_000_000_000;
  purpose = purpose;
  new_email = new_email;
}

-- The number of a token by its type.
abbrev pub signed : Option TokenType → ℕ
signed none = 0
signed (some access) = 11
signed (some refresh) = 12
signed (some account) = 13
signed (some mfa) = 14

-- Some tokens that read back.
abbrev pub known : List (ℕ × Claims)
known =
    (1, claims refresh none none 101)
    ∷ (2, claims account (some email_verification) none 102)
    ∷ (3, claims account (some password_reset) none 103)
    ∷ (4, claims account (some email_change) (some (110 ∷ [])) 104)
    ∷ (5, claims account (some mfa_reset) none 105)
    ∷ (6, claims mfa none none 106)
    ∷ (12, claims refresh none none 112)
    ∷ (13, claims account (some password_reset) none 113)
    ∷ []

abbrev pub lookup : ℕ → List (ℕ × Claims) → Option Claims
lookup t [] = none
lookup t ((u, c) ∷ rest) = let found = lookup t rest in if u == t then some c else found

abbrev pub platform : Platform
platform = record {
  settings = settings;
  encode = λ c. signed c.typ;
  decode = λ now t. lookup t known;
  sha256 = λ t. t;
  hmac = length;
  hash_password = λ salt s. length s;
  verify_password = λ s h. length s == h;
  draw = λ n. n + 1_000;
  deliver = λ n m. none;
}

abbrev pub user : User
user = record {
  id = 7;
  username = 117 ∷ [];
  display_name = none;
  email = 101 ∷ [];
  pending_email = some (110 ∷ []);
  hashed_password = 3;
  is_email_verified = true;
  mfa_enabled = true;
  email_verified_at = none;
  deletion_requested_at = none;
  deletion_scheduled_at = none;
}

abbrev pub token_row : ℕ → Purpose → AccountToken
token_row n purpose = record {
  id = n;
  user_id = 7;
  purpose = purpose;
  token_hash = n;
  token_jti = n + 100;
  expires_at = 1_000_000_000;
  used_at = none;
  revoked_at = none;
  revoked_reason = none;
  last_sent_at = none;
  sent_count = 0;
  created_at = 0;
}

abbrev pub challenge : MfaChallenge
challenge = record {
  id = 8;
  user_id = 7;
  token_hash = 6;
  token_jti = 106;
  code_hash = 2;
  security_question_id = first_pet;
  failed_attempt_count = 0;
  expires_at = 1_000_000_000;
}

abbrev pub tables : Database
tables = record {
  users = user ∷ [];
  default_portfolios = [];
  account_tokens =
      token_row 2 email_verification
      ∷ token_row 3 password_reset
      ∷ token_row 4 email_change
      ∷ token_row 5 mfa_reset
      ∷ [];
  sessions = [];
  blacklist = [];
  challenges = challenge ∷ [];
  questions = record { user_id = 7; question_id = first_pet; answer_hash = 1 } ∷ [];
  mfa_blacklist = [];
}

abbrev pub world : World
world = record { db = tables; saved = tables; failed = false; now = 5; draws = 0; outbox = [] }

-- A request that comes between, a minute later.
abbrev pub between : List (ℕ × Event)
between = (60_000_000, requested (me 11)) ∷ []

-- A session of the user, with the first of the known tokens.
abbrev pub open_session : RefreshTokenSession
open_session = record {
  id = 9;
  user_id = 7;
  token_hash = 1;
  token_jti = 101;
  expires_at = 1_000_000_000;
  last_seen_at = 0;
  revoked_at = none;
  revoked_reason = none;
  created_at = 0;
}

-- The same with a session of the user that is open.
abbrev pub signed_in : World
signed_in = record world { db = record tables { sessions = open_session ∷ [] } }

-- Five and a half seconds later, and a platform that reads back the reset token that is made then,
-- between its times.
abbrev pub issue_world : World
issue_world = record world { now = 5_500_000 }

abbrev pub made_claims : Claims
made_claims = record {
  subject = some 7;
  typ = some account;
  jti = some 1_000;
  iat = some 5;
  exp = some 1_805;
  purpose = some password_reset;
  new_email = none;
}

abbrev pub platform_of_made : Platform
platform_of_made = record platform {
  decode = λ now t.
      if t == 13 && leb 5_000_000 now && ltb now 1_805_000_000 then some made_claims else none;
}

-- The user without MFA, and a world with only that user.
abbrev pub plain_user : User
plain_user = record user { mfa_enabled = false }

abbrev pub plain_world : World
plain_world = record world { db = record tables { users = plain_user ∷ [] } }
