-- ===== src/Auth/Refused.antt =====
-- Marks on tokens that last: a blacklisted refresh token, a spent account token, a session that is
-- revoked, a blacklisted MFA token.
use flipradar.Base.{
  ℕ, ◌≡◌, refl, Bool, true, ◌||◌, List, [], ◌∷◌, arith, find, is_some, update_where,
  is_some-find-append_left, is_marked, is_marked-find-append, is_marked-find-update_where,
}
use flipradar.Auth.Rows.{AccountToken, RefreshTokenSession, Database, Purpose}
use flipradar.Auth.Stores.AccountTokens.{has_hash}
use flipradar.Auth.Stores.Sessions.{revoked_has_hash, session_has_hash, revoked}
use flipradar.Auth.Stores.Mfa.{mfa_revoked_has_hash}
use flipradar.Auth.Keeps.Lasting.{Lasting}

-- The hash stands in the blacklist of refresh tokens.
abbrev pub Listed : ℕ → Database → Type 0
Listed h d = is_some (find (revoked_has_hash h) d.blacklist) ≡ true

-- The hash stands in the blacklist of MFA tokens.
abbrev pub MfaListed : ℕ → Database → Type 0
MfaListed h d = is_some (find (mfa_revoked_has_hash h) d.mfa_blacklist) ≡ true

abbrev pub is_spent : AccountToken → Bool
is_spent t = is_some t.used_at || is_some t.revoked_at

-- The row of the hash and purpose is there, and is used or revoked.
abbrev pub Spent : ℕ → Purpose → Database → Type 0
Spent h purpose d = is_marked is_spent (find (has_hash h purpose) d.account_tokens) ≡ true

abbrev pub is_closed : RefreshTokenSession → Bool
is_closed s = is_some s.revoked_at

-- The session of the hash is there, and is revoked.
abbrev pub Closed : ℕ → Database → Type 0
Closed h d = is_marked is_closed (find (session_has_hash h) d.sessions) ≡ true

pub Listed-Lasting : (h : ℕ) → Lasting (Listed h)
Listed-Lasting h = record {
  users = λ us ps d k. k;
  token_added = λ t d k. k;
  token_sent = λ q at d k. k;
  token_used = λ q at d k. k;
  token_revoked = λ q at reason d k. k;
  session_added = λ s d k. k;
  session_revoked = λ q at reason d k. k;
  blacklisted = λ b d k. is_some-find-append_left (revoked_has_hash h) d.blacklist (b ∷ []) k;
  mfa_rows = λ cs qs d k. k;
  mfa_blacklisted = λ b d k. k;
}

pub MfaListed-Lasting : (h : ℕ) → Lasting (MfaListed h)
MfaListed-Lasting h = record {
  users = λ us ps d k. k;
  token_added = λ t d k. k;
  token_sent = λ q at d k. k;
  token_used = λ q at d k. k;
  token_revoked = λ q at reason d k. k;
  session_added = λ s d k. k;
  session_revoked = λ q at reason d k. k;
  blacklisted = λ b d k. k;
  mfa_rows = λ cs qs d k. k;
  mfa_blacklisted =
      λ b d k. is_some-find-append_left (mfa_revoked_has_hash h) d.mfa_blacklist (b ∷ []) k;
}

or_true : (a : Bool) → (a || true) ≡ true
or_true a = ground arith

module _ (h : ℕ) (purpose : Purpose) where
  Spent-update :
      (q : AccountToken → Bool) (f : AccountToken → AccountToken) (xs : List AccountToken)
      → ((t : AccountToken) → has_hash h purpose (f t) ≡ has_hash h purpose t)
      → ((t : AccountToken) → is_spent t ≡ true → is_spent (f t) ≡ true)
      → is_marked is_spent (find (has_hash h purpose) xs) ≡ true
      → is_marked is_spent (find (has_hash h purpose) (update_where q f xs)) ≡ true
  Spent-update q = is_marked-find-update_where is_spent (has_hash h purpose) q

  pub Spent-Lasting : Lasting (Spent h purpose)
  Spent-Lasting = record {
    users = λ us ps d k. k;
    token_added =
        λ t d k. is_marked-find-append is_spent (has_hash h purpose) d.account_tokens (t ∷ []) k;
    token_sent = λ q at d k. Spent-update q _ d.account_tokens (λ t. refl) (λ t e. e) k;
    token_used = λ q at d k. Spent-update q _ d.account_tokens (λ t. refl) (λ t e. refl) k;
    token_revoked = λ q at reason d k.
        Spent-update q _ d.account_tokens (λ t. refl) (λ t e. or_true (is_some t.used_at)) k;
    session_added = λ s d k. k;
    session_revoked = λ q at reason d k. k;
    blacklisted = λ b d k. k;
    mfa_rows = λ cs qs d k. k;
    mfa_blacklisted = λ b d k. k;
  }

pub Closed-Lasting : (h : ℕ) → Lasting (Closed h)
Closed-Lasting h = record {
  users = λ us ps d k. k;
  token_added = λ t d k. k;
  token_sent = λ q at d k. k;
  token_used = λ q at d k. k;
  token_revoked = λ q at reason d k. k;
  session_added =
      λ s d k. is_marked-find-append is_closed (session_has_hash h) d.sessions (s ∷ []) k;
  session_revoked = λ q at reason d k.
      is_marked-find-update_where is_closed (session_has_hash h) q (revoked at reason) d.sessions
        (λ s. refl) (λ s e. refl) k;
  blacklisted = λ b d k. k;
  mfa_rows = λ cs qs d k. k;
  mfa_blacklisted = λ b d k. k;
}
