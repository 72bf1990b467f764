-- ===== src/Auth/Keeps/Lasting.antt =====
-- Properties of the tables that last: each change that the stores make keeps them.
use flipradar.Base.{ℕ, Bool, some, List, [], ◌∷◌, ◌++◌, ◌+◌}
use flipradar.Auth.Rows.{
  User, AccountToken, RefreshTokenSession, RefreshTokenBlacklist, MfaChallenge, MfaSecurityQuestion,
  MfaTokenBlacklist, Database, Reason,
}
use flipradar.Auth.Stores.AccountTokens.{change_tokens}
use flipradar.Auth.Stores.Sessions.{revoked, change_sessions}

pub record Lasting (Q : Database → Type 0) : Type 0 where
  pub users :
      (us : List User) (ps : List ℕ) (d : Database)
      → Q d
      → Q (record d { users = us; default_portfolios = ps })
  pub token_added :
      (t : AccountToken) (d : Database)
      → Q d
      → Q (record d { account_tokens = d.account_tokens ++ (t ∷ []) })
  pub token_sent :
      (q : AccountToken → Bool) (at : ℕ) (d : Database)
      → Q d
      → Q (
          change_tokens q
            (λ t. record t { last_sent_at = some at; sent_count = t.sent_count + 1 })
            d)
  pub token_used :
      (q : AccountToken → Bool) (at : ℕ) (d : Database)
      → Q d
      → Q (change_tokens q (λ t. record t { used_at = some at }) d)
  pub token_revoked :
      (q : AccountToken → Bool) (at : ℕ) (reason : Reason) (d : Database)
      → Q d
      → Q (change_tokens q (λ t. record t { revoked_at = some at; revoked_reason = some reason }) d)
  pub session_added :
      (s : RefreshTokenSession) (d : Database)
      → Q d
      → Q (record d { sessions = d.sessions ++ (s ∷ []) })
  pub session_revoked :
      (q : RefreshTokenSession → Bool) (at : ℕ) (reason : Reason) (d : Database)
      → Q d
      → Q (change_sessions q (revoked at reason) d)
  pub blacklisted :
      (b : RefreshTokenBlacklist) (d : Database)
      → Q d
      → Q (record d { blacklist = d.blacklist ++ (b ∷ []) })
  pub mfa_rows :
      (cs : List MfaChallenge) (qs : List MfaSecurityQuestion) (d : Database)
      → Q d
      → Q (record d { challenges = cs; questions = qs })
  pub mfa_blacklisted :
      (b : MfaTokenBlacklist) (d : Database)
      → Q d
      → Q (record d { mfa_blacklist = d.mfa_blacklist ++ (b ∷ []) })
