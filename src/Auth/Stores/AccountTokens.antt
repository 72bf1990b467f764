-- ===== src/Auth/Stores/AccountTokens.antt =====
-- The rows of the tokens that are mailed: verification, password reset, email change, MFA reset.
use flipradar.Base.{
  ℕ, ◌+◌, Bool, not, ◌&&◌, ◌||◌, Option, none, some, List, [], ◌∷◌, ◌++◌, ltb, ◌==◌, if◌then◌else◌,
  find, some_row, update_where, is_some,
}
use flipradar.Auth.Rows.{AccountToken, Database, Purpose, purpose_eq, Reason}
use flipradar.Auth.Platform.{Platform}
use flipradar.Auth.Session.{
  Action, ◌>>=◌, ◌>>◌, pure, query, write, insert_unless, random, clock, duplicate,
}

abbrev pub token_is : ℕ → AccountToken → Bool
token_is i t = t.id == i

abbrev pub has_hash : ℕ → Purpose → AccountToken → Bool
has_hash token_hash purpose t = t.token_hash == token_hash && purpose_eq t.purpose purpose

-- Of the user and the purpose, neither used nor revoked.
abbrev pub outstanding : ℕ → Purpose → AccountToken → Bool
outstanding user_id purpose t =
    t.user_id == user_id
    && purpose_eq t.purpose purpose
    && not (is_some t.used_at)
    && not (is_some t.revoked_at)

abbrev pub change_tokens :
    (AccountToken → Bool) → (AccountToken → AccountToken) → Database → Database
change_tokens q f d = record d { account_tokens = update_where q f d.account_tokens }

unfoldable pub create_account_token_record :
    Platform → ℕ → Purpose → ℕ → ℕ → ℕ → Option ℕ → ℕ → Action AccountToken
create_account_token_record p user_id purpose token_hash token_jti expires_at last_sent_at
      sent_count =
    do
      i ← random p
      now ← clock
      let token : AccountToken = record {
        id = i;
        user_id = user_id;
        purpose = purpose;
        token_hash = token_hash;
        token_jti = token_jti;
        expires_at = expires_at;
        used_at = none;
        revoked_at = none;
        revoked_reason = none;
        last_sent_at = last_sent_at;
        sent_count = sent_count;
        created_at = now;
      }
      insert_unless duplicate
          (λ d.
            some_row (λ t. t.token_hash == token_hash || t.token_jti == token_jti) d.account_tokens)
          (λ d. record d { account_tokens = d.account_tokens ++ (token ∷ []) })
      pure token

unfoldable pub get_account_token_by_hash : ℕ → Purpose → Action (Option AccountToken)
get_account_token_by_hash token_hash purpose =
    query λ d. find (has_hash token_hash purpose) d.account_tokens

-- `ORDER BY created_at DESC, id DESC LIMIT 1`
abbrev pub created_before : AccountToken → AccountToken → Bool
created_before s t =
    ltb s.created_at t.created_at || (s.created_at == t.created_at && ltb s.id t.id)

abbrev pub later : AccountToken → Option AccountToken → AccountToken
later t none = t
later t (some u) = if created_before t u then u else t

abbrev pub latest : (AccountToken → Bool) → List AccountToken → Option AccountToken
latest q [] = none
latest q (t ∷ ts) = let rest = latest q ts in if q t then some (later t rest) else rest

unfoldable pub get_latest_account_token_for_user : ℕ → Purpose → Action (Option AccountToken)
get_latest_account_token_for_user user_id purpose =
    query λ d. latest (λ t. t.user_id == user_id && purpose_eq t.purpose purpose) d.account_tokens

unfoldable pub mark_account_token_sent : AccountToken → ℕ → Action AccountToken
mark_account_token_sent token sent_at = do
  write (
      change_tokens (token_is token.id)
        λ t. record t { last_sent_at = some sent_at; sent_count = t.sent_count + 1 })
  pure (record token { last_sent_at = some sent_at; sent_count = token.sent_count + 1 })

unfoldable pub mark_account_token_used : AccountToken → ℕ → Action AccountToken
mark_account_token_used token used_at = do
  write (change_tokens (token_is token.id) λ t. record t { used_at = some used_at })
  pure (record token { used_at = some used_at })

unfoldable pub revoke_account_tokens_for_user : ℕ → Purpose → ℕ → Reason → Action (Unit {0})
revoke_account_tokens_for_user user_id purpose revoked_at reason = write (
    change_tokens (outstanding user_id purpose)
      λ t. record t { revoked_at = some revoked_at; revoked_reason = some reason })
