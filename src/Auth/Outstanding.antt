-- ===== src/Auth/Outstanding.antt =====
-- One mailed token at a time, and no session after all of them are revoked.
use flipradar.Auth.Tokens.{
  create_account_token, decode_account_token, account_token_jti, account_token_expiry,
}
use flipradar.Auth.Sessions.{blacklist_session_token, blacklist_each, revoke_all_sessions}
use flipradar.Auth.Session.{
  ◌>>=◌, pure, World, ok, clock, or_raise, http, invalid_verification_token, Action,
}
use flipradar.Auth.Stores.Sessions.{
  revoke_active_refresh_token_sessions_for_user, active, change_sessions, revoked,
  blacklist_refresh_token, list_active_refresh_token_sessions_for_user,
}
use flipradar.Auth.Keeps.Requests.{Makes-last, Makes-first}
use flipradar.Auth.Keeps.Leads.{
  Makes-write, Leads, Leads-next, Leads-first, Makes-then, Leads-insert_unless,
}
use flipradar.Auth.Keeps.Rules.{
  Makes, Keeps, Keeps-bind, Keeps-write, keeps_rules, Keeps-pure, Keeps-or_raise, Keeps-if,
  Keeps-insert_unless,
}
use flipradar.Auth.Platform.{Platform, Claims}
use flipradar.Auth.Mails.{issue_account_token}
use flipradar.Auth.Stores.AccountTokens.{
  outstanding, revoke_account_tokens_for_user, mark_account_token_sent, create_account_token_record,
  token_is,
}
use flipradar.Auth.Rows.{
  email_verification, password_reset, email_change, mfa_reset, Purpose, AccountToken, Database,
  purpose_eq, reissued, User, RefreshTokenSession, user_revoked_all_sessions, Reason,
}
use flipradar.Base.{
  refl, ℕ, List, count_by, ◌≡◌, none, true, ==_refl, ◌++◌, ◌∷◌, [], count_by-append, some, Bool,
  ◌&&◌, Option, not, false, arith, ◌==◌, count_by-update_where_none, Text, is_some,
  count_by-update_where, ◌∙◌, select, select-update_where_none, ltb, if◌then◌else◌,
}

purpose_eq_refl : (p : Purpose) → purpose_eq p p ≡ true
purpose_eq_refl email_verification = refl
purpose_eq_refl password_reset = refl
purpose_eq_refl email_change = refl
purpose_eq_refl mfa_reset = refl

and_false : (a b c : Bool) → (a && b && not c && false) ≡ false
and_false a b c = ground arith

middle_false : (a b : Bool) → (a && false && b) ≡ false
middle_false a b = ground arith

module _ (i : ℕ) (purpose : Purpose) where
  -- So many tokens of the user and purpose are neither used nor revoked.
  abbrev Outstanding : ℕ → Database → Type 0
  Outstanding n d = count_by (outstanding i purpose) d.account_tokens ≡ n

  one_more :
      (xs : List AccountToken) (t : AccountToken)
      → outstanding i purpose t ≡ true
      → count_by (outstanding i purpose) xs ≡ 0
      → count_by (outstanding i purpose) (xs ++ (t ∷ [])) ≡ 1
  one_more xs t e k = rw (count_by-append (outstanding i purpose) xs (t ∷ []), k, e) refl

  unmarked :
      (at : ℕ) (t : AccountToken)
      → outstanding i purpose (record t { revoked_at = some at; revoked_reason = some reissued })
        ≡ false
  unmarked at t = and_false (t.user_id == i) (purpose_eq t.purpose purpose) (is_some t.used_at)

  revoke_Makes :
      (at : ℕ) → Makes (Outstanding 0) (revoke_account_tokens_for_user i purpose at reissued)
  unfolding revoke_account_tokens_for_user
  revoke_Makes at =
      Makes-write (Outstanding 0) _
        λ d. count_by-update_where_none (outstanding i purpose) _ d.account_tokens (unmarked at)

  create_Leads :
      (p : Platform) (h j e : ℕ) (sent : Option ℕ) (n : ℕ)
      → Leads (Outstanding 0) (Outstanding 1) (create_account_token_record p i purpose h j e sent n)
  unfolding create_account_token_record
  create_Leads p h j e sent n =
      search
        (
          Leads-next, Leads-first, Leads-insert_unless, keeps_rules, one_more, ==_refl,
          purpose_eq_refl,
        )
        depth 30

  sent_Keeps : (t : AccountToken) (at : ℕ) → Keeps (Outstanding 1) (mark_account_token_sent t at)
  unfolding mark_account_token_sent
  sent_Keeps t at =
      Keeps-bind (Outstanding 1)
        (Keeps-write (Outstanding 1) _ λ d k.
          count_by-update_where (outstanding i purpose) (token_is t.id) _ d.account_tokens
            (λ u. refl)
          ∙ k)
        (λ _. Keeps-pure (Outstanding 1) _)

-- What comes after the older tokens are revoked.
abbrev issued : Platform → User → Purpose → Bool → ℕ → ℕ → Claims → Action ℕ
issued p user purpose mark_sent now token payload = do
  jti ← account_token_jti payload
  expires_at ← account_token_expiry payload
  row ←
      create_account_token_record p user.id purpose (p.sha256 token) jti expires_at
        (if mark_sent then some now else none) (if mark_sent then 1 else 0)
  row' ←
      if mark_sent && not (is_some row.last_sent_at)
      then mark_account_token_sent row now
      else pure row
  pure token

issued-Leads :
    (p : Platform) (u : User) (purpose : Purpose) (b : Bool) (now token : ℕ) (c : Claims)
    → Leads
        (Outstanding u.id purpose 0)
        (Outstanding u.id purpose 1)
        (issued p u purpose b now token c)
issued-Leads p u purpose b now token c =
    search
      (
        Leads-first, Leads-next, create_Leads, sent_Keeps, Keeps-bind, Keeps-or_raise, Keeps-pure,
        Keeps-if,
      )
      depth 20

issue_account_token-Makes :
    (p : Platform) (u : User) (purpose : Purpose) (b : Bool) (e : Option Text)
    → Makes (Outstanding u.id purpose 1) (issue_account_token p u purpose b e)
unfolding issue_account_token
issue_account_token-Makes p u purpose b e =
    let Q0 : Database → Type 0 = Outstanding u.id purpose 0 in
    let Q1 : Database → Type 0 = Outstanding u.id purpose 1 in
    let i : ℕ = u.id in
    Makes-last Q1 clock λ now. Makes-last Q1 (create_account_token p u.id purpose e) λ token.
      Makes-last Q1
        (or_raise (decode_account_token p now token purpose) (http 400 invalid_verification_token))
        λ payload.
          Makes-then Q0 Q1 {f = λ _. issued p u purpose b now token payload}
            (revoke_Makes i purpose now) λ _. issued-Leads p u purpose b now token payload

-- Issuing a token of a purpose, if it returns, leaves the user with exactly one token of the purpose
-- that is neither used nor revoked, however many there were.
pub issue_account_token-outstanding :
    (p : Platform) (u : User) (purpose : Purpose) (mark_sent : Bool) (new_email : Option Text)
    (w : World) (token : ℕ)
    → (issue_account_token p u purpose mark_sent new_email w).0 ≡ ok token
    → count_by
        (outstanding u.id purpose)
        (issue_account_token p u purpose mark_sent new_email w).1.db.account_tokens
      ≡ 1
issue_account_token-outstanding p u purpose mark_sent new_email w token =
    (issue_account_token-Makes p u purpose mark_sent new_email).at w token

-- What the session list shows after all sessions are revoked.
module _ (i at : ℕ) where
  -- No session of the user is active at the instant.
  abbrev NoneActive : Database → Type 0
  NoneActive d = select (active i at) d.sessions ≡ []

  is_not_active :
      (s : RefreshTokenSession) → active i at (revoked at user_revoked_all_sessions s) ≡ false
  is_not_active s = middle_false (s.user_id == i) (ltb at s.expires_at)

  revoke_all_Makes :
      Makes NoneActive
        (revoke_active_refresh_token_sessions_for_user i at user_revoked_all_sessions)
  unfolding revoke_active_refresh_token_sessions_for_user
  revoke_all_Makes =
      Makes-last NoneActive (list_active_refresh_token_sessions_for_user i at) λ sessions.
        Makes-first NoneActive
          (Makes-write NoneActive
            (change_sessions (active i at) (revoked at user_revoked_all_sessions))
            λ d.
              select-update_where_none (active i at) (revoked at user_revoked_all_sessions)
                d.sessions is_not_active)
          (λ _. Keeps-pure NoneActive sessions)

  blacklist_session_token-Keeps :
      (s : RefreshTokenSession) (r : Reason) → Keeps NoneActive (blacklist_session_token s r)
  unfolding blacklist_session_token blacklist_refresh_token
  blacklist_session_token-Keeps s r = search (keeps_rules, Keeps-insert_unless) depth 12

  blacklist_each-Keeps :
      (xs : List RefreshTokenSession) (r : Reason) → Keeps NoneActive (blacklist_each xs r)
  unfolding blacklist_each
  blacklist_each-Keeps [] r = Keeps-pure NoneActive tt
  blacklist_each-Keeps (s ∷ xs) r =
      Keeps-bind NoneActive (blacklist_session_token-Keeps s r) λ _. blacklist_each-Keeps xs r

-- If the revocation of all sessions of a user returns, none of them is active at that instant.
pub revoke_all_sessions-active :
    (u : User) (w : World) (r : Unit {0})
    → (revoke_all_sessions u w).0 ≡ ok r
    → select (active u.id w.now) (revoke_all_sessions u w).1.db.sessions ≡ []
unfolding revoke_all_sessions
revoke_all_sessions-active u w r e =
    (Makes-first (NoneActive u.id w.now) (revoke_all_Makes u.id w.now)
        (λ xs. blacklist_each-Keeps u.id w.now xs user_revoked_all_sessions)).at
      w r e
