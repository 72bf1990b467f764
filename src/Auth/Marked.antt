-- ===== src/Auth/Marked.antt =====
-- A token row that was looked up is the one that is marked as used.
use flipradar.Base.{
  ℕ, ◌≡◌, refl, Bool, true, false, Option, none, some, [], ◌∷◌, find, is_marked, ==_refl,
  is_marked-find-append, is_marked-find-update_where, ◌==◌, if◌then◌else◌, is_marked-find-changed,
}
use flipradar.Auth.Rows.{AccountToken, Database, Purpose}
use flipradar.Auth.Session.{
  Action, World, Result, ok, err, Error, unless_refused, ◌>>=◌, raise, pending_rollback,
}
use flipradar.Auth.Stores.AccountTokens.{
  has_hash, get_account_token_by_hash, mark_account_token_used,
}
use flipradar.Auth.Keeps.Rules.{Makes, Keeps-pure}
use flipradar.Auth.Keeps.Leads.{Leads, Leads-first, Leads-write}
use flipradar.Auth.Keeps.Lasting.{Lasting}
use flipradar.Auth.Refused.{Spent, is_spent}

module _ (h : ℕ) (purpose : Purpose) where
  -- The row of the hash and purpose has the identifier.
  abbrev pub Identified : ℕ → Database → Type 0
  Identified i d =
      is_marked (λ (t : AccountToken). t.id == i) (find (has_hash h purpose) d.account_tokens)
      ≡ true

  pub Identified-Lasting : (i : ℕ) → Lasting (Identified i)
  Identified-Lasting i =
      let named : AccountToken → Bool = λ t. t.id == i in
      let hash : AccountToken → Bool = has_hash h purpose in
      record {
        users = λ us ps d k. k;
        token_added = λ t d k. is_marked-find-append named hash d.account_tokens (t ∷ []) k;
        token_sent = λ q at d k.
            is_marked-find-update_where named hash q _ d.account_tokens (λ t. refl) (λ t e. e) k;
        token_used = λ q at d k.
            is_marked-find-update_where named hash q _ d.account_tokens (λ t. refl) (λ t e. e) k;
        token_revoked = λ q at reason d k.
            is_marked-find-update_where named hash q _ d.account_tokens (λ t. refl) (λ t e. e) k;
        session_added = λ s d k. k;
        session_revoked = λ q at reason d k. k;
        blacklisted = λ b d k. k;
        mfa_rows = λ cs qs d k. k;
        mfa_blacklisted = λ b d k. k;
      }

  pub mark_used_Leads :
      (t : AccountToken) (at : ℕ)
      → Leads (Identified t.id) (Spent h purpose) (mark_account_token_used t at)
  unfolding mark_account_token_used
  mark_used_Leads t at =
      Leads-first (Identified t.id) (Spent h purpose)
        (Leads-write (Identified t.id) (Spent h purpose) _ λ d k.
          is_marked-find-changed (λ (u : AccountToken). u.id == t.id) is_spent (has_hash h purpose)
            (λ u. record u { used_at = some at }) d.account_tokens (λ u. refl) (λ u. refl) k)
        (λ _. Keeps-pure (Spent h purpose) _)

  module _ {A : Type 0} (q : AccountToken → Bool) (e : Error) (f : AccountToken → Action A)
      (k : (t : AccountToken) → Leads (Identified t.id) (Spent h purpose) (f t)) where
    kept_row :
        (b : Bool) (t : AccountToken) (w : World) (a : A)
        → Identified t.id w.db
        → let r = elim (if b then err e else ok t) as (λ _. Result A × World) [
          | ok t ↦ f t w
          | err x ↦ raise x w
        ] in
          r.0 ≡ ok a → Spent h purpose r.1.db
    kept_row true t w a i x = cc
    kept_row false t w a i x = (k t).at w a i x

    found_row :
        (o : Option AccountToken) (w : World) (a : A)
        → find (has_hash h purpose) w.db.account_tokens ≡ o
        → ((unless_refused q o e >>= f) w).0 ≡ ok a
        → Spent h purpose ((unless_refused q o e >>= f) w).1.db
    found_row none w a x y = cc
    found_row (some t) w a x y = kept_row (q t) t w a (rw x (==_refl t.id)) y

    asked :
        (b : Bool) (w : World) (a : A)
        → let o = find (has_hash h purpose) w.db.account_tokens in
          let r = elim (if b then err pending_rollback else ok o) as (λ _. Result A × World) [
            | ok o ↦ (unless_refused q o e >>= f) w
            | err x ↦ raise x w
          ] in
          r.0 ≡ ok a → Spent h purpose r.1.db
    asked true w a x = cc
    asked false w a x = found_row (find (has_hash h purpose) w.db.account_tokens) w a refl x

  -- A row that was looked up by the hash and purpose is the one that is found there.
  pub Makes-found :
      {A : Type 0} (q : AccountToken → Bool) (e : Error) {f : AccountToken → Action A}
      → ((t : AccountToken) → Leads (Identified t.id) (Spent h purpose) (f t))
      → Makes
          (Spent h purpose)
          (get_account_token_by_hash h purpose >>= λ found. unless_refused q found e >>= f)
  unfolding get_account_token_by_hash
  Makes-found q e {f = f} k = record { at = λ w a x. asked q e f k w.failed w a x }
