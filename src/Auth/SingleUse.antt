-- ===== src/Auth/SingleUse.antt =====
-- A token that is mailed works once: verification, email change, password reset, MFA reset.
use flipradar.Base.{ℕ, ◌≡◌, Bool, false, List, Text}
use flipradar.Auth.Rows.{Purpose, email_verification, password_reset, email_change, mfa_reset}
use flipradar.Auth.Platform.{Platform}
use flipradar.Auth.Session.{Action, World, ok, get_db_session}
use flipradar.Auth.Mfa.{confirm_mfa_reset}
use flipradar.Auth.Accounts.{ActionResponse}
use flipradar.Auth.Recovery.{verify_email, confirm_email_change, confirm_password_reset}
use flipradar.Auth.Requests.{Event, run}
use flipradar.Auth.Keeps.Rules.{Makes}
use flipradar.Auth.Keeps.Leads.{leads_rules}
use flipradar.Auth.Keeps.Requests.{makes_rules, get_db_session_error}
use flipradar.Auth.Keeps.Tokens.{token_rules}
use flipradar.Auth.Keeps.Accounts.{user_of_token-Keeps}
use flipradar.Auth.Keeps.Runs.{outlasts}
use flipradar.Auth.Refused.{Spent, Spent-Lasting}
use flipradar.Auth.Marked.{Identified-Lasting, mark_used_Leads, Makes-found}
use flipradar.Auth.Refusal.{Refuses, refusal_rules}

ruleset use_rules = (
  makes_rules, leads_rules, token_rules, Makes-found, mark_used_Leads, user_of_token-Keeps,
  Spent-Lasting, Identified-Lasting,
)

-- An action on a mailed token that uses the row up, and refuses a row that is used up, works
-- once.
once :
    {A B : Type 0} (p : Platform) (h : ℕ) (purpose : Purpose) (m : Action A) (n : Action B)
    (w : World) (a : A) (rs : List (ℕ × Event))
    → Makes (Spent h purpose) m
    → ((v : World) → v.failed ≡ false → Spent h purpose v.db → Refuses n v)
    → (get_db_session m w).0 ≡ ok a
    → Refuses (get_db_session n) (run p rs (get_db_session m w).1)
once p h purpose m n w a rs k l e =
    let v : World = run p rs (get_db_session m w).1 in
    let (spent, clean) = outlasts (Spent-Lasting h purpose) (λ d k. k) p w a rs k e in
    let r = l v clean spent in
    record { detail = r.detail; refused = get_db_session_error n v _ r.refused }

module _ (p : Platform) where
  verify_email-Makes : (t : ℕ) → Makes (Spent (p.sha256 t) email_verification) (verify_email p t)
  unfolding verify_email
  verify_email-Makes t = search use_rules depth 40

  verify_email_refused :
      (t : ℕ) (w : World)
      → w.failed ≡ false
      → Spent (p.sha256 t) email_verification w.db
      → Refuses (verify_email p t) w
  unfolding verify_email
  verify_email_refused t w clean k = search (refusal_rules, clean, k) depth 20

  -- A link that verified an email is refused with a 400 ever after, whatever account requests
  -- and jobs come between, at whatever times.
  pub verify_email-once :
      (t : ℕ) (w : World) (r : Unit {0}) (rs : List (ℕ × Event))
      → (get_db_session (verify_email p t) w).0 ≡ ok r
      → Refuses
          (get_db_session (verify_email p t))
          (run p rs (get_db_session (verify_email p t) w).1)
  verify_email-once t w r rs =
      once p (p.sha256 t) email_verification (verify_email p t) (verify_email p t) w r rs
        (verify_email-Makes t) (verify_email_refused t)

  confirm_email_change-Makes :
      (t : ℕ) → Makes (Spent (p.sha256 t) email_change) (confirm_email_change p t)
  unfolding confirm_email_change
  confirm_email_change-Makes t = search use_rules depth 40

  confirm_email_change_refused :
      (t : ℕ) (w : World)
      → w.failed ≡ false
      → Spent (p.sha256 t) email_change w.db
      → Refuses (confirm_email_change p t) w
  unfolding confirm_email_change
  confirm_email_change_refused t w clean k = search (refusal_rules, clean, k) depth 20

  -- A link that changed an email is refused with a 400 ever after, whatever account requests
  -- and jobs come between, at whatever times.
  pub confirm_email_change-once :
      (t : ℕ) (w : World) (r : Unit {0}) (rs : List (ℕ × Event))
      → (get_db_session (confirm_email_change p t) w).0 ≡ ok r
      → Refuses
          (get_db_session (confirm_email_change p t))
          (run p rs (get_db_session (confirm_email_change p t) w).1)
  confirm_email_change-once t w r rs =
      once p (p.sha256 t) email_change (confirm_email_change p t) (confirm_email_change p t) w r rs
        (confirm_email_change-Makes t) (confirm_email_change_refused t)

  confirm_password_reset-Makes :
      (t : ℕ) (s : Text) → Makes (Spent (p.sha256 t) password_reset) (confirm_password_reset p t s)
  unfolding confirm_password_reset
  confirm_password_reset-Makes t s = search use_rules depth 40

  confirm_password_reset_refused :
      (t : ℕ) (s : Text) (w : World)
      → w.failed ≡ false
      → Spent (p.sha256 t) password_reset w.db
      → Refuses (confirm_password_reset p t s) w
  unfolding confirm_password_reset
  confirm_password_reset_refused t s w clean k = search (refusal_rules, clean, k) depth 20

  -- A link that reset a password is refused with a 400 ever after, for every new password,
  -- whatever account requests and jobs come between, at whatever times.
  pub confirm_password_reset-once :
      (t : ℕ) (s s' : Text) (w : World) (r : ActionResponse) (rs : List (ℕ × Event))
      → (get_db_session (confirm_password_reset p t s) w).0 ≡ ok r
      → Refuses
          (get_db_session (confirm_password_reset p t s'))
          (run p rs (get_db_session (confirm_password_reset p t s) w).1)
  confirm_password_reset-once t s s' w r rs =
      once p (p.sha256 t) password_reset (confirm_password_reset p t s)
        (confirm_password_reset p t s') w r rs (confirm_password_reset-Makes t s)
        (confirm_password_reset_refused t s')

  confirm_mfa_reset-Makes : (t : ℕ) → Makes (Spent (p.sha256 t) mfa_reset) (confirm_mfa_reset p t)
  unfolding confirm_mfa_reset
  confirm_mfa_reset-Makes t = search use_rules depth 40

  confirm_mfa_reset_refused :
      (t : ℕ) (w : World)
      → w.failed ≡ false
      → Spent (p.sha256 t) mfa_reset w.db
      → Refuses (confirm_mfa_reset p t) w
  unfolding confirm_mfa_reset
  confirm_mfa_reset_refused t w clean k = search (refusal_rules, clean, k) depth 20

  -- A link that reset the MFA settings is refused with a 400 ever after, whatever account
  -- requests and jobs come between, at whatever times.
  pub confirm_mfa_reset-once :
      (t : ℕ) (w : World) (r : Bool) (rs : List (ℕ × Event))
      → (get_db_session (confirm_mfa_reset p t) w).0 ≡ ok r
      → Refuses
          (get_db_session (confirm_mfa_reset p t))
          (run p rs (get_db_session (confirm_mfa_reset p t) w).1)
  confirm_mfa_reset-once t w r rs =
      once p (p.sha256 t) mfa_reset (confirm_mfa_reset p t) (confirm_mfa_reset p t) w r rs
        (confirm_mfa_reset-Makes t) (confirm_mfa_reset_refused t)
