-- ===== src/Auth/Login.antt =====
-- What a login that opens a session was given (`authenticate_user`).
use flipradar.Auth.Stores.Users.{get_user_by_username_or_email}
use flipradar.Auth.Accounts.{tokens, challenge, LoginResponse, authenticate_user}
use flipradar.Auth.Mfa.{MfaChallengeResponse, issue_mfa_challenge}
use flipradar.Auth.Platform.{Platform}
use flipradar.Auth.Rows.{User}
use flipradar.Auth.Sessions.{token_response, TokenResponse}
use flipradar.Base.{
  ◌≡◌, refl, Bool, true, false, Option, none, some, if◌then◌else◌, sym, Text, not, ap, ◌∙◌, arith,
}
use flipradar.Auth.Session.{
  ◌>>=◌, Error, Action, World, Result, raise_if, ok, or_raise, pure, err, raise, pending_rollback,
  http, invalid_credentials,
}

module _ {A : Type 0} where
  -- How a chain ended well: both of its parts did.
  bound :
      {B : Type 0} (f : A → Action B) (r : Result A × World) (b : B) (v : World)
      → elim r.0 as (λ _. Result B × World) [ ok a ↦ f a r.1 | err e ↦ raise e r.1 ] ≡ (ok b, v)
      → (a : A) × (u : World) × (r ≡ (ok a, u)) × (f a u ≡ (ok b, v))
  bound f (ok a, u) b v e = (a, u, refl, e)
  bound f (err x, u) b v e = cc

  parts :
      {B : Type 0} (m : Action A) (f : A → Action B) (w v : World) (b : B)
      → (m >>= f) w ≡ (ok b, v)
      → (a : A) × (u : World) × (m w ≡ (ok a, u)) × (f a u ≡ (ok b, v))
  parts m f w v b e = bound f (m w) b v e

  found_value :
      (o : Option A) (x : Error) (w u : World) (a : A) → or_raise o x w ≡ (ok a, u) → o ≡ some a
  found_value none x w u a e = cc
  found_value (some b) x w u a e = cc

  answered :
      (failed : Bool) (a b : A) (w u : World)
      → ◌≡◌ {A = Result A × World} (if failed then err pending_rollback else ok a, w) (ok b, u)
      → a ≡ b
  answered true a b w u e = cc
  answered false a b w u e = cc

passed :
    (c : Bool) (x : Error) (w u : World) (a : Unit {0}) → raise_if c x w ≡ (ok a, u) → c ≡ false
passed true x w u a e = cc
passed false x w u a e = refl

-- Tokens that an action returns are those of the user.
record Gives (user : User) (m : Action TokenResponse) : Type 0 where
  at : (w v : World) (t : TokenResponse) → m w ≡ (ok t, v) → t.user ≡ user

Gives-next :
    {A : Type 0} (user : User) (m : Action A) (f : A → Action TokenResponse)
    → ((a : A) → Gives user (f a))
    → Gives user (m >>= f)
Gives-next user m f k = record {
  at = λ w v t e. let (a, u, _, l) = parts m f w v t e in (k a).at u v t l;
}

Gives-pure : (user : User) (t : TokenResponse) → t.user ≡ user → Gives user (pure t)
Gives-pure user t k = record { at = λ w v s e. cc }

token_response-Gives : (p : Platform) (user : User) → Gives user (token_response p user)
unfolding token_response
token_response-Gives p user = search (Gives-next, Gives-pure, refl) depth 20

-- An answer with a challenge is not one with tokens.
challenged :
    (m : Action MfaChallengeResponse) (w v : World) (t : TokenResponse) (b : Bool) (s : User)
    → (m >>= λ c. pure (challenge c)) w ≡ (ok (tokens t), v)
    → (b ≡ false) × (t.user ≡ s)
challenged m w v t b s e =
    let (c, u, _, l) = parts m (λ c. pure (challenge c)) w v (tokens t) e in cc

opened :
    (user : User) (m : Action TokenResponse) (w v : World) (t : TokenResponse)
    → Gives user m
    → (m >>= λ t. pure (tokens t)) w ≡ (ok (tokens t), v)
    → t.user ≡ user
opened user m w v t g e =
    let (s, u, k, l) = parts m (λ t. pure (tokens t)) w v (tokens t) e in
    let same : s ≡ t = cc in rw (sym same) (g.at w u s k)

unchallenged :
    (p : Platform) (user : User) (b : Bool) (w v : World) (t : TokenResponse)
    → (if b
          then (issue_mfa_challenge p user >>= λ c. pure (challenge c))
          else (token_response p user >>= λ t. pure (tokens t)))
        w
      ≡ (ok (tokens t), v)
    → (b ≡ false) × (t.user ≡ user)
unchallenged p user true w v t e = challenged (issue_mfa_challenge p user) w v t true user e
unchallenged p user false w v t e =
    (refl, opened user (token_response p user) w v t (token_response-Gives p user) e)

-- A login that gives tokens gives them for the user whose name or email it was given, whose password
-- is the one given, and who has not enabled MFA.
pub authenticate_user-tokens :
    (p : Platform) (name password : Text) (w v : World) (t : TokenResponse)
    → authenticate_user p name password w ≡ (ok (tokens t), v)
    → ((get_user_by_username_or_email name w).0 ≡ ok (some t.user))
      × (p.verify_password password t.user.hashed_password ≡ true)
      × (t.user.mfa_enabled ≡ false)
unfolding authenticate_user
authenticate_user-tokens p name password w v t e =
    let x : Error = http 401 invalid_credentials in
    let wrong : User → Bool = λ user. not (p.verify_password password user.hashed_password) in
    let answer : User → Action LoginResponse = λ user.
      if user.mfa_enabled
      then (issue_mfa_challenge p user >>= λ c. pure (challenge c))
      else (token_response p user >>= λ t. pure (tokens t)) in
    let check : User → Action LoginResponse =
      λ user. raise_if (wrong user) x >>= λ _. answer user in
    let (found, w1, e1, r1) =
      parts (get_user_by_username_or_email name) (λ found. or_raise found x >>= check) w v
        (tokens t) e in
    let (user, w2, e2, r2) = parts (or_raise found x) check w1 v (tokens t) r1 in
    let (done, w3, e3, r3) =
      parts (raise_if (wrong user) x) (λ _. answer user) w2 v (tokens t) r2 in
    let (off, same) = unchallenged p user user.mfa_enabled w3 v t r3 in
    let seen : found ≡ some user = found_value found x w1 w2 user e2 in
    let right : wrong user ≡ false = passed (wrong user) x w2 w3 done e3 in
    rw same
      (ap (λ (r : Result (Option User) × World). r.0) e1 ∙ ap ok seen, ground (arith, right), off)
