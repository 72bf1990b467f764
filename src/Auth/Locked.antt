-- ===== src/Auth/Locked.antt =====
-- An MFA challenge is locked by too many failures.
use flipradar.Auth.Challenge.{verify_mfa_challenge_refused}
use flipradar.Auth.Answers.{wrong_code, wrong_answer}
use flipradar.Auth.Tokens.{decode_mfa_token, mfa_token_expiry, microseconds}
use flipradar.Auth.Steps.{step, query_step}
use flipradar.Auth.Keeps.Runs.{failed-run, Holds-requests}
use flipradar.Auth.Requests.{Event, run, is_request}
use flipradar.Auth.Sessions.{TokenResponse}
use flipradar.Auth.Refusal.{Refuses}
use flipradar.Auth.Keeps.Requests.{
  get_db_session_error, get_db_session_rolls_back, get_db_session_clean,
}
use flipradar.Auth.Refused.{MfaListed, MfaListed-Lasting}
use flipradar.Auth.Session.{
  World, get_db_session, err, http, too_many_mfa_attempts, Action, ◌>>◌, ◌>>=◌, Error, pure,
  invalid_mfa_challenge, or_raise, raise_if, query,
}
use flipradar.Auth.Rows.{
  MfaChallenge, MfaTokenBlacklist, Database, question_eq, MfaSecurityQuestion,
}
use flipradar.Auth.Stores.Mfa.{
  mfa_revoked_has_hash, is_mfa_token_blacklisted, get_mfa_challenge_by_hash,
  get_mfa_security_question, challenge_has_hash,
}
use flipradar.Auth.Mfa.{
  complete_mfa, verify_mfa_challenge, mfa_failure, mfa_code_hash, mfa_answer_hash,
}
use flipradar.Auth.Platform.{Platform, Claims}
use flipradar.Base.{
  refl, some, ℕ, Text, ◌≡◌, arith, false, List, Bool, some_row, ◌==◌, ◌||◌, leb, ◌+◌, true, Option,
  ◌∷◌, [], if◌then◌else◌, find, ◌∙◌, ap, ◌*◌, is_some, ◌&&◌, ◌<◌, ◌≤◌, All, subst, sym,
}
use flipradar.Auth.Failure.{mfa_failure_locks}

-- Neither the hash nor the identifier stands on the blacklist.
not_listed :
    (h j : ℕ) (bs : List MfaTokenBlacklist)
    → some_row (λ b. b.token_hash == h || b.token_jti == j) bs ≡ false
    → is_some (find (mfa_revoked_has_hash h) bs) ≡ false
not_listed h j [] k = refl
not_listed h j (b ∷ bs) k = ground (arith, k, not_listed h j bs)

module _ (p : Platform) where
  wrong_code_or_answer :
      (i h j hashed : ℕ) (c : MfaChallenge) (b : Bool) (w : World)
      → w.failed ≡ false
      → (b
          || wrong_answer hashed (
              find
                (λ q. q.user_id == i && question_eq q.question_id c.security_question_id)
                w.db.questions))
        ≡ true
      → (if b
            then mfa_failure p c i h j
            else (get_mfa_security_question i c.security_question_id >>= λ q.
                if wrong_answer hashed q then mfa_failure p c i h j else complete_mfa p i h j))
          w
        ≡ mfa_failure p c i h j w
  unfolding get_mfa_security_question
  wrong_code_or_answer i h j hashed c true w clean k = refl
  wrong_code_or_answer i h j hashed c false w clean k =
      let at_question : Option MfaSecurityQuestion → Action TokenResponse =
        λ q. if wrong_answer hashed q then mfa_failure p c i h j else complete_mfa p i h j in
      query_step
        (λ d.
          find (λ q. q.user_id == i && question_eq q.question_id c.security_question_id)
            d.questions)
        at_question w clean
      ∙ ap (λ b. (if b then mfa_failure p c i h j else complete_mfa p i h j) w) k

  -- A request with a valid token that is not on the blacklist, and a wrong code or answer, comes to
  -- `mfa_failure`.
  wrong-mfa_failure :
      (t : ℕ) (code answer : Text) (claims : Claims) (i j e : ℕ) (c : MfaChallenge) (w : World)
      → w.failed ≡ false
      → decode_mfa_token p w.now t ≡ some claims
      → claims.subject ≡ some i
      → claims.jti ≡ some j
      → claims.exp ≡ some e
      → leb (e * 1_000_000) w.now ≡ false
      → is_some (find (mfa_revoked_has_hash (p.sha256 t)) w.db.mfa_blacklist) ≡ false
      → find (challenge_has_hash (p.sha256 t)) w.db.challenges ≡ some c
      → (wrong_code i j w.now (mfa_code_hash p code) c
          || wrong_answer (mfa_answer_hash p answer) (
              find
                (λ q. q.user_id == i && question_eq q.question_id c.security_question_id)
                w.db.questions))
        ≡ true
      → verify_mfa_challenge p t code answer w ≡ mfa_failure p c i (p.sha256 t) j w
  unfolding verify_mfa_challenge is_mfa_token_blacklisted get_mfa_challenge_by_hash
      get_mfa_security_question
  wrong-mfa_failure t code answer claims i j e c w clean valid subject jti exp early fresh found
        wrong =
      let h : ℕ = p.sha256 t in
      let bad : Error = http 400 invalid_mfa_challenge in
      let fails : MfaChallenge → Action TokenResponse = λ o. mfa_failure p o i h j in
      let at_question : MfaChallenge → Option MfaSecurityQuestion → Action TokenResponse = λ o q.
        if wrong_answer (mfa_answer_hash p answer) q then fails o else complete_mfa p i h j in
      let at_code : MfaChallenge → Bool → Action TokenResponse = λ o b.
        if b || wrong_code i j w.now (mfa_code_hash p code) o
        then fails o
        else (get_mfa_security_question i o.security_question_id >>= at_question o) in
      let at_found : Option MfaChallenge → Action TokenResponse =
        λ o. or_raise o bad >>= λ o. is_mfa_token_blacklisted h >>= at_code o in
      let at_listed : Bool → Bool → Action TokenResponse = λ over listed.
        raise_if (over || listed) bad >> (get_mfa_challenge_by_hash h >>= at_found) in
      let listed : Database → Bool = λ d. is_some (find (mfa_revoked_has_hash h) d.mfa_blacklist) in
      let row : Database → Option MfaChallenge = λ d. find (challenge_has_hash h) d.challenges in
      let over : Bool = leb (e * 1_000_000) w.now in
      let path : (mfa_token_expiry claims >>= λ at. query listed >>= at_listed (leb at w.now)) w
          ≡ mfa_failure p c i h j w =
        step (mfa_token_expiry claims) (λ at. query listed >>= at_listed (leb at w.now)) w w
          (e * 1_000_000) (ap (λ o. (or_raise o bad >>= λ x. pure (microseconds x)) w) exp)
        ∙ query_step listed (at_listed over) w clean
        ∙ ap (λ b. at_listed over b w) fresh
        ∙ ap (λ b. at_listed b false w) early
        ∙ query_step row at_found w clean
        ∙ ap (λ o. at_found o w) found
        ∙ query_step listed (at_code c) w clean
        ∙ ap (λ b. at_code c b w) fresh
        ∙ wrong_code_or_answer i h j (mfa_answer_hash p answer) c
            (wrong_code i j w.now (mfa_code_hash p code) c) w clean wrong in
      rw (valid, subject, jti) path

  -- A request with a wrong code or answer that brings the failures of its challenge to the limit gives
  -- a 429 and, although it raises, locks the token: from then on the token is refused with a 400 even
  -- with the right code and answer, whatever account requests come between, until the worker's job
  -- empties the blacklist of MFA tokens. The session has not failed, the token is valid and has its
  -- challenge, and neither its hash nor its identifier is on the blacklist yet.
  pub verify_mfa_challenge-locks :
      (t : ℕ) (code answer code' answer' : Text) (claims : Claims) (i j e : ℕ) (c : MfaChallenge)
      (w : World) (es : List (ℕ × Event))
      → w.failed ≡ false
      → decode_mfa_token p w.now t ≡ some claims
      → claims.subject ≡ some i
      → claims.jti ≡ some j
      → claims.exp ≡ some e
      → w.now < e * 1_000_000
      → some_row (λ b. b.token_hash == p.sha256 t || b.token_jti == j) w.db.mfa_blacklist ≡ false
      → find (challenge_has_hash (p.sha256 t)) w.db.challenges ≡ some c
      → (wrong_code i j w.now (mfa_code_hash p code) c
          || wrong_answer (mfa_answer_hash p answer) (
              find
                (λ q. q.user_id == i && question_eq q.question_id c.security_question_id)
                w.db.questions))
        ≡ true
      → p.settings.mfa_max_attempts ≤ c.failed_attempt_count + 1
      → All (λ e. is_request e.1 ≡ true) es
      → let r = get_db_session (verify_mfa_challenge p t code answer) w in
        (r.0 ≡ err (http 429 too_many_mfa_attempts))
        × Refuses (get_db_session (verify_mfa_challenge p t code' answer')) (run p es r.1)
  verify_mfa_challenge-locks t code answer code' answer' claims i j e c w es clean valid subject jti
        exp early fresh found wrong last only =
      let h : ℕ = p.sha256 t in
      let m : Action TokenResponse = verify_mfa_challenge p t code answer in
      let failure : m w ≡ mfa_failure p c i h j w =
        wrong-mfa_failure t code answer claims i j e c w clean valid subject jti exp
          (ground (arith, early)) (not_listed h j w.db.mfa_blacklist fresh) found wrong in
      let (raised, listed) = mfa_failure_locks p c i h j w clean fresh (ground (arith, last)) in
      let raises : (m w).0 ≡ err (http 429 too_many_mfa_attempts) =
        ap (λ r. r.0) failure ∙ raised in
      let stored : MfaListed h (m w).1.saved =
        subst (λ r. MfaListed h r.1.saved) (sym failure) listed in
      let v : World = run p es (get_db_session m w).1 in
      let n =
        verify_mfa_challenge_refused p t code' answer' v
          (failed-run p es (get_db_session m w).1 (get_db_session_clean m w))
          (Holds-requests (MfaListed-Lasting h) p es (get_db_session m w).1 only
            (get_db_session_rolls_back (MfaListed h) m w _ raises stored)).in_db in
      (
        get_db_session_error m w _ raises,
        record {
          detail = n.detail;
          refused = get_db_session_error (verify_mfa_challenge p t code' answer') v _ n.refused;
        },
      )
