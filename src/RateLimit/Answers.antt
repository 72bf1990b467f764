-- ===== src/RateLimit/Answers.antt =====
-- How a request that the limiter looks at may end.
use flipradar.RateLimit.Client.{Identity}
use flipradar.RateLimit.Limiter.{
  RateLimitPolicy, Key, reserve_local, admit, reserve, after_eval, drop_expired, reserve_fallback,
  Limiter, window, refused, raised, hits_of, RateLimitResult, Outcome, limited, Reply, replied,
  unavailable, other_error, endpoint_runs,
}
use flipradar.Base.{
  [], ◌∷◌, Bool, true, false, refl, some, none, ◌&&◌, ◌||◌, ℕ, ◌≡◌, List, ◌<◌, arith, Option, ltb,
  leb, if◌then◌else◌, All, length, ◌++◌, not, ◌==◌, some_row,
}

-- What the script is documented to give: two integers, if Redis does not fail.
unfoldable pub is_documented : Reply → Bool
is_documented (replied (some allowed ∷ some ttl ∷ [])) = true
is_documented (replied _) = false
is_documented unavailable = true
is_documented other_error = false

-- No exception, and a 429 names the quota and the window of one of the policies, and a time to wait.
unfoldable pub answers : List RateLimitPolicy → Outcome → Bool
answers policies endpoint_runs = true
answers policies (limited quota seconds retry_after) =
    some_row (λ p. p.max_requests == quota && p.window_seconds == seconds) policies
    && ltb 0 retry_after
answers policies raised = false

abbrev is_answer : Option RateLimitResult → Bool
is_answer none = false
is_answer (some q) = q.allowed || ltb 0 q.retry_after_seconds

answered_by :
    (policy : RateLimitPolicy) (now : ℕ) (live : List ℕ)
    → 0 < policy.max_requests
    → let r : Option RateLimitResult × List ℕ =
        if leb policy.max_requests (length live)
        then (refused (window policy) now live, live)
        else (some (record { allowed = true; retry_after_seconds = 0 }), live ++ (now ∷ [])) in
      is_answer r.0 ≡ true
answered_by policy now [] h = ground arith
answered_by policy now (hit ∷ hits) h = ground arith

answers_more :
    (policy : RateLimitPolicy) (policies : List RateLimitPolicy) (o : Outcome)
    → answers policies o ≡ true
    → answers (policy ∷ policies) o ≡ true
unfolding answers
answers_more policy policies endpoint_runs h = refl
answers_more policy policies (limited quota seconds retry_after) h = ground arith
answers_more policy policies raised h = h

refusal-answers :
    {S : Type 0} (policies : List RateLimitPolicy) (policy : RateLimitPolicy) (q : RateLimitResult)
    (l : Limiter S) (passed : Outcome × Limiter S)
    → is_answer (some q) ≡ true
    → answers (policy ∷ policies) passed.0 ≡ true
    → let o : Outcome × Limiter S =
        if not q.allowed
        then (limited policy.max_requests policy.window_seconds q.retry_after_seconds, l)
        else passed in
      answers (policy ∷ policies) o.0 ≡ true
unfolding answers
refusal-answers policies policy q l passed h k = ground arith

passes :
    {S : Type 0} (b : Bool) (policies : List RateLimitPolicy) (policy : RateLimitPolicy)
    (r : Option RateLimitResult) (l : Limiter S) (skipped passed : Outcome × Limiter S)
    → is_answer r ≡ true
    → answers (policy ∷ policies) skipped.0 ≡ true
    → answers (policy ∷ policies) passed.0 ≡ true
    → let o : Outcome × Limiter S = if b then skipped else elim r [
      | none ↦ (raised, l)
      | some q ↦
          if not q.allowed
          then (limited policy.max_requests policy.window_seconds q.retry_after_seconds, l)
          else passed
    ] in
      answers (policy ∷ policies) o.0 ≡ true
passes true policies policy r l skipped passed e h k = h
passes false policies policy none l skipped passed e h k = cc
passes false policies policy (some q) l skipped passed e h k =
    refusal-answers policies policy q l passed e k

module _ {S : Type 0} (connected : Bool) (digest : Identity → ℕ)
    (eval : S → Key → ℕ → ℕ → Reply × S) where
  answered :
      (policy : RateLimitPolicy) (now : ℕ) (hits : List ℕ)
      → 0 < policy.max_requests
      → is_answer (reserve_local policy now hits).0 ≡ true
  unfolding reserve_local
  answered policy now hits h = answered_by policy now (drop_expired (window policy) now hits) h

  after_eval-answered :
      (policy : RateLimitPolicy) (key : Key) (now : ℕ) (l : Limiter S) (reply : Reply)
      → 0 < policy.max_requests
      → is_documented reply ≡ true
      → is_answer (after_eval connected digest eval policy key now l reply).0 ≡ true
  unfolding after_eval is_documented reserve_fallback
  after_eval-answered policy key now l (replied []) h d = cc
  after_eval-answered policy key now l (replied (none ∷ xs)) h d = cc
  after_eval-answered policy key now l (replied (some a ∷ [])) h d = cc
  after_eval-answered policy key now l (replied (some a ∷ none ∷ xs)) h d = cc
  after_eval-answered policy key now l (replied (some a ∷ some t ∷ [])) h d = ground arith
  after_eval-answered policy key now l (replied (some a ∷ some t ∷ x ∷ xs)) h d = cc
  after_eval-answered policy key now l unavailable h d =
      answered policy now (hits_of key l.fallback) h
  after_eval-answered policy key now l other_error h d = cc

  chosen-answered :
      (b : Bool) (reply : Reply) (policy : RateLimitPolicy) (key : Key) (now : ℕ) (l l' : Limiter S)
      → 0 < policy.max_requests
      → is_documented reply ≡ true
      → is_answer
          (if b
            then after_eval connected digest eval policy key now l' reply
            else reserve_fallback connected digest eval policy key now l).0
        ≡ true
  unfolding reserve_fallback
  chosen-answered true reply policy key now l l' h d =
      after_eval-answered policy key now l' reply h d
  chosen-answered false reply policy key now l l' h d =
      answered policy now (hits_of key l.fallback) h

  module _
      (documented : (s : S) (key : Key) (quota seconds : ℕ)
        → is_documented (eval s key quota seconds).0 ≡ true) where
    reserve-answered :
        (policy : RateLimitPolicy) (who : Identity) (now : ℕ) (l : Limiter S)
        → 0 < policy.max_requests
        → is_answer (reserve connected digest eval policy who now l).0 ≡ true
    unfolding reserve
    reserve-answered policy who now l h =
        let key : Key = record { policy_name = policy.name; digest = digest who } in
        let reply : Reply × S = eval l.store key policy.max_requests policy.window_seconds in
        chosen-answered (connected && leb l.unavailable_until now) reply.0 policy key now l
          (record l { store = reply.1 }) h
          (documented l.store key policy.max_requests policy.window_seconds)

    pub admit-answers :
        (llm_configured : Bool) (who : RateLimitPolicy → Identity) (policies : List RateLimitPolicy)
        (now : ℕ) (l : Limiter S)
        → All (λ policy. 0 < policy.max_requests) policies
        → answers policies (admit connected digest eval llm_configured who policies now l).0 ≡ true
    unfolding admit answers
    admit-answers llm_configured who [] now l h = refl
    admit-answers llm_configured who (policy ∷ policies) now l h =
        passes (policy.requires_llm && not llm_configured) policies policy
          (reserve connected digest eval policy (who policy) now l).0 _ _ _
          (reserve-answered policy (who policy) now l h.0)
          (answers_more policy policies _ (admit-answers llm_configured who policies now l h.1))
          (answers_more policy policies _ (admit-answers llm_configured who policies now _ h.1))
