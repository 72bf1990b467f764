-- ===== src/RateLimit/Limiter.antt =====
-- Fixed-window quotas: `_ProcessLocalFixedWindowLimiter`, `RedisRateLimiter` and the loop over the
-- policies of a request. Instants are microseconds.
use flipradar.Base.{
  ℕ, ◌+◌, ◌-◌, ◌*◌, ◌/◌, max, Bool, true, false, not, ◌&&◌, Option, none, some, List, [], ◌∷◌, ◌++◌,
  Text, text_eq, leb, ◌==◌, if◌then◌else◌, length,
}
use flipradar.Base.Int.{ℤ, pos, negsuc, pos_part}
use flipradar.RateLimit.Client.{RateLimitScope, Identity}

pub record RateLimitPolicy : Type 0 where
  pub name : Text
  pub max_requests : ℕ
  pub window_seconds : ℕ
  pub scope : RateLimitScope
  pub requires_llm : Bool

pub record RateLimitResult : Type 0 where
  pub allowed : Bool
  pub retry_after_seconds : ℕ

abbrev pub window : RateLimitPolicy → ℕ
window policy = policy.window_seconds * 1_000_000

-- `while hits and hits[0] <= cutoff: hits.popleft()`
unfoldable pub drop_expired : ℕ → ℕ → List ℕ → List ℕ
drop_expired window now [] = []
drop_expired window now (hit ∷ hits) =
    let rest = drop_expired window now hits in if leb (hit + window) now then rest else hit ∷ hits

-- What is refused when the quota is used up. A quota of none has no first hit: an `IndexError`.
abbrev pub refused : ℕ → ℕ → List ℕ → Option RateLimitResult
refused window now [] = none
refused window now (hit ∷ hits) =
    some
      (record { allowed = false; retry_after_seconds = max 1 ((hit + window - now) / 1_000_000) })

-- `_ProcessLocalFixedWindowLimiter.reserve`, on the hits of its key: the result, which is `none` for
-- an exception, and the hits that are left.
unfoldable pub reserve_local : RateLimitPolicy → ℕ → List ℕ → Option RateLimitResult × List ℕ
unfolding drop_expired
reserve_local policy now hits =
    let live = drop_expired (window policy) now hits in
    if leb policy.max_requests (length live)
    then (refused (window policy) now live, live)
    else (some (record { allowed = true; retry_after_seconds = 0 }), live ++ (now ∷ []))

-- What `dispatch` ends with: the endpoint's answer, the 429 with the quota, its window and
-- `Retry-After`, or an exception.
pub data Outcome : Type 0 where
  endpoint_runs : Outcome
  limited : ℕ → ℕ → ℕ → Outcome
  raised : Outcome

-- The key of a policy and an identity: the policy's name and the identity's digest.
pub record Key : Type 0 where
  pub policy_name : Text
  pub digest : ℕ

abbrev pub key_eq : Key → Key → Bool
key_eq a b = text_eq a.policy_name b.policy_name && a.digest == b.digest

-- `self._hits[key]` of a `defaultdict(deque)`, and its change.
abbrev pub hits_of : Key → List (Key × List ℕ) → List ℕ
hits_of key [] = []
hits_of key ((k, hits) ∷ rest) = if key_eq k key then hits else hits_of key rest

abbrev pub set_hits : Key → List ℕ → List (Key × List ℕ) → List (Key × List ℕ)
set_hits key hits [] = (key, hits) ∷ []
set_hits key hits ((k, old) ∷ rest) =
    let others = set_hits key hits rest in
    if key_eq k key then (k, hits) ∷ rest else (k, old) ∷ others

-- `RedisRateLimiter`: what Redis holds, the fallback's deques, and until when Redis is left alone.
pub record Limiter (S : Type 0) : Type 0 where
  pub store : S
  pub fallback : List (Key × List ℕ)
  pub unavailable_until : ℕ

-- What a run of the reservation script comes to: the reply with what `int` makes of its elements
-- (none where it raises), one of the errors that are caught (`RedisError`, `OSError` and
-- `TimeoutError`), or another one, as of a reply that is no list.
pub data Reply : Type 0 where
  replied : List (Option ℤ) → Reply
  unavailable : Reply
  other_error : Reply

abbrev pub truthy : ℤ → Bool
truthy (pos n) = not (n == 0)
truthy (negsuc n) = true

-- `connected` says that there is a client (there is none in the test environment). `eval` runs the
-- reservation script in Redis, on a store, and gives the store that is left. `digest` is the digest of
-- an identity.
module _ {S : Type 0} (connected : Bool) (digest : Identity → ℕ)
    (eval : S → Key → ℕ → ℕ → Reply × S) where
  -- `self._fallback.reserve(key, policy)`
  unfoldable pub reserve_fallback :
      RateLimitPolicy → Key → ℕ → Limiter S → Option RateLimitResult × Limiter S
  unfolding reserve_local
  reserve_fallback policy key now l =
      let (r, hits) = reserve_local policy now (hits_of key l.fallback) in
      (r, record l { fallback = set_hits key hits l.fallback })

  -- What is made of the reply. An error that is not caught escapes, also that of a reply that is too
  -- short or not of integers.
  unfoldable pub after_eval :
      RateLimitPolicy → Key → ℕ → Limiter S → Reply → Option RateLimitResult × Limiter S
  unfolding reserve_fallback
  after_eval policy key now l (replied (some allowed ∷ some ttl ∷ rest)) = (
    some (record {
      allowed = truthy allowed;
      retry_after_seconds = if not (truthy allowed) then max 1 (pos_part ttl) else 0;
    }),
    l,
  )
  after_eval policy key now l (replied _) = (none, l)
  after_eval policy key now l unavailable =
      reserve_fallback policy key now (record l { unavailable_until = now + 30 * 1_000_000 })
  after_eval policy key now l other_error = (none, l)

  -- `RedisRateLimiter.reserve`, with one clock for the two that it reads.
  unfoldable pub reserve :
      RateLimitPolicy → Identity → ℕ → Limiter S → Option RateLimitResult × Limiter S
  unfolding after_eval reserve_fallback
  reserve policy who now l =
      let key : Key = record { policy_name = policy.name; digest = digest who } in
      let (reply, store) = eval l.store key policy.max_requests policy.window_seconds in
      if connected && leb l.unavailable_until now
      then after_eval policy key now (record l { store = store }) reply
      else reserve_fallback policy key now l

  -- The endpoint runs, or the request is refused by a policy, or an exception escapes.
  unfoldable pub admit :
      Bool
      → (RateLimitPolicy → Identity)
      → List RateLimitPolicy
      → ℕ
      → Limiter S
      → Outcome × Limiter S
  unfolding reserve
  admit llm_configured who [] now l = (endpoint_runs, l)
  admit llm_configured who (policy ∷ policies) now l =
      let (r, l') = reserve policy (who policy) now l in
      let skipped = admit llm_configured who policies now l in
      let passed = admit llm_configured who policies now l' in
      if policy.requires_llm && not llm_configured then skipped else elim r [
        | none ↦ (raised, l')
        | some q ↦
            if not q.allowed
            then (limited policy.max_requests policy.window_seconds q.retry_after_seconds, l')
            else passed
      ]
