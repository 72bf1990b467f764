-- ===== src/RateLimit/Tests.antt =====
-- Concrete requests, on which the theorems about rate limits are applied.
use flipradar.RateLimit.Policies.{dispatch, policies_for, codes, default_policy}
use flipradar.RateLimit.Admission.{Ask}
use flipradar.RateLimit.Answers.{answers, is_documented}
use flipradar.RateLimit.Dispatch.{dispatch-answers}
use flipradar.Base.Int.{pos}
use flipradar.RateLimit.Chain.{resolve-spoofed}
use flipradar.RateLimit.Limiter.{
  Limiter, Reply, replied, unavailable, Key, reserve_local, RateLimitPolicy, drop_expired, window,
}
use flipradar.RateLimit.Window.{
  counts_at, reserve_all, is_allowed, reserve_local-retry_after, reserve_all-max_requests,
}
use flipradar.Base.{
  ℕ, ◌+◌, ◌*◌, ◌≡◌, refl, Bool, true, false, none, some, [], ◌∷◌, ◌≤◌, arith, ◌==◌, count_by,
  length, List,
}
use flipradar.RateLimit.Client.{client, everyone, address, entries, Identity, resolve}

-- Two requests a minute.
abbrev policy : RateLimitPolicy
policy = record {
  name = 97 ∷ [];
  max_requests = 2;
  window_seconds = 60;
  scope = client;
  requires_llm = false;
}

reserve_all-max_requests_example :
    count_by
      (counts_at (window policy) 31_000_000)
      (reserve_all policy (10_000_000 ∷ 10_000_000 ∷ 10_000_000 ∷ []) ([], [], 0)).1
    ≤ 2
reserve_all-max_requests_example =
    reserve_all-max_requests policy (10_000_000 ∷ 10_000_000 ∷ 10_000_000 ∷ []) 0 31_000_000
      (omega arith)

reserve_local-retry_after_example :
    is_allowed
      (reserve_local policy
        (30_000_000 + 41 * 1_000_000)
        (reserve_local policy 30_000_000 (10_000_000 ∷ 20_000_000 ∷ [])).1).0
    ≡ true
unfolding reserve_local drop_expired
reserve_local-retry_after_example =
    reserve_local-retry_after policy 30_000_000 (10_000_000 ∷ 20_000_000 ∷ [])
      (record { allowed = false; retry_after_seconds = 40 }) (omega arith) refl refl

-- The proxies of a private network.
abbrev is_proxy : ℕ → Bool
is_proxy a = a == 10

resolve-spoofed_example :
    (resolve is_proxy (some 10) (entries (some 1 ∷ some 2 ∷ some 10 ∷ [])) ≡ address 2)
    × (is_proxy 10 ≡ false → resolve is_proxy (some 10) (entries (none ∷ some 1 ∷ [])) ≡ address 10)
unfolding resolve
resolve-spoofed_example =
    resolve-spoofed is_proxy 10 (some 1 ∷ []) (10 ∷ []) 2 (entries (none ∷ some 1 ∷ [])) refl
      (refl, tt)

-- A Redis that is down, and one that refuses.
abbrev down : ℕ → Key → ℕ → ℕ → Reply × ℕ
down s key quota seconds = (unavailable, s)

abbrev full : ℕ → Key → ℕ → ℕ → Reply × ℕ
full s key quota seconds = (replied (some (pos 0) ∷ some (pos 7) ∷ []), s)

abbrev idle : Limiter ℕ
idle = record { store = 0; fallback = []; unavailable_until = 0 }

abbrev no_digest : Identity → ℕ
no_digest who = 0

abbrev asks : List Ask
asks =
    record { policy = policy; who = everyone; at = 6 }
    ∷ record { policy = policy; who = everyone; at = 20_000_000 }
    ∷ []

dispatch-answers_example :
    answers
      (default_policy ∷ policies_for (codes "POST") (codes "/auth/login") false)
      (dispatch true no_digest full false
        (λ q. everyone)
        (codes "POST")
        (codes "/auth/login")
        false
        5
        idle).0
    ≡ true
unfolding is_documented
dispatch-answers_example =
    dispatch-answers true no_digest full false (λ q. everyone) (codes "POST") (codes "/auth/login")
      false 5 idle (λ s key quota seconds. refl)

-- An exact entry, a pattern, and a path with neither.
three_paths :
    (length (policies_for (codes "POST") (codes "/analyze") false) ≡ 2)
    × (length (policies_for (codes "POST") (codes "/listings/4/analysis") false) ≡ 1)
    × (length (policies_for (codes "GET") (codes "/portfolio") false) ≡ 0)
unfolding policies_for
three_paths = (refl, refl, refl)
