-- ===== src/RateLimit/Dispatch.antt =====
-- What holds of the policies of every request.
use flipradar.RateLimit.Answers.{admit-answers, answers, is_documented}
use flipradar.RateLimit.Client.{Identity, client, credential, global}
use flipradar.RateLimit.Limiter.{
  RateLimitPolicy, Key, Limiter, Outcome, admit, endpoint_runs, Reply,
}
use flipradar.RateLimit.Policies.{
  dispatch, default_policy, policies_for, Entry, or_else, exact, exact_policies, pattern_policies,
  policy, exempt_paths, patterns, first_match,
}
use flipradar.Base.{
  ℕ, List, All, Bool, Text, ◌∷◌, if◌then◌else◌, ◌++◌, [], text_eq, true, false, ◌&&◌, some_row, ◌<◌,
  arith, ◌≡◌, refl,
}

-- Every policy that a request may have, the default one first.
abbrev flat : List Entry → List RateLimitPolicy
flat [] = []
flat (e ∷ es) = e.policies ++ flat es

abbrev by_pattern : List RateLimitPolicy
by_pattern =
    policy "catalog-provider-search" 60 600 client false
    ∷ policy "set-detail" 60 600 client false
    ∷ policy "listing-analysis" 30 600 client false
    ∷ policy "saved-search-run" 10 600 credential false
    ∷ policy "deal-provider-refresh" 5 900 client false
    ∷ policy "marketplace-refresh" 10 3_600 global false
    ∷ []

abbrev catalogue : List RateLimitPolicy
catalogue = default_policy ∷ (flat exact_policies ++ by_pattern)

All-split : {A : Type 0} (P : A → Type 0) (xs ys : List A) → All P (xs ++ ys) → All P xs × All P ys
All-split P [] ys h = (tt, h)
All-split P (x ∷ xs) ys h = let (k, l) = All-split P xs ys h.1 in ((h.0, k), l)

module _ (P : RateLimitPolicy → Type 0) where
  All-if :
      (b : Bool) (xs ys : List RateLimitPolicy) → All P xs → All P ys → All P (if b then xs else ys)
  All-if true xs ys h k = h
  All-if false xs ys h k = k

  All-first_match :
      (ts : List (Bool × RateLimitPolicy)) → All (λ t. P t.1) ts → All P (first_match ts)
  All-first_match [] h = tt
  All-first_match ((test, p) ∷ ts) h =
      All-if test (p ∷ []) (first_match ts) (h.0, tt) (All-first_match ts h.1)

  All-or_else : (xs ys : List RateLimitPolicy) → All P xs → All P ys → All P (or_else xs ys)
  All-or_else [] ys h k = k
  All-or_else (x ∷ xs) ys h k = h

  All-exact :
      (method path : Text) (es : List Entry) → All P (flat es) → All P (exact method path es)
  All-exact method path [] h = tt
  All-exact method path (e ∷ es) h =
      let (k, l) = All-split P e.policies (flat es) h in
      All-if (text_eq e.method method && text_eq e.path path) e.policies (exact method path es) k
        (All-exact method path es l)

  -- What holds of the catalogue holds of the policies of every request.
  policies_for-All :
      (method path : Text) (refresh : Bool)
      → All P catalogue
      → All P (default_policy ∷ policies_for method path refresh)
  unfolding policies_for pattern_policies
  policies_for-All method path refresh h =
      let (table, found) = All-split P (flat exact_policies) by_pattern h.1 in
      (
        h.0,
        All-or_else (exact method path exact_policies) (pattern_policies method path refresh)
            (All-exact method path exact_policies table)
            (All-first_match (patterns method path refresh) found),
      )

dispatched :
    {S : Type 0} (policies : List RateLimitPolicy) (b : Bool) (l : Limiter S)
    (o : Outcome × Limiter S)
    → answers policies o.0 ≡ true
    → answers policies (if◌then◌else◌ {A = Outcome × Limiter S} b (endpoint_runs, l) o).0 ≡ true
unfolding answers
dispatched policies true l o h = refl
dispatched policies false l o h = h

-- If Redis gives the script's two integers or fails with one of the errors that are caught, every
-- request, whatever its method, path and query, reaches its endpoint or ends in a 429 that names the
-- quota and the window of one of its policies and at least a second to wait. None ends in an
-- exception of the limiter.
pub dispatch-answers :
    {S : Type 0} (connected : Bool) (digest : Identity → ℕ) (eval : S → Key → ℕ → ℕ → Reply × S)
    (llm_configured : Bool) (who : RateLimitPolicy → Identity) (method path : Text) (refresh : Bool)
    (now : ℕ) (l : Limiter S)
    → ((s : S) (key : Key) (quota seconds : ℕ) → is_documented (eval s key quota seconds).0 ≡ true)
    → answers
        (default_policy ∷ policies_for method path refresh)
        (dispatch connected digest eval llm_configured who method path refresh now l).0
      ≡ true
unfolding dispatch
dispatch-answers connected digest eval llm_configured who method path refresh now l documented =
    let policies : List RateLimitPolicy = default_policy ∷ policies_for method path refresh in
    dispatched policies (some_row (text_eq path) exempt_paths) l
      (admit connected digest eval llm_configured who policies now l)
      (admit-answers connected digest eval documented llm_configured who policies now l
        (policies_for-All (λ policy. 0 < policy.max_requests) method path refresh (omega arith)))
