-- ===== src/RateLimit/Policies.antt =====
-- The policies of a request: `_DEFAULT_POLICY`, `_EXACT_POLICIES`, `_policies_for` and `dispatch` of
-- `EndpointRateLimitMiddleware`.
use Prim.Native.Char.{code}
use Prim.Native.String.{String}
use flipradar.RateLimit.Client.{RateLimitScope, client, credential, global, Identity}
use flipradar.RateLimit.Limiter.{
  RateLimitPolicy, Key, admit, Limiter, Outcome, endpoint_runs, Reply,
}
use flipradar.Base.{
  ℕ, Bool, true, false, List, [], ◌∷◌, Text, ◌==◌, text_eq, if◌then◌else◌, ◌&&◌, ◌||◌, some_row,
}

-- The characters of a text.
abbrev pub codes : String → Text
codes String.[] = []
codes (String.◌∷◌ c s) = code c ∷ codes s

abbrev pub policy : String → ℕ → ℕ → RateLimitScope → Bool → RateLimitPolicy
policy name max_requests window_seconds scope requires_llm = record {
  name = codes name;
  max_requests = max_requests;
  window_seconds = window_seconds;
  scope = scope;
  requires_llm = requires_llm;
}

pub record Entry : Type 0 where
  pub method : Text
  pub path : Text
  pub policies : List RateLimitPolicy

abbrev pub entry : String → String → List RateLimitPolicy → Entry
entry method path policies = record {
  method = codes method;
  path = codes path;
  policies = policies;
}

-- `_DEFAULT_POLICY`
abbrev pub default_policy : RateLimitPolicy
default_policy = policy "api-client" 5_000 86_400 client false

-- `_EXACT_POLICIES`
abbrev pub exact_policies : List Entry
exact_policies =
    entry "POST" "/auth/register" ((policy "auth-register" 5 3_600 client false) ∷ [])
    ∷ entry "POST" "/auth/login" ((policy "auth-login" 10 900 client false) ∷ [])
    ∷ entry "POST" "/auth/mfa/verify" ((policy "auth-mfa-verify" 10 600 client false) ∷ [])
    ∷ entry "POST" "/auth/mfa/reset/request"
        ((policy "auth-mfa-reset-request" 3 3_600 client false) ∷ [])
    ∷ entry "POST" "/auth/mfa/reset/confirm"
        ((policy "auth-mfa-reset-confirm" 5 900 client false) ∷ [])
    ∷ entry "POST" "/auth/verify-email" ((policy "auth-email-verify" 10 900 client false) ∷ [])
    ∷ entry "POST" "/auth/email-change/confirm"
        ((policy "auth-email-change-confirm" 5 900 client false) ∷ [])
    ∷ entry "POST" "/auth/resend-verification"
        ((policy "auth-resend-verification" 3 3_600 credential false) ∷ [])
    ∷ entry "POST" "/auth/password-reset/request"
        ((policy "auth-password-reset-request" 3 3_600 client false) ∷ [])
    ∷ entry "POST" "/auth/password-reset/confirm"
        ((policy "auth-password-reset-confirm" 5 900 client false) ∷ [])
    ∷ entry "POST" "/auth/refresh" ((policy "auth-refresh" 30 900 credential false) ∷ [])
    ∷ entry "PUT" "/users/me/mfa" ((policy "account-mfa-settings" 5 900 credential false) ∷ [])
    ∷ entry "POST" "/users/me/password"
        ((policy "account-password-change" 5 900 credential false) ∷ [])
    ∷ entry "POST" "/users/me/deletion-request"
        ((policy "account-deletion" 3 3_600 credential false) ∷ [])
    ∷ entry "POST" "/users/me/email-change/request"
        ((policy "account-email-change" 3 3_600 credential false) ∷ [])
    ∷ entry "POST" "/listing-evaluations" ((policy "listing-evaluation" 10 900 client false) ∷ [])
    ∷ entry "POST" "/analyze" (
        (policy "recommendation-analysis" 20 600 client false)
        ∷ (policy "llm-global" 100 60 global true)
        ∷ [])
    ∷ entry "POST" "/portfolio/analyze" (
        (policy "portfolio-analysis" 5 600 credential false)
        ∷ (policy "llm-global" 100 60 global true)
        ∷ [])
    ∷ entry "POST" "/portfolio/analytics/refresh"
        ((policy "portfolio-analytics-refresh" 5 900 credential false) ∷ [])
    ∷ entry "POST" "/portfolio/import/preview"
        ((policy "portfolio-import-preview" 5 3_600 credential false) ∷ [])
    ∷ entry "POST" "/portfolio/import" ((policy "portfolio-import" 5 3_600 credential false) ∷ [])
    ∷ entry "POST" "/watchlist/refresh" ((policy "watchlist-refresh" 5 900 credential false) ∷ [])
    ∷ []

-- The policies of a method and a path in the table.
abbrev pub exact : Text → Text → List Entry → List RateLimitPolicy
exact method path [] = []
exact method path (e ∷ es) =
    let rest = exact method path es in
    if text_eq e.method method && text_eq e.path path then e.policies else rest

-- `path.startswith(prefix)`
abbrev pub starts_with : Text → Text → Bool
starts_with [] s = true
starts_with (a ∷ p) [] = false
starts_with (a ∷ p) (b ∷ s) = a == b && starts_with p s

-- `path.endswith(suffix)`
abbrev pub ends_with : Text → Text → Bool
ends_with p [] = text_eq p []
ends_with p (b ∷ s) = text_eq p (b ∷ s) || ends_with p s

abbrev pub is_get : Text → Bool
is_get method = text_eq method (codes "GET")

abbrev pub is_post : Text → Bool
is_post method = text_eq method (codes "POST")

-- The policy of the first test that holds.
abbrev pub first_match : List (Bool × RateLimitPolicy) → List RateLimitPolicy
first_match [] = []
first_match ((test, p) ∷ rest) = let others = first_match rest in if test then p ∷ [] else others

-- The tests for paths that the table does not hold, in order, each with its policy. `refresh` says that
-- the query has `refresh=true`.
abbrev pub patterns : Text → Text → Bool → List (Bool × RateLimitPolicy)
patterns method path refresh =
    (
      is_get method
          && (text_eq path (codes "/sets/search") || text_eq path (codes "/parts/search")),
      policy "catalog-provider-search" 60 600 client false,
    )
    ∷ (
      is_get method && (starts_with (codes "/set/") path || starts_with (codes "/sets/") path),
      policy "set-detail" 60 600 client false,
    )
    ∷ (
      is_post method && starts_with (codes "/listings/") path && ends_with (codes "/analysis") path,
      policy "listing-analysis" 30 600 client false,
    )
    ∷ (
      is_post method
          && starts_with (codes "/saved-searches/") path
          && ends_with (codes "/run") path,
      policy "saved-search-run" 10 600 credential false,
    )
    ∷ (
      is_get method && text_eq path (codes "/deals") && refresh,
      policy "deal-provider-refresh" 5 900 client false,
    )
    ∷ (
      is_post method && starts_with (codes "/marketplace/update/") path,
      policy "marketplace-refresh" 10 3_600 global false,
    )
    ∷ []

unfoldable pub pattern_policies : Text → Text → Bool → List RateLimitPolicy
pattern_policies method path refresh = first_match (patterns method path refresh)

abbrev pub or_else : List RateLimitPolicy → List RateLimitPolicy → List RateLimitPolicy
or_else [] others = others
or_else (p ∷ ps) others = p ∷ ps

-- `_policies_for`
unfoldable pub policies_for : Text → Text → Bool → List RateLimitPolicy
unfolding pattern_policies
policies_for method path refresh =
    or_else (exact method path exact_policies) (pattern_policies method path refresh)

-- `_EXEMPT_PATHS`
abbrev pub exempt_paths : List Text
exempt_paths =
    codes "/health"
    ∷ codes "/health/live"
    ∷ codes "/health/ready"
    ∷ codes "/db-health"
    ∷ codes "/docs"
    ∷ codes "/openapi.json"
    ∷ []

module _ {S : Type 0} (connected : Bool) (digest : Identity → ℕ)
    (eval : S → Key → ℕ → ℕ → Reply × S) where
  -- `dispatch`: an exempt path is not counted, any other by the default policy first.
  unfoldable pub dispatch :
      Bool → (RateLimitPolicy → Identity) → Text → Text → Bool → ℕ → Limiter S → Outcome × Limiter S
  unfolding policies_for admit
  dispatch llm_configured who method path refresh now l =
      if some_row (text_eq path) exempt_paths
      then (endpoint_runs, l)
      else admit connected digest eval llm_configured who
          (default_policy ∷ policies_for method path refresh) now l
