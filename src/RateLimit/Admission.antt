-- ===== src/RateLimit/Admission.antt =====
-- What the reservations of `RedisRateLimiter` come to once Redis has failed.
use flipradar.RateLimit.Client.{Identity}
use flipradar.RateLimit.Limiter.{
  RateLimitPolicy, Key, reserve, reserve_fallback, Limiter, RateLimitResult, Reply,
}
use flipradar.Base.{[], ◌∷◌, Bool, ℕ, List, Option}

-- A reservation: its policy, who asks, and when.
pub record Ask : Type 0 where
  pub policy : RateLimitPolicy
  pub who : Identity
  pub at : ℕ

module _ {S : Type 0} (connected : Bool) (digest : Identity → ℕ)
    (eval : S → Key → ℕ → ℕ → Reply × S) where
  abbrev pub key_of : RateLimitPolicy → Identity → Key
  key_of policy who = record { policy_name = policy.name; digest = digest who }

  -- The results of one reservation after the other.
  unfoldable pub reserve_each : List Ask → Limiter S → List (Option RateLimitResult) × Limiter S
  unfolding reserve
  reserve_each [] l = ([], l)
  reserve_each (ask ∷ asks) l =
      let (r, l') = reserve connected digest eval ask.policy ask.who ask.at l in
      let (rs, last) = reserve_each asks l' in (r ∷ rs, last)

  -- The same, all made by the local fallback.
  unfoldable pub fallback_each : List Ask → Limiter S → List (Option RateLimitResult) × Limiter S
  unfolding reserve_fallback
  fallback_each [] l = ([], l)
  fallback_each (ask ∷ asks) l =
      let (r, l') =
        reserve_fallback connected digest eval ask.policy (key_of ask.policy ask.who) ask.at l in
      let (rs, last) = fallback_each asks l' in (r ∷ rs, last)
