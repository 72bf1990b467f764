-- ===== src/Scoring/Decide.antt =====
-- `decide` of backend/flipradar/domain/engines/decision_engine.py. A reason stands for its text, with
-- the values that the text holds.
use flipradar.Base.{Bool, true, false, Option, none, some, leb, ◌^◌, if◌then◌else◌}
use flipradar.Base.Int.{ℤ, leb_ℤ, scale}
use flipradar.Scoring.Amounts.{Decimal}
use flipradar.Scoring.Recommend.{Recommendation, Band, excellent, strong, fair, weak, bad}

-- The members of `UserGoal`. `decide` has a branch for each of them, so that its answer to an
-- unsupported goal cannot come.
pub data UserGoal : Type 0 where
  buy buy_set buy_vs_pass sell sell_set hold hold_or_sell hold_vs_sell : UserGoal

pub data Advice : Type 0 where
  buy_it watch_it pass_it sell_it hold_it : Advice

pub data Reasoning : Type 0 where
  no_snapshots no_asking_price offer_high offer_low : Reasoning
  trend_upward value_favorable value_not_favorable : Reasoning
  below_market margin_is : ℤ → Band → Reasoning

pub data Trend : Type 0 where
  upward not_upward : Trend

pub record DecisionResult : Type 0 where
  pub recommendation : Advice
  pub reasoning : Reasoning

abbrev pub decided : Advice → Reasoning → DecisionResult
decided a r = record { recommendation = a; reasoning = r }

unfoldable pub buy_decision : Recommendation → DecisionResult
buy_decision r =
    if leb 75 r.score
    then decided buy_it (below_market r.margin_percent r.deal_band)
    else if leb 55 r.score
    then decided watch_it (margin_is r.margin_percent r.deal_band)
    else decided pass_it (margin_is r.margin_percent r.deal_band)

-- `asking_price >= fair_value`
abbrev pub at_least : Decimal → Decimal → Bool
at_least a b = leb_ℤ (scale (10 ^ a.places) b.unscaled) (scale (10 ^ b.places) a.unscaled)

unfoldable pub sell_decision : Option Decimal → Decimal → DecisionResult
sell_decision none value = decided hold_it no_asking_price
sell_decision (some asking) value =
    if at_least asking value then decided sell_it offer_high else decided hold_it offer_low

abbrev pub favorable : Band → Bool
favorable excellent = true
favorable strong = true
favorable fair = true
favorable weak = false
favorable bad = false

unfoldable pub hold_or_sell_decision : Recommendation → Trend → DecisionResult
hold_or_sell_decision r upward = decided hold_it trend_upward
hold_or_sell_decision r not_upward =
    if favorable r.deal_band
    then decided sell_it value_favorable
    else decided hold_it value_not_favorable

unfoldable pub goal_decision :
    Recommendation → UserGoal → Option Decimal → Decimal → Trend → DecisionResult
unfolding buy_decision sell_decision hold_or_sell_decision
goal_decision r buy asking value trend = buy_decision r
goal_decision r buy_set asking value trend = buy_decision r
goal_decision r buy_vs_pass asking value trend = buy_decision r
goal_decision r sell asking value trend = sell_decision asking value
goal_decision r sell_set asking value trend = sell_decision asking value
goal_decision r hold asking value trend = hold_or_sell_decision r trend
goal_decision r hold_or_sell asking value trend = hold_or_sell_decision r trend
goal_decision r hold_vs_sell asking value trend = hold_or_sell_decision r trend

unfoldable pub decide :
    Recommendation → UserGoal → Option Decimal → Decimal → Bool → Trend → DecisionResult
unfolding goal_decision
decide r goal asking value false trend = decided watch_it no_snapshots
decide r goal asking value true trend = goal_decision r goal asking value trend
