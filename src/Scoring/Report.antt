-- ===== src/Scoring/Report.antt =====
-- What goes into a deal score and what comes out of it, of
-- backend/flipradar/domain/engines/scoring_engine.py. Amounts are cents, percents and scores of
-- components are tenths, weights are hundredths, penalties are points.
use flipradar.Base.{ℕ, Bool, Option, List}
use flipradar.Base.Int.{ℤ}
use flipradar.Scoring.Amounts.{Decimal}

pub data PenaltyReason : Type 0 where
  unclear_listing incomplete_listing suspicious_listing low_quality_listing : PenaltyReason

pub record Penalty : Type 0 where
  pub reason : PenaltyReason
  pub points : ℕ

pub record Component : Type 0 where
  pub weight : ℕ
  pub raw_score : Option ℕ
  pub weighted_score : Option ℕ

pub record Components : Type 0 where
  pub value : Component
  pub product_match : Component
  pub valuation_confidence : Component
  pub seller_trust : Component
  pub marketplace_trust : Component
  pub condition_completeness : Component
  pub listing_quality : Component

pub data DealBand : Type 0 where
  excellent good fair risky poor unscored : DealBand

pub data ConfidenceBand : Type 0 where
  high medium low : ConfidenceBand

pub data Comparison : Type 0 where
  discount_of premium_of : ℕ → Comparison
  at_fair_value : Comparison

-- The explanations by the values that their texts hold.
pub data Explanation : Type 0 where
  needs_fair_value : Explanation
  cost_is : ℕ → ℕ → Comparison → Explanation
  evidence_is : ℕ → ConfidenceBand → Explanation
  penalty_applied : PenaltyReason → ℕ → Explanation

pub record ScoreBreakdown : Type 0 where
  pub components : Components
  pub base_score : Option ℕ
  pub penalties : List Penalty
  pub penalty_total : ℕ
  pub score : Option ℕ
  pub confidence_score : ℕ

pub record DealScore : Type 0 where
  pub score : Option ℕ
  pub deal_band : DealBand
  pub confidence_score : ℕ
  pub confidence_band : ConfidenceBand
  pub asking_price : ℕ
  pub shipping_price : ℕ
  pub total_cost : ℕ
  pub fair_value : Option ℕ
  pub value_difference : Option ℤ
  pub price_vs_fair_value_percent : Option ℤ
  pub discount_percent : Option ℕ
  pub premium_percent : Option ℕ
  pub score_components : Components
  pub score_breakdown : ScoreBreakdown
  pub explanations : List Explanation

pub record Listing : Type 0 where
  pub asking_price : Decimal
  pub shipping_price : Decimal
  pub fair_value : Option Decimal
  pub set_quality_score : Decimal
  pub valuation_confidence_score : Decimal
  pub product_match_confidence_score : Decimal
  pub seller_trust_score : Decimal
  pub marketplace_trust_score : Decimal
  pub condition_score : Decimal
  pub is_complete : Option Bool
  pub is_unclear : Bool
  pub is_suspicious : Bool
