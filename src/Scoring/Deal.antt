-- ===== src/Scoring/Deal.antt =====
-- The deal score of backend/flipradar/domain/engines/scoring_engine.py. Amounts are cents, percents
-- and scores of components are tenths, weights are hundredths, penalties are points.
use flipradar.Scoring.Report.{
  excellent, good, fair, risky, poor, unscored, high, medium, low, Penalty, DealBand, Components,
  ConfidenceBand, Comparison, PenaltyReason, Component, Explanation, at_fair_value, DealScore,
  ScoreBreakdown, unclear_listing, premium_of, penalty_applied, incomplete_listing, cost_is,
  evidence_is, suspicious_listing, discount_of, needs_fair_value, low_quality_listing,
}
use flipradar.Base.{
  ℕ, zero, suc, ◌+◌, ◌*◌, min, Bool, true, false, Option, none, some, List, [], ◌∷◌, ◌++◌, ltb, leb,
  if◌then◌else◌,
}
use flipradar.Base.Int.{ℤ, pos, sub_ℕ, ◌+ℤ◌, scale, pos_part}
use flipradar.Base.Decimal.{quantize, round_half_up}

-- A number of units of 1 / d, rounded to an integer and brought between 0 and 100.
unfoldable pub to_score : ℤ → ℕ → ℕ
to_score a d = min 100 (pos_part (quantize a d))

unfoldable pub component : ℕ → Option ℕ → Component
component weight raw_score = record {
  weight = weight;
  raw_score = raw_score;
  weighted_score = elim raw_score [ none ↦ none | some r ↦ some (round_half_up (r * weight) 100) ];
}

-- `component[...] or Decimal("0")`
abbrev pub or_zero : Option ℕ → ℕ
or_zero none = 0
or_zero (some n) = n

unfoldable pub components_of : Option ℕ → ℕ → ℕ → ℕ → ℕ → ℕ → ℕ → Components
components_of value_score product_match valuation_confidence seller_trust marketplace_trust
      condition_completeness listing_quality =
    record {
      value = component 30 value_score;
      product_match = component 15 (some product_match);
      valuation_confidence = component 15 (some valuation_confidence);
      seller_trust = component 10 (some seller_trust);
      marketplace_trust = component 10 (some marketplace_trust);
      condition_completeness = component 10 (some condition_completeness);
      listing_quality = component 10 (some listing_quality);
    }

-- The sum of the weighted scores, in tenths.
unfoldable pub weighted_sum : Components → ℕ
weighted_sum c =
    or_zero c.value.weighted_score
    + or_zero c.product_match.weighted_score
    + or_zero c.valuation_confidence.weighted_score
    + or_zero c.seller_trust.weighted_score
    + or_zero c.marketplace_trust.weighted_score
    + or_zero c.condition_completeness.weighted_score
    + or_zero c.listing_quality.weighted_score

unfoldable pub penalty_total : List Penalty → ℕ
penalty_total [] = 0
penalty_total (p ∷ ps) = p.points + penalty_total ps

unfoldable pub overall_score : Components → List Penalty → ℕ
unfolding weighted_sum penalty_total to_score
overall_score c penalties = to_score (sub_ℕ (weighted_sum c) (10 * penalty_total penalties)) 10

-- The raw scores by the weights of confidence, exactly, in thousandths.
unfoldable pub confidence_sum : Components → ℕ
confidence_sum c =
    or_zero c.product_match.raw_score * 25
    + or_zero c.valuation_confidence.raw_score * 25
    + or_zero c.seller_trust.raw_score * 15
    + or_zero c.marketplace_trust.raw_score * 15
    + or_zero c.condition_completeness.raw_score * 10
    + or_zero c.listing_quality.raw_score * 10

unfoldable pub confidence_score : Components → List Penalty → ℕ
unfolding confidence_sum penalty_total to_score
confidence_score c penalties =
    to_score (sub_ℕ (confidence_sum c) (1000 * penalty_total penalties)) 1000

abbrev pub completeness_score : Option Bool → ℕ
completeness_score none = 500
completeness_score (some true) = 1000
completeness_score (some false) = 0

unfoldable pub condition_completeness_score : ℕ → Option Bool → ℕ
condition_completeness_score condition is_complete =
    round_half_up (condition * 70 + completeness_score is_complete * 30) 100

abbrev pub is_incomplete : Option Bool → Bool
is_incomplete (some false) = true
is_incomplete _ = false

abbrev pub penalty_if : Bool → PenaltyReason → ℕ → List Penalty
penalty_if true reason points = record { reason = reason; points = points } ∷ []
penalty_if false reason points = []

unfoldable pub penalties_of : Bool → Option Bool → Bool → ℕ → List Penalty
penalties_of is_unclear is_complete is_suspicious listing_quality =
    penalty_if is_unclear unclear_listing 10
    ++ penalty_if (is_incomplete is_complete) incomplete_listing 15
    ++ penalty_if is_suspicious suspicious_listing 25
    ++ penalty_if (ltb listing_quality 600) low_quality_listing 10

-- -25% maps to 0, 0% to 50, and +25% maps to 100.
unfoldable pub value_score : ℤ → ℕ
value_score percent = min 1000 (pos_part (scale 2 (percent +ℤ pos 250)))

abbrev pub deal_band_from_score : ℕ → DealBand
deal_band_from_score score =
    if leb 85 score
    then excellent
    else if leb 70 score
    then good
    else if leb 50 score
    then fair
    else if leb 30 score
    then risky
    else poor

abbrev pub confidence_band_of : ℕ → ConfidenceBand
confidence_band_of score = if leb 80 score then high else if leb 55 score then medium else low

unfoldable pub score_breakdown_of : Components → List Penalty → Option ℕ → ℕ → ScoreBreakdown
unfolding weighted_sum penalty_total to_score
score_breakdown_of c penalties score confidence = record {
  components = c;
  base_score = elim score [ none ↦ none | some s ↦ some (to_score (pos (weighted_sum c)) 10) ];
  penalties = penalties;
  penalty_total = penalty_total penalties;
  score = score;
  confidence_score = confidence;
}

abbrev penalty_explanations : List Penalty → List Explanation
penalty_explanations [] = []
penalty_explanations (p ∷ ps) = penalty_applied p.reason p.points ∷ penalty_explanations ps

abbrev comparison_of : ℕ → ℕ → Comparison
comparison_of zero zero = at_fair_value
comparison_of zero (suc n) = premium_of (suc n)
comparison_of (suc n) premium = discount_of (suc n)

unfoldable pub explanations_of : ℕ → ℕ → ℕ → ℕ → ℕ → List Penalty → List Explanation
explanations_of total_cost value discount premium confidence penalties =
    cost_is total_cost value (comparison_of discount premium)
    ∷ evidence_is confidence (confidence_band_of confidence)
    ∷ penalty_explanations penalties

unfoldable pub unvalued_deal : ℕ → ℕ → ℕ → Components → List Penalty → ℕ → DealScore
unfolding score_breakdown_of
unvalued_deal total_cost price shipping c penalties confidence = record {
  score = none;
  deal_band = unscored;
  confidence_score = confidence;
  confidence_band = confidence_band_of confidence;
  asking_price = price;
  shipping_price = shipping;
  total_cost = total_cost;
  fair_value = none;
  value_difference = none;
  price_vs_fair_value_percent = none;
  discount_percent = none;
  premium_percent = none;
  score_components = c;
  score_breakdown = score_breakdown_of c penalties none confidence;
  explanations = needs_fair_value ∷ [];
}

-- How far the cost is below the fair value, in tenths of a percent of the value.
unfoldable pub percent_below : ℕ → ℕ → ℤ
percent_below total_cost value = quantize (scale 1000 (sub_ℕ value total_cost)) value
