-- ===== src/Scoring/Score.antt =====
-- `score_deal` of backend/flipradar/domain/engines/scoring_engine.py.
use flipradar.Base.{ℕ, ◌+◌, Option, none, some, List}
use flipradar.Base.Int.{pos_part, neg_part, sub_ℕ}
use flipradar.Scoring.Amounts.{
  Decimal, asking_price, shipping_price, fair_value, set_quality_score, valuation_confidence_score,
  product_match_confidence_score, seller_trust_score, marketplace_trust_score, condition_score,
  Checked, ok, ◌>>=◌, non_negative_money, positive_money, normalized_score,
}
use flipradar.Scoring.Report.{Listing, DealScore, Components, Penalty}
use flipradar.Scoring.Deal.{
  component, components_of, condition_completeness_score, penalties_of, confidence_score,
  unvalued_deal, percent_below, value_score, overall_score, deal_band_from_score,
  confidence_band_of, score_breakdown_of, explanations_of,
}

-- The score of a listing with a fair value.
unfoldable pub valued_deal : ℕ → ℕ → ℕ → ℕ → Components → List Penalty → ℕ → DealScore
unfolding percent_below value_score component overall_score score_breakdown_of explanations_of
valued_deal value total_cost price shipping c penalties confidence =
    let percent = percent_below total_cost value in
    let discount = pos_part percent in
    let premium = neg_part percent in
    let scored : Components = record c { value = component 30 (some (value_score percent)) } in
    let score = overall_score scored penalties in
    record {
      score = some score;
      deal_band = deal_band_from_score score;
      confidence_score = confidence;
      confidence_band = confidence_band_of confidence;
      asking_price = price;
      shipping_price = shipping;
      total_cost = total_cost;
      fair_value = some value;
      value_difference = some (sub_ℕ value total_cost);
      price_vs_fair_value_percent = some percent;
      discount_percent = some discount;
      premium_percent = some premium;
      score_components = scored;
      score_breakdown = score_breakdown_of scored penalties (some score) confidence;
      explanations = explanations_of total_cost value discount premium confidence penalties;
    }

-- The end of `score_deal`: without a fair value there is no score.
unfoldable pub priced_deal :
    Option Decimal → ℕ → ℕ → Components → List Penalty → ℕ → Checked DealScore
unfolding unvalued_deal valued_deal positive_money
priced_deal none price shipping c penalties confidence =
    ok (unvalued_deal (price + shipping) price shipping c penalties confidence)
priced_deal (some d) price shipping c penalties confidence =
    positive_money fair_value d >>= λ value.
    ok (valued_deal value (price + shipping) price shipping c penalties confidence)

unfoldable pub score_deal : Listing → Checked DealScore
unfolding non_negative_money normalized_score condition_completeness_score penalties_of
    components_of confidence_score priced_deal
score_deal l = do
  price ← non_negative_money asking_price l.asking_price
  shipping ← non_negative_money shipping_price l.shipping_price
  listing_quality ← normalized_score set_quality_score l.set_quality_score
  valuation_confidence ← normalized_score valuation_confidence_score l.valuation_confidence_score
  product_match ← normalized_score product_match_confidence_score l.product_match_confidence_score
  seller_trust ← normalized_score seller_trust_score l.seller_trust_score
  marketplace_trust ← normalized_score marketplace_trust_score l.marketplace_trust_score
  condition ← normalized_score condition_score l.condition_score
  let condition_completeness = condition_completeness_score condition l.is_complete
  let penalties = penalties_of l.is_unclear l.is_complete l.is_suspicious listing_quality
  let c =
      components_of none product_match valuation_confidence seller_trust marketplace_trust
        condition_completeness listing_quality
  priced_deal l.fair_value price shipping c penalties (confidence_score c penalties)
