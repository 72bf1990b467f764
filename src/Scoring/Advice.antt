-- ===== src/Scoring/Advice.antt =====
-- What a recommendation to buy or to sell guarantees.
use flipradar.Scoring.Decide.{
  UserGoal, buy, buy_set, buy_vs_pass, goal_decision, buy_decision, sell_decision,
  hold_or_sell_decision,
}
use flipradar.Base.{refl, true, false, some, none, Bool-cases, leb, inl, inr}
use flipradar.Scoring.Amounts.{Decimal}
use flipradar.Scoring.Decide.{UserGoal, Trend, decide, buy_it}
use flipradar.Base.Int.{ℤ, ◌+ℤ◌, pos, ◌≤ℤ◌, pos_part}
use flipradar.Scoring.Recommend.{
  scored, base_score, Confidence, score_recommendation, no_price, Recommendation, margin_of,
}
use flipradar.Base.{ℕ, ◌≤◌, arith, Option, ◌≡◌, Bool, true}

-- A score of 75 or more, from which the adjustments only take away, needs a margin of 5%.
scored-margin :
    (margin : ℤ) (confidence : Confidence) (n : ℕ)
    → 75 ≤ (scored margin confidence n).score
    → pos 50 ≤ℤ margin
unfolding scored base_score ◌+ℤ◌
scored-margin margin confidence n h = ground arith

score_recommendation-margin :
    (asking : Option Decimal) (worth : Decimal) (confidence : Confidence) (n : ℕ)
    → 75 ≤ (score_recommendation asking worth confidence n).score
    → pos 50 ≤ℤ (score_recommendation asking worth confidence n).margin_percent
unfolding score_recommendation no_price
score_recommendation-margin none worth confidence n h = omega arith
score_recommendation-margin (some asking) worth confidence n h =
    elim (Bool-cases (leb (pos_part worth.unscaled) 0)) [
      | inl poor ↦ omega (arith, rw poor at h)
      | inr priced ↦
          rw priced (scored-margin (margin_of asking worth) confidence n (rw priced at h))
    ]

buy_decision-buy_it : (r : Recommendation) → (buy_decision r).recommendation ≡ buy_it → 75 ≤ r.score
unfolding buy_decision
buy_decision-buy_it r h = ground arith

decide_buys :
    (r : Recommendation) (goal : UserGoal) (asking : Option Decimal) (worth : Decimal)
    (has_snapshots : Bool) (trend : Trend)
    → (decide r goal asking worth has_snapshots trend).recommendation ≡ buy_it
    → (has_snapshots ≡ true) × (75 ≤ r.score)
unfolding decide goal_decision sell_decision hold_or_sell_decision
decide_buys r goal asking worth false trend h = cc
decide_buys r buy asking worth true trend h = (refl, buy_decision-buy_it r h)
decide_buys r buy_set asking worth true trend h = (refl, buy_decision-buy_it r h)
decide_buys r buy_vs_pass asking worth true trend h = (refl, buy_decision-buy_it r h)
decide_buys r goal asking worth true trend h = ground arith

-- A recommendation to buy rests on price snapshots and on an asking price that is, rounded to a tenth,
-- at least 5% below the fair value.
pub decide-buy_it :
    (asking : Option Decimal) (worth : Decimal) (confidence : Confidence) (listing_count : ℕ)
    (goal : UserGoal) (has_snapshots : Bool) (trend : Trend)
    → let r = score_recommendation asking worth confidence listing_count in
      (decide r goal asking worth has_snapshots trend).recommendation ≡ buy_it
      → (has_snapshots ≡ true) × (pos 50 ≤ℤ r.margin_percent)
decide-buy_it asking worth confidence listing_count goal has_snapshots trend h =
    let (snapshots, good) = decide_buys _ goal asking worth has_snapshots trend h in
    (snapshots, score_recommendation-margin asking worth confidence listing_count good)
