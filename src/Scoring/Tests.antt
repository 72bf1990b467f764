-- ===== src/Scoring/Tests.antt =====
-- Concrete amounts, on which the theorems about the engines are applied.
use flipradar.Base.Decimal.{quantize, round_half_up}
use flipradar.Scoring.Bounds.{valued_deal-le, valued_deal-base_score, value_score-percent_below}
use flipradar.Scoring.Advice.{decide-buy_it}
use flipradar.Scoring.Totals.{valued, sum_of_gains, calculate_portfolio_totals-gain}
use flipradar.Scoring.Score.{valued_deal}
use flipradar.Scoring.Amounts.{Decimal}
use flipradar.Scoring.Deal.{value_score, or_zero, percent_below, components_of, penalties_of}
use flipradar.Scoring.Valuation.{
  calculate_portfolio_totals, HoldingValuation, calculate_holding_valuation,
}
use flipradar.Scoring.Report.{Penalty, Components}
use flipradar.Base.{
  ℕ, ◌*◌, ◌≡◌, refl, true, false, Option, none, some, List, [], ◌∷◌, map, ◌≤◌, arith,
}
use flipradar.Base.Int.{◌+ℤ◌, ◌-ℤ◌, pos, ◌≤ℤ◌, scale}
use flipradar.Scoring.Recommend.{
  high, score_recommendation, base_score, margin_of, scored, no_price,
}
use flipradar.Scoring.Decide.{
  upward, buy, buy_decision, decide, goal_decision, hold_or_sell_decision, sell_decision,
}

value_score-percent_below_example :
    (5 * 10_000 ≤ 4 * 7_500 → value_score (percent_below 7_500 10_000) ≡ 0)
    × (◌≡◌ {A = ℕ} 7_500 10_000 → value_score (percent_below 7_500 10_000) ≡ 500)
    × (4 * 7_500 ≤ 3 * 10_000 → value_score (percent_below 7_500 10_000) ≡ 1000)
value_score-percent_below_example = value_score-percent_below 7_500 10_000 (omega arith)

-- The evidence on a listing, and a penalty.
abbrev evidence : Components
evidence = components_of none 900 800 700 1000 850 600

abbrev unclear : List Penalty
unclear = penalties_of true (some true) false 900

valued_deal-le_example :
    or_zero (valued_deal 10_000 9_000 9_000 0 evidence unclear 80).score
    ≤ or_zero (valued_deal 10_000 7_000 6_500 500 evidence unclear 80).score
valued_deal-le_example =
    valued_deal-le 10_000 7_000 9_000 9_000 6_500 0 500 80 80 evidence unclear (omega arith)
      (omega arith)

valued_deal-base_score_example :
    (or_zero (valued_deal 10_000 9_000 9_000 0 evidence unclear 80).score
      ≤ or_zero (valued_deal 10_000 9_000 9_000 0 evidence unclear 80).score_breakdown.base_score)
    × (or_zero (valued_deal 10_000 9_000 9_000 0 evidence unclear 80).score_breakdown.base_score
        ≤ 100)
valued_deal-base_score_example = valued_deal-base_score 10_000 9_000 9_000 0 80 evidence unclear

abbrev amount : ℕ → Decimal
amount n = record { unscaled = pos n; places = 2 }

decide-buy_it_example :
    (true ≡ true)
    × (pos 50 ≤ℤ (score_recommendation (some (amount 8_000)) (amount 10_000) high 9).margin_percent)
unfolding base_score buy_decision decide goal_decision hold_or_sell_decision margin_of quantize
    round_half_up scale score_recommendation scored sell_decision no_price ◌+ℤ◌ ◌-ℤ◌
decide-buy_it_example =
    decide-buy_it (some (amount 8_000)) (amount 10_000) high 9 buy true upward refl

-- Two lots with a market value and one without.
abbrev lots : List (ℕ × Decimal × Option Decimal)
lots =
    (2, amount 1_050, some (amount 1_299))
    ∷ (1, amount 500, none)
    ∷ (3, amount 999, some (amount 700))
    ∷ []

calculate_portfolio_totals-gain_example :
    (calculate_portfolio_totals (map valued lots)).total_gain_loss ≡ sum_of_gains (map valued lots)
calculate_portfolio_totals-gain_example = calculate_portfolio_totals-gain lots

abbrev lot : ℕ → HoldingValuation
lot n = calculate_holding_valuation n (amount 1_050) (some (amount 1_299))
