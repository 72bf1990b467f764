-- ===== src/Scoring/Valuation.antt =====
-- Holdings and portfolio totals of backend/flipradar/domain/engines/portfolio_valuation.py, in cents;
-- percents are in hundredths.
use flipradar.Base.{ℕ, Option, none, some, List, [], ◌∷◌, if◌then◌else◌}
use flipradar.Base.Int.{ℤ, pos, ◌+ℤ◌, ◌-ℤ◌, scale, pos_part, ltb_ℤ}
use flipradar.Base.Decimal.{quantize}
use flipradar.Scoring.Amounts.{Decimal, money}

pub record HoldingValuation : Type 0 where
  pub cost_basis : ℤ
  pub market_value : Option ℤ
  pub unrealized_gain_loss : Option ℤ
  pub unrealized_gain_loss_percent : Option ℤ

pub record PortfolioTotals : Type 0 where
  pub total_cost_basis : ℤ
  pub total_market_value : ℤ
  pub total_gain_loss : ℤ
  pub total_gain_loss_percent : Option ℤ

-- `_money(Decimal(quantity) * price)`
unfoldable pub money_of : ℕ → Decimal → ℤ
unfolding money
money_of quantity price =
    money (record { unscaled = scale quantity price.unscaled; places = price.places })

-- `_money(gain / basis * 100)`, if the basis is positive
unfoldable pub percent_of : ℤ → ℤ → Option ℤ
percent_of gain basis =
    if ltb_ℤ (pos 0) basis then some (quantize (scale 10_000 gain) (pos_part basis)) else none

unfoldable pub calculate_holding_valuation : ℕ → Decimal → Option Decimal → HoldingValuation
unfolding money_of percent_of
calculate_holding_valuation quantity purchase_price none = record {
  cost_basis = money_of quantity purchase_price;
  market_value = none;
  unrealized_gain_loss = none;
  unrealized_gain_loss_percent = none;
}
calculate_holding_valuation quantity purchase_price (some unit_market_value) =
    let cost_basis = money_of quantity purchase_price in
    let market_value = money_of quantity unit_market_value in
    let gain_loss = market_value -ℤ cost_basis in
    record {
      cost_basis = cost_basis;
      market_value = some market_value;
      unrealized_gain_loss = some gain_loss;
      unrealized_gain_loss_percent = percent_of gain_loss cost_basis;
    }

unfoldable pub total_cost_basis : List HoldingValuation → ℤ
total_cost_basis [] = pos 0
total_cost_basis (h ∷ hs) = h.cost_basis +ℤ total_cost_basis hs

-- The sums over the holdings with a market value.
unfoldable pub total_market_value : List HoldingValuation → ℤ
total_market_value [] = pos 0
total_market_value (h ∷ hs) =
    let rest = total_market_value hs in elim h.market_value [ none ↦ rest | some v ↦ v +ℤ rest ]

unfoldable pub valued_cost_basis : List HoldingValuation → ℤ
valued_cost_basis [] = pos 0
valued_cost_basis (h ∷ hs) =
    let rest = valued_cost_basis hs in
    elim h.market_value [ none ↦ rest | some v ↦ h.cost_basis +ℤ rest ]

unfoldable pub calculate_portfolio_totals : List HoldingValuation → PortfolioTotals
unfolding total_cost_basis total_market_value valued_cost_basis percent_of
calculate_portfolio_totals holdings =
    let gain = total_market_value holdings -ℤ valued_cost_basis holdings in
    record {
      total_cost_basis = total_cost_basis holdings;
      total_market_value = total_market_value holdings;
      total_gain_loss = gain;
      total_gain_loss_percent = percent_of gain (valued_cost_basis holdings);
    }
