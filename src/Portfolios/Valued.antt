-- ===== src/Portfolios/Valued.antt =====
-- `create_user_valuation_snapshot` of backend/flipradar/services/portfolio_service.py: what the items of
-- a user are worth, recorded once in an hour.
use flipradar.Scoring.Amounts.{Decimal}
use flipradar.Portfolios.Stores.{usd}
use flipradar.Portfolios.Rows.{
  PortfolioValuationSnapshot, PortfolioItem, Tables, PortfolioCondition,
  PortfolioItemValuationSnapshot, Confidence,
}
use flipradar.Portfolios.Holdings.{get_all_portfolio_items_for_user}
use flipradar.Scoring.Valuation.{
  calculate_portfolio_totals, calculate_holding_valuation, HoldingValuation,
}
use flipradar.Base.{
  ℕ, List, Option, Text, ◌*◌, ◌++◌, find, Bool, ◌/◌, if◌then◌else◌, ◌∷◌, is_some, true, ◌==◌, [],
  ◌&&◌, text_eq, none, ◌+◌,
}

-- What `_current_unit_value_map` has for a set in a condition: a value if there are market data.
pub record UnitValue : Type 0 where
  pub unit_value : Option Decimal
  pub confidence : Confidence

-- The market: estimates from the price snapshots, which no operation of this component changes.
pub record Market : Type 0 where
  pub current_unit_value : ℕ → PortfolioCondition → UnitValue

-- `timestamp.replace(minute=0, second=0, microsecond=0)`, in seconds since 1970 in UTC.
abbrev pub window_of : ℕ → ℕ
window_of now = 3600 * (now / 3600)

abbrev pub in_window : ℕ → ℕ → PortfolioValuationSnapshot → Bool
in_window user_id window_start s = s.user_id == user_id && s.window_start == window_start

abbrev pub get_portfolio_valuation_snapshot_for_window :
    ℕ → ℕ → Tables → Option PortfolioValuationSnapshot
get_portfolio_valuation_snapshot_for_window user_id window_start t =
    find (in_window user_id window_start) t.snapshots

-- The currency of all items, if it is one, else "USD".
abbrev pub same_currency : Text → List PortfolioItem → Bool
same_currency c [] = true
same_currency c (i ∷ is) = text_eq i.currency c && same_currency c is

unfoldable pub currency_of : List PortfolioItem → Text
currency_of [] = usd
currency_of (i ∷ is) = if same_currency i.currency is then i.currency else usd

module _ (m : Market) where
  abbrev pub market_value_of : PortfolioItem → UnitValue
  market_value_of i = m.current_unit_value i.lego_set_id i.condition

  unfoldable pub valuation_of : PortfolioItem → HoldingValuation
  unfolding calculate_holding_valuation
  valuation_of i =
      calculate_holding_valuation i.quantity i.purchase_price (market_value_of i).unit_value

  unfoldable pub valuations : List PortfolioItem → List HoldingValuation
  unfolding valuation_of
  valuations [] = []
  valuations (i ∷ is) = valuation_of i ∷ valuations is

  unfoldable pub item_values : ℕ → ℕ → List PortfolioItem → List PortfolioItemValuationSnapshot
  unfolding valuation_of
  item_values snapshot_id now [] = []
  item_values snapshot_id now (i ∷ is) =
      let value : PortfolioItemValuationSnapshot = record {
        portfolio_snapshot_id = snapshot_id;
        portfolio_item_id = i.id;
        unit_value = (market_value_of i).unit_value;
        total_value = (valuation_of i).market_value;
        confidence = (market_value_of i).confidence;
        snapshot_at = now;
      } in
      value ∷ item_values snapshot_id now is

  unfoldable pub snapshot_of : ℕ → ℕ → ℕ → List PortfolioItem → PortfolioValuationSnapshot
  unfolding valuations calculate_portfolio_totals currency_of
  snapshot_of id user_id now is =
      let totals = calculate_portfolio_totals (valuations is) in
      record {
        id = id;
        user_id = user_id;
        cost_basis = totals.total_cost_basis;
        market_value = totals.total_market_value;
        gain_loss = totals.total_gain_loss;
        currency = currency_of is;
        window_start = window_of now;
        snapshot_at = now;
      }

  unfoldable pub create_portfolio_valuation_snapshot : ℕ → ℕ → List PortfolioItem → Tables → Tables
  unfolding snapshot_of item_values
  create_portfolio_valuation_snapshot user_id now is t = record t {
    snapshots = t.snapshots ++ (snapshot_of t.next_id user_id now is ∷ []);
    item_snapshots = t.item_snapshots ++ item_values t.next_id now is;
    next_id = t.next_id + 1;
  }

  unfoldable pub create_user_valuation_snapshot : ℕ → ℕ → Tables → Tables
  unfolding create_portfolio_valuation_snapshot get_all_portfolio_items_for_user
  create_user_valuation_snapshot user_id now t =
      if is_some (get_portfolio_valuation_snapshot_for_window user_id (window_of now) t)
      then t
      else create_portfolio_valuation_snapshot user_id now
          (get_all_portfolio_items_for_user user_id none t) t
