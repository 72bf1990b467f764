-- ===== src/Portfolios/Summary.antt =====
-- `calculate_portfolio_summary` and `_portfolio_summary_from_items` of
-- backend/flipradar/services/portfolio_service.py: the totals of the holdings, by set and condition and
-- all at once. The items are those that `get_all_portfolio_items_for_user` gives, read before.
use flipradar.Scoring.Amounts.{Decimal}
use flipradar.Portfolios.Imports.{same_condition}
use flipradar.Base.Int.{ℤ, pos, ◌+ℤ◌}
use flipradar.Portfolios.Rows.{PortfolioCondition, PortfolioItem}
use flipradar.Scoring.Valuation.{
  PortfolioTotals, HoldingValuation, calculate_portfolio_totals, percent_of, total_cost_basis,
  total_market_value, calculate_holding_valuation,
}
use flipradar.Portfolios.Valued.{Market, valuations, market_value_of}
use flipradar.Base.{
  ℕ, Option, List, some, Bool, ◌∷◌, none, ◌++◌, if◌then◌else◌, [], length, false, ◌==◌, ◌+◌,
  some_row, ◌&&◌,
}

-- The key of `grouped`. A set has one number, so that its identifier serves.
abbrev pub same_holding : PortfolioItem → PortfolioItem → Bool
same_holding i j = i.lego_set_id == j.lego_set_id && same_condition i.condition j.condition

abbrev pub is_of_group : PortfolioItem → List PortfolioItem → Bool
is_of_group i [] = false
is_of_group i (j ∷ js) = same_holding i j

-- `grouped[(item.set_number, item.condition)].append(item)`: the groups in the order of their first
-- items.
unfoldable pub append_to_group :
    PortfolioItem → List (List PortfolioItem) → List (List PortfolioItem)
append_to_group i [] = (i ∷ []) ∷ []
append_to_group i (g ∷ gs) =
    let rest = append_to_group i gs in if is_of_group i g then (g ++ (i ∷ [])) ∷ gs else g ∷ rest

unfoldable pub grouped : List (List PortfolioItem) → List PortfolioItem → List (List PortfolioItem)
unfolding append_to_group
grouped gs [] = gs
grouped gs (i ∷ is) = grouped (append_to_group i gs) is

abbrev pub quantity_sum : List PortfolioItem → ℕ
quantity_sum [] = 0
quantity_sum (i ∷ is) = i.quantity + quantity_sum is

-- The number of different sets.
unfoldable pub set_count : List PortfolioItem → ℕ
set_count [] = 0
set_count (i ∷ is) =
    (if some_row (λ j. j.lego_set_id == i.lego_set_id) is then 0 else 1) + set_count is

unfoldable pub gain_sum : List HoldingValuation → ℤ
gain_sum [] = pos 0
gain_sum (h ∷ hs) =
    let rest = gain_sum hs in elim h.unrealized_gain_loss [ none ↦ rest | some g ↦ g +ℤ rest ]

pub record HoldingSummary : Type 0 where
  pub lego_set_id : ℕ
  pub condition : PortfolioCondition
  pub quantity : ℕ
  pub cost_basis : ℤ
  pub estimated_current_value : Option ℤ
  pub unrealized_gain_loss : Option ℤ
  pub unrealized_gain_loss_percent : Option ℤ

pub record PortfolioSummary : Type 0 where
  pub total_items : ℕ
  pub total_sets : ℕ
  pub total_quantity : ℕ
  pub totals : PortfolioTotals
  pub holdings : List HoldingSummary

-- Only where there is a unit value.
abbrev pub if_valued {ℓ} : {A B : Type ℓ} → Option A → B → Option B
if_valued none b = none
if_valued (some a) b = some b

abbrev pub percent_if : Option ℤ → ℤ → Option ℤ
percent_if none basis = none
percent_if (some gain) basis = percent_of gain basis

-- The items of a group, valued by the one unit value of its key.
unfoldable pub valuations_at : Option Decimal → List PortfolioItem → List HoldingValuation
unfolding calculate_holding_valuation
valuations_at unit_value [] = []
valuations_at unit_value (i ∷ is) =
    calculate_holding_valuation i.quantity i.purchase_price unit_value ∷ valuations_at unit_value is

module _ (m : Market) where
  -- Prices have two places, so that the sum of the rounded costs is the rounded sum.
  unfoldable pub holding_summary : PortfolioItem → List PortfolioItem → HoldingSummary
  unfolding valuations_at total_cost_basis total_market_value gain_sum percent_of
  holding_summary i g =
      let unit_value = (market_value_of m i).unit_value in
      let vs = valuations_at unit_value g in
      let gain = if_valued unit_value (gain_sum vs) in
      record {
        lego_set_id = i.lego_set_id;
        condition = i.condition;
        quantity = quantity_sum g;
        cost_basis = total_cost_basis vs;
        estimated_current_value = if_valued unit_value (total_market_value vs);
        unrealized_gain_loss = gain;
        unrealized_gain_loss_percent = percent_if gain (total_cost_basis vs);
      }

  unfoldable pub holding_summaries : List (List PortfolioItem) → List HoldingSummary
  unfolding holding_summary
  holding_summaries [] = []
  holding_summaries ([] ∷ gs) = holding_summaries gs
  holding_summaries ((i ∷ is) ∷ gs) = holding_summary i (i ∷ is) ∷ holding_summaries gs

  -- The unit value of a group's key, which is that of its first item, for all items of the group.
  unfoldable pub valuations_of_group : List PortfolioItem → List HoldingValuation
  unfolding valuations_at
  valuations_of_group [] = []
  valuations_of_group (i ∷ is) = valuations_at (market_value_of m i).unit_value (i ∷ is)

  -- `holding_valuations.extend(valuations)`, `total_quantity += quantity`
  unfoldable pub group_valuations : List (List PortfolioItem) → List HoldingValuation
  unfolding valuations_of_group
  group_valuations [] = []
  group_valuations (g ∷ gs) = valuations_of_group g ++ group_valuations gs

  abbrev pub group_quantity : List (List PortfolioItem) → ℕ
  group_quantity [] = 0
  group_quantity (g ∷ gs) = quantity_sum g + group_quantity gs

  unfoldable pub calculate_portfolio_summary : List PortfolioItem → PortfolioSummary
  unfolding grouped group_valuations holding_summaries set_count calculate_portfolio_totals
  calculate_portfolio_summary items = record {
    total_items = length items;
    total_sets = set_count items;
    total_quantity = group_quantity (grouped [] items);
    totals = calculate_portfolio_totals (group_valuations (grouped [] items));
    holdings = holding_summaries (grouped [] items);
  }

  unfoldable pub portfolio_summary_from_items : List PortfolioItem → PortfolioSummary
  unfolding valuations set_count calculate_portfolio_totals
  portfolio_summary_from_items items = record {
    total_items = length items;
    total_sets = set_count items;
    total_quantity = quantity_sum items;
    totals = calculate_portfolio_totals (valuations m items);
    holdings = [];
  }
