-- ===== src/Portfolios/Tests.antt =====
-- A user of the portfolio service, and what the theorems say of the requests.
use flipradar.Portfolios.Grouped.{calculate_portfolio_summary-totals}
use flipradar.Portfolios.Summary.{
  calculate_portfolio_summary, portfolio_summary_from_items, grouped, append_to_group,
  holding_summaries,
}
use flipradar.Portfolios.Valuations.{run-valuations}
use flipradar.Portfolios.Pieces.{logged, import_portfolio_csv-pieces}
use flipradar.Portfolios.Importing.{import_portfolio_csv, import_parsed, create_rows}
use flipradar.Portfolios.Imports.{
  Formats, parse_portfolio_csv, CsvRow, parse_file, parse_rows, parse_row, take_row, merge_into,
  same_purchase, CsvFile,
}
use flipradar.Base.Decimal.{quantize, round_half_up}
use flipradar.Portfolios.Deletion.{quantity_of, delete_user_portfolio-moves}
use flipradar.Scoring.Valuation.{
  calculate_holding_valuation, calculate_portfolio_totals, money_of, percent_of, total_cost_basis,
  total_market_value, valued_cost_basis,
}
use flipradar.Portfolios.Owners.{run-items}
use flipradar.Portfolios.Limits.{run-portfolios, archived_default}
use flipradar.Portfolios.Changes.{extra_of, has_id}
use flipradar.Portfolios.Service.{
  add_item_to_portfolio, create_user_portfolio, list_user_portfolios, get_active_user_portfolio,
  delete_user_portfolio, deleted_into,
}
use flipradar.Portfolios.Holdings.{
  PortfolioItemCreate, create_portfolio_item, chosen_portfolio, get_all_portfolio_items_for_user,
}
use flipradar.Base.Int.{pos, scale, ◌+ℤ◌, ◌-ℤ◌}
use flipradar.Scoring.Amounts.{Decimal, money}
use flipradar.Portfolios.Rows.{Tables, LegoSet, unknown, medium, merge}
use flipradar.Portfolios.Valued.{
  Market, create_user_valuation_snapshot, create_portfolio_valuation_snapshot, snapshot_of,
  valuations, valuation_of, in_window,
}
use flipradar.Portfolios.Steps.{run, Request, start, Call, step, add_one_item, create_one, list_all}
use flipradar.Portfolios.Stores.{
  PortfolioCreate, default_of, owned, usd, get_default_portfolio_for_user,
  count_portfolios_for_user, create_portfolio, reassign_portfolio_items, held_in, new_portfolio,
}
use flipradar.Base.{
  ℕ, List, All, Option, count_by, ◌∷◌, is_some, [], find, ◌≤◌, some, none, ◌≡◌, true, length, refl,
  ◌+◌, false, map, suc, zero, ◌++◌,
}

abbrev market : Market
market = record {
  current_unit_value = λ set condition. record { unit_value = some ten; confidence = medium };
}
  where
    ten : Decimal
    ten = record { unscaled = pos 1000; places = 2 }

abbrev price : Decimal
price = record { unscaled = pos 850; places = 2 }

-- The set "10".
abbrev catalogue : List LegoSet
catalogue = record { id = 7; set_number = 49 ∷ 48 ∷ [] } ∷ []

abbrev bought : Option ℕ → ℕ → PortfolioItemCreate
bought portfolio_id quantity = record {
  portfolio_id = portfolio_id;
  set_number = 49 ∷ 48 ∷ [];
  quantity = quantity;
  purchase_price = price;
  condition = unknown;
  purchase_date = none;
  currency = usd;
  notes = none;
}

abbrev castle : PortfolioCreate
castle = record { name = 67 ∷ []; description = none; currency = usd }

-- A file of two equal rows.
abbrev two_rows_file : CsvFile
two_rows_file = record { fieldnames = []; rows = row ∷ row ∷ [] }
  where
    row : CsvRow
    row = record { too_many_fields = false; values = some (49 ∷ []) ∷ [] }

abbrev formats : Formats
formats = record {
  read = λ content. some two_rows_file;
  validate = λ values. some (castle, bought none 4);
  columns = [];
}

abbrev call : ℕ → Request → Call
call now request = record { user_id = 1; now = now; request = request }

-- The default portfolio is 0, its item 1, the valuation 2; the castle is 3, and its items 4 and 5.
abbrev calls : List Call
calls =
    call 10 (add_one_item (bought none 1))
    ∷ call 20 (create_one castle)
    ∷ call 30 (add_one_item (bought (some 3) 2))
    ∷ call 40 (add_one_item (bought (some 3) 5))
    ∷ []

abbrev held : Tables
held = run market formats calls (start catalogue)

three_items : length held.items ≡ 3
unfolding run step add_item_to_portfolio create_user_portfolio create_user_valuation_snapshot
    create_portfolio_item chosen_portfolio get_default_portfolio_for_user get_active_user_portfolio
    create_portfolio_valuation_snapshot count_portfolios_for_user create_portfolio
three_items = refl

-- One valuation in the hour: the first item for 10.00, bought for 8.50.
first_value : map (λ s. s.gain_loss) held.snapshots ≡ pos 150 ∷ []
unfolding run step add_item_to_portfolio create_user_portfolio create_user_valuation_snapshot
    create_portfolio_item chosen_portfolio get_default_portfolio_for_user get_active_user_portfolio
    create_portfolio_valuation_snapshot count_portfolios_for_user create_portfolio snapshot_of
    valuations valuation_of calculate_holding_valuation calculate_portfolio_totals money_of
    percent_of total_cost_basis total_market_value valued_cost_basis
    get_all_portfolio_items_for_user money quantize round_half_up scale ◌+ℤ◌ ◌-ℤ◌
first_value = refl

run-portfolios_example :
    (count_by (default_of 1) held.portfolios ≤ 1)
    × (count_by (extra_of 1) held.portfolios ≤ 10)
    × (count_by (has_id 3) held.portfolios ≤ 1)
    × (count_by archived_default held.portfolios ≡ 0)
run-portfolios_example = run-portfolios market formats calls catalogue 1 3

run-items_example :
    All (λ i. is_some (find (owned i.user_id i.portfolio_id) held.portfolios) ≡ true) held.items
run-items_example = run-items market formats calls catalogue

-- The two items of the castle go to the default portfolio.
delete_user_portfolio-moves_example :
    (2 ≡ count_by (held_in 1 3) held.items)
    × (count_by (held_in 1 3) (delete_user_portfolio market 1 50 3 0 held).1.items ≡ 0)
    × (count_by (held_in 1 0) (delete_user_portfolio market 1 50 3 0 held).1.items
        ≡ count_by (held_in 1 0) held.items + 2)
    × (quantity_of 1 (delete_user_portfolio market 1 50 3 0 held).1.items
        ≡ quantity_of 1 held.items)
    × (is_some (find (owned 1 3) (delete_user_portfolio market 1 50 3 0 held).1.portfolios) ≡ false)
unfolding run step add_item_to_portfolio create_user_portfolio create_user_valuation_snapshot
    create_portfolio_item chosen_portfolio get_default_portfolio_for_user get_active_user_portfolio
    create_portfolio_valuation_snapshot count_portfolios_for_user create_portfolio
    delete_user_portfolio deleted_into reassign_portfolio_items
delete_user_portfolio-moves_example = delete_user_portfolio-moves market 1 50 3 0 2 held refl

-- The two rows become one item of eight pieces.
import_portfolio_csv-pieces_example :
    (quantity_of 1 (import_portfolio_csv market formats 1 50 merge [] held).1.items
      ≡ quantity_of 1 held.items + 8)
    × (logged (import_portfolio_csv market formats 1 50 merge [] held).1 ≡ logged held ++ (2 ∷ []))
unfolding run step add_item_to_portfolio create_user_portfolio create_user_valuation_snapshot
    create_portfolio_item chosen_portfolio get_default_portfolio_for_user get_active_user_portfolio
    create_portfolio_valuation_snapshot count_portfolios_for_user create_portfolio
    import_portfolio_csv parse_portfolio_csv parse_file parse_rows parse_row take_row merge_into
    same_purchase import_parsed create_rows
import_portfolio_csv-pieces_example =
    import_portfolio_csv-pieces market formats 1 50 merge [] two_rows_file
      (new_portfolio held.next_id 1 50 castle) held refl refl

run-valuations_example :
    (count_by (in_window 1 3600) (create_user_valuation_snapshot market 1 4000 held).snapshots ≡ 1)
    × (count_by (in_window 1 0) held.snapshots ≤ 1)
run-valuations_example = run-valuations market formats calls catalogue 1 4000 0

-- Three items of one set in one condition.
one_group : length (calculate_portfolio_summary market held.items).holdings ≡ 1
unfolding run step add_item_to_portfolio create_user_portfolio create_user_valuation_snapshot
    create_portfolio_item chosen_portfolio get_default_portfolio_for_user get_active_user_portfolio
    create_portfolio_valuation_snapshot count_portfolios_for_user create_portfolio
    calculate_portfolio_summary grouped append_to_group holding_summaries
one_group = refl

calculate_portfolio_summary-totals_example :
    ((calculate_portfolio_summary market held.items).totals
      ≡ (portfolio_summary_from_items market held.items).totals)
    × ((calculate_portfolio_summary market held.items).total_quantity
        ≡ (portfolio_summary_from_items market held.items).total_quantity)
calculate_portfolio_summary-totals_example = calculate_portfolio_summary-totals market held.items

-- Ten portfolios, and then the default one, which no limit stops.
abbrev creations : ℕ → List Call
creations zero = call 0 (list_all false) ∷ []
creations (suc n) = call 0 (create_one castle) ∷ creations n

eleven : length (run market formats (creations 10) (start catalogue)).portfolios ≡ 11
unfolding run step create_user_portfolio list_user_portfolios get_default_portfolio_for_user
    count_portfolios_for_user create_portfolio
eleven = refl
