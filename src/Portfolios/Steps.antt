-- ===== src/Portfolios/Steps.antt =====
-- Requests to the portfolio service, and runs of them: each with the user who sends it and the time.
use flipradar.Portfolios.Imports.{Formats}
use flipradar.Portfolios.Rows.{DuplicateHandling}
use flipradar.Portfolios.Importing.{import_portfolio_csv}
use flipradar.Portfolios.Imports.{Formats}
use flipradar.Portfolios.Holdings.{PortfolioItemCreate, PortfolioItemUpdate}
use flipradar.Portfolios.Rows.{LegoSet, Tables, DuplicateHandling}
use flipradar.Portfolios.Stores.{PortfolioCreate, PortfolioUpdate}
use flipradar.Portfolios.Service.{
  list_user_portfolios, create_user_portfolio, update_user_portfolio, archive_user_portfolio,
  delete_user_portfolio, add_item_to_portfolio, update_user_portfolio_item,
  delete_user_portfolio_item,
}
use flipradar.Portfolios.Valued.{Market, create_user_valuation_snapshot}
use flipradar.Base.{ℕ, List, Bool, [], ◌∷◌, Text}

-- `snapshot` is the valuation that marketplace_service.py makes after new prices.
pub data Request : Type 0 where
  list_all : Bool → Request
  create_one : PortfolioCreate → Request
  update_one : ℕ → PortfolioUpdate → Request
  archive_one : ℕ → Bool → Request
  delete_one : ℕ → ℕ → Request
  add_one_item : PortfolioItemCreate → Request
  update_one_item : ℕ → PortfolioItemUpdate → Request
  delete_one_item : ℕ → Request
  import_one : DuplicateHandling → Text → Request
  snapshot : Request

pub record Call : Type 0 where
  pub user_id : ℕ
  pub now : ℕ
  pub request : Request

module _ (m : Market) (f : Formats) where
  unfoldable pub step : ℕ → ℕ → Request → Tables → Tables
  unfolding list_user_portfolios create_user_portfolio update_user_portfolio archive_user_portfolio
      delete_user_portfolio add_item_to_portfolio update_user_portfolio_item
      delete_user_portfolio_item create_user_valuation_snapshot import_portfolio_csv
  step user_id now (list_all include_archived) t =
      (list_user_portfolios user_id now include_archived t).1
  step user_id now (create_one payload) t = (create_user_portfolio user_id now payload t).1
  step user_id now (update_one id payload) t = (update_user_portfolio user_id id payload t).1
  step user_id now (archive_one id archive) t = (archive_user_portfolio user_id now id archive t).1
  step user_id now (delete_one id target) t = (delete_user_portfolio m user_id now id target t).1
  step user_id now (add_one_item payload) t = (add_item_to_portfolio m user_id now payload t).1
  step user_id now (update_one_item id payload) t =
      (update_user_portfolio_item m user_id now id payload t).1
  step user_id now (delete_one_item id) t = (delete_user_portfolio_item m user_id now id t).1
  step user_id now (import_one handling content) t =
      (import_portfolio_csv m f user_id now handling content t).1
  step user_id now snapshot t = create_user_valuation_snapshot m user_id now t

  unfoldable pub run : List Call → Tables → Tables
  unfolding step
  run [] t = t
  run (c ∷ cs) t = run cs (step c.user_id c.now c.request t)

-- The catalogue, and no row of a user.
abbrev pub start : List LegoSet → Tables
start sets = record {
  sets = sets;
  portfolios = [];
  items = [];
  snapshots = [];
  item_snapshots = [];
  import_logs = [];
  next_id = 0;
}
