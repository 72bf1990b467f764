-- ===== src/Portfolios/Rows.antt =====
-- The rows of backend/flipradar/domain/models/portfolio.py and portfolio_valuation_snapshot.py, with
-- the columns that the services read, and of the catalogue the number of a set.
use flipradar.Base.{ℕ, Bool, Option, List, Text}
use flipradar.Base.Int.{ℤ}
use flipradar.Scoring.Amounts.{Decimal}

pub data PortfolioCondition : Type 0 where
  new used sealed unknown : PortfolioCondition

pub data Confidence : Type 0 where
  high medium low missing_market_data : Confidence

pub record LegoSet : Type 0 where
  pub id : ℕ
  pub set_number : Text

pub record Portfolio : Type 0 where
  pub id : ℕ
  pub user_id : ℕ
  pub name : Text
  pub description : Option Text
  pub currency : Text
  pub is_default : Bool
  pub created_at : ℕ
  pub archived_at : Option ℕ

pub record PortfolioItem : Type 0 where
  pub id : ℕ
  pub user_id : ℕ
  pub portfolio_id : ℕ
  pub lego_set_id : ℕ
  pub quantity : ℕ
  pub purchase_price : Decimal
  pub condition : PortfolioCondition
  pub purchase_date : Option ℕ
  pub currency : Text
  pub notes : Option Text
  pub created_at : ℕ

pub record PortfolioValuationSnapshot : Type 0 where
  pub id : ℕ
  pub user_id : ℕ
  pub cost_basis : ℤ
  pub market_value : ℤ
  pub gain_loss : ℤ
  pub currency : Text
  pub window_start : ℕ
  pub snapshot_at : ℕ

pub record PortfolioItemValuationSnapshot : Type 0 where
  pub portfolio_snapshot_id : ℕ
  pub portfolio_item_id : ℕ
  pub unit_value : Option Decimal
  pub total_value : Option ℤ
  pub confidence : Confidence
  pub snapshot_at : ℕ

pub data DuplicateHandling : Type 0 where
  keep_separate merge reject : DuplicateHandling

pub record PortfolioImportAuditLog : Type 0 where
  pub user_id : ℕ
  pub portfolio_id : ℕ
  pub source_rows : ℕ
  pub items_created : ℕ
  pub merged_rows : ℕ
  pub duplicate_handling : DuplicateHandling

-- `next_id` is above every identifier that was given out.
pub record Tables : Type 0 where
  pub sets : List LegoSet
  pub portfolios : List Portfolio
  pub items : List PortfolioItem
  pub snapshots : List PortfolioValuationSnapshot
  pub item_snapshots : List PortfolioItemValuationSnapshot
  pub import_logs : List PortfolioImportAuditLog
  pub next_id : ℕ
