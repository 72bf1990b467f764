-- ===== src/Inventory/Rows.antt =====
-- The rows that the checklist reads and writes: backend/flipradar/domain/models/inventory.py, and of
-- part_catalog.py, lego_set.py, price_snapshot.py and portfolio.py what it needs. Identifiers are
-- numbers, amounts are cents.
use flipradar.Base.{ℕ, Bool, Option, List, Text}
use flipradar.Base.Int.{ℤ}

-- A part in a colour, with the market price of the part.
pub record Element : Type 0 where
  pub id : ℕ
  pub part_id : ℕ
  pub market_price : Option ℕ

pub record LegoSet : Type 0 where
  pub id : ℕ
  pub set_number : Text

-- A row with its element, as the queries load it.
pub record SetPartRequirement : Type 0 where
  pub id : ℕ
  pub lego_set_id : ℕ
  pub element : Element
  pub quantity : ℕ

pub record InventoryItem : Type 0 where
  pub id : ℕ
  pub user_id : ℕ
  pub element_id : ℕ
  pub quantity : ℕ

pub record ChecklistAdjustment : Type 0 where
  pub user_id : ℕ
  pub requirement_id : ℕ
  pub manual_adjustment : ℤ
  pub substitute_element_id : Option ℕ

pub record ReplacementPurchaseItem : Type 0 where
  pub id : ℕ
  pub user_id : ℕ
  pub requirement_id : ℕ
  pub element_id : ℕ
  pub quantity : ℕ
  pub estimated_unit_cost : ℕ
  pub actual_unit_cost : Option ℕ
  pub purchased : Bool

-- A value of a set at a time: a snapshot of its fair market value.
pub record FairMarketValue : Type 0 where
  pub lego_set_id : ℕ
  pub value : ℕ
  pub retrieval_time : ℕ

-- An item of a portfolio.
pub record PortfolioItem : Type 0 where
  pub user_id : ℕ
  pub lego_set_id : ℕ
  pub purchase_price : ℕ
  pub created_at : ℕ

-- `next_id` stands for `uuid4`.
pub record Tables : Type 0 where
  pub elements : List Element
  pub sets : List LegoSet
  pub requirements : List SetPartRequirement
  pub items : List InventoryItem
  pub adjustments : List ChecklistAdjustment
  pub purchases : List ReplacementPurchaseItem
  pub values : List FairMarketValue
  pub portfolio_items : List PortfolioItem
  pub next_id : ℕ
