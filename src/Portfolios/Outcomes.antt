-- ===== src/Portfolios/Outcomes.antt =====
-- How a call of backend/flipradar/services/portfolio_service.py ends: with a result, or with the
-- HTTPException that it raises.
use flipradar.Base.{ℕ, Option}

-- What is wrong with an imported file, as a whole or in a row.
pub data Problem : Type 0 where
  wrong_headers not_csv no_rows too_many_rows wrong_fields blank_row : Problem
  invalid_format other_portfolio unknown_set duplicate_row : Problem

pub data Refusal : Type 0 where
  portfolio_not_found : Refusal
  item_not_found : Refusal
  set_not_found : Refusal
  too_many_portfolios : Refusal
  default_not_archived : Refusal
  default_not_deleted : Refusal
  same_portfolio : Refusal
  value_error : Refusal
  import_error : Option ℕ → Problem → Refusal

pub data Outcome (A : Type 0) : Type 0 where
  ok : A → Outcome A
  raised : Refusal → Outcome A
