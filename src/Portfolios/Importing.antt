-- ===== src/Portfolios/Importing.antt =====
-- `import_portfolio_csv` of backend/flipradar/services/portfolio_service.py: what a file adds, all of it or
-- nothing.
use flipradar.Portfolios.Service.{max_portfolios_per_user}
use flipradar.Portfolios.Stores.{
  count_portfolios_for_user, create_portfolio, PortfolioCreate, get_set_by_number,
}
use flipradar.Portfolios.Outcomes.{Outcome, ok, raised, value_error, too_many_portfolios}
use flipradar.Portfolios.Rows.{DuplicateHandling, Tables, Portfolio, PortfolioImportAuditLog}
use flipradar.Portfolios.Valued.{Market, create_user_valuation_snapshot}
use flipradar.Portfolios.Holdings.{create_portfolio_item, PortfolioItemCreate}
use flipradar.Portfolios.Imports.{Parsed, Formats, parse_portfolio_csv}
use flipradar.Base.{ℕ, List, Text, ◌∷◌, length, if◌then◌else◌, ◌+◌, none, leb, ◌++◌, [], some}

-- The items of the rows, in the portfolio that was created for them.
unfoldable pub create_rows : ℕ → ℕ → ℕ → List PortfolioItemCreate → Tables → Outcome Tables
unfolding create_portfolio_item
create_rows user_id now portfolio_id [] t = ok t
create_rows user_id now portfolio_id (i ∷ is) t = elim (get_set_by_number i.set_number t) [
  | none ↦ raised value_error
  | some s ↦
      create_rows user_id now portfolio_id is
        (create_portfolio_item user_id s.id now (record i { portfolio_id = some portfolio_id }) t).1
]

unfoldable pub create_portfolio_import_audit_log :
    ℕ → ℕ → Parsed → DuplicateHandling → Tables → Tables
create_portfolio_import_audit_log user_id portfolio_id s handling t =
    let log : PortfolioImportAuditLog = record {
      user_id = user_id;
      portfolio_id = portfolio_id;
      source_rows = length s.rows + s.merged;
      items_created = length s.rows;
      merged_rows = s.merged;
      duplicate_handling = handling;
    } in
    record t { import_logs = t.import_logs ++ (log ∷ []) }

module _ (m : Market) (f : Formats) where
  -- After the rows were read. A file without rows was refused, so that there is a portfolio.
  unfoldable pub import_parsed :
      ℕ → ℕ → DuplicateHandling → Parsed → PortfolioCreate → Tables → Outcome Portfolio × Tables
  unfolding create_rows create_user_valuation_snapshot create_portfolio_import_audit_log
      create_portfolio
  import_parsed user_id now handling s portfolio_data t =
      let (p, t') = create_portfolio user_id now portfolio_data t in
      elim (create_rows user_id now p.id s.rows t') [
        | raised e ↦ (raised e, t)
        | ok t'' ↦ (
          ok p,
          create_portfolio_import_audit_log user_id p.id s handling
              (create_user_valuation_snapshot m user_id now t''),
        )
      ]

  abbrev pub import_outcome :
      ℕ → ℕ → DuplicateHandling → Outcome Parsed → Tables → Outcome Portfolio × Tables
  import_outcome user_id now handling (raised e) t = (raised e, t)
  import_outcome user_id now handling (ok s) t = elim s.portfolio [
    | none ↦ (raised value_error, t)
    | some portfolio_data ↦ import_parsed user_id now handling s portfolio_data t
  ]

  unfoldable pub import_portfolio_csv :
      ℕ → ℕ → DuplicateHandling → Text → Tables → Outcome Portfolio × Tables
  unfolding parse_portfolio_csv import_parsed count_portfolios_for_user
  import_portfolio_csv user_id now handling content t =
      if leb max_portfolios_per_user (count_portfolios_for_user user_id t)
      then (raised too_many_portfolios, t)
      else import_outcome user_id now handling (parse_portfolio_csv f handling t content) t
