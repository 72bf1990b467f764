-- ===== src/Portfolios/Valuations.antt =====
-- At most one valuation of a user in an hour, whatever is requested, imports included.
use flipradar.Portfolios.SameItems.{
  get_default_portfolio_for_user-rows, create_user_portfolio-rows, update_user_portfolio-rows,
  archive_user_portfolio-rows,
}
use flipradar.Portfolios.Hourly.{
  IsHourly, rows-IsHourly, valued-IsHourly, create_rows-snapshots, valued_row,
  delete_user_portfolio-IsHourly, add_item_to_portfolio-IsHourly,
  update_user_portfolio_item-IsHourly, delete_user_portfolio_item-IsHourly,
}
use flipradar.Portfolios.Outcomes.{Outcome, raised, ok}
use flipradar.Portfolios.Rows.{DuplicateHandling, LegoSet, Tables}
use flipradar.Portfolios.Service.{
  list_user_portfolios, create_user_portfolio, update_user_portfolio, archive_user_portfolio,
}
use flipradar.Portfolios.Stores.{
  create_portfolio, count_portfolios_for_user, PortfolioCreate, get_default_portfolio_for_user,
}
use flipradar.Portfolios.Importing.{
  import_portfolio_csv, import_parsed, create_portfolio_import_audit_log, import_outcome,
  create_rows,
}
use flipradar.Portfolios.Steps.{
  step, run, Call, Request, list_all, start, create_one, update_one, archive_one, delete_one,
  add_one_item, update_one_item, delete_one_item, import_one, snapshot,
}
use flipradar.Portfolios.Imports.{Formats, Parsed, parse_portfolio_csv}
use flipradar.Portfolios.Valued.{Market, in_window, window_of, create_user_valuation_snapshot}
use flipradar.Base.{
  ℕ, List, Text, count_by, Bool-cases, ◌∷◌, leb, [], ◌==◌, ◌≡◌, Option-cases, inl, ◌≤◌, inr, arith,
  refl,
}

module _ (m : Market) (f : Formats) where
  import_parsed-IsHourly :
      (user_id now : ℕ) (handling : DuplicateHandling) (s : Parsed) (c : PortfolioCreate)
      (t : Tables)
      → IsHourly t
      → IsHourly (import_parsed m f user_id now handling s c t).1
  unfolding import_parsed create_portfolio create_portfolio_import_audit_log
  import_parsed-IsHourly user_id now handling s c t h =
      go (create_rows user_id now t.next_id s.rows t1) refl
    where
      t1 : Tables
      t1 = (create_portfolio user_id now c t).1

      go :
          (o : Outcome Tables)
          → create_rows user_id now t.next_id s.rows t1 ≡ o
          → IsHourly (import_parsed m f user_id now handling s c t).1
      go (raised e) k = rw (k, import_parsed) h
      go (ok t'') k =
          rw (k, import_parsed)
            (valued-IsHourly m user_id now t''
              (rows-IsHourly t t'' (create_rows-snapshots user_id now t.next_id s.rows t1 t'' k) h))

  import_outcome-IsHourly :
      (user_id now : ℕ) (handling : DuplicateHandling) (o : Outcome Parsed) (t : Tables)
      → IsHourly t
      → IsHourly (import_outcome m f user_id now handling o t).1
  unfolding import_parsed
  import_outcome-IsHourly user_id now handling (raised e) t h = h
  import_outcome-IsHourly user_id now handling (ok s) t h = elim (Option-cases s.portfolio) [
    | inl a ↦ rw a h
    | inr (c, a) ↦ rw a (import_parsed-IsHourly user_id now handling s c t h)
  ]

  import_portfolio_csv-IsHourly :
      (user_id now : ℕ) (handling : DuplicateHandling) (content : Text) (t : Tables)
      → IsHourly t
      → IsHourly (import_portfolio_csv m f user_id now handling content t).1
  unfolding import_portfolio_csv count_portfolios_for_user
  import_portfolio_csv-IsHourly user_id now handling content t h =
      elim (Bool-cases (leb 10 (count_by (λ p. p.user_id == user_id) t.portfolios))) [
        | inl a ↦ rw a h
        | inr a ↦ rw a (
            import_outcome-IsHourly user_id now handling (parse_portfolio_csv f handling t content)
              t h)
      ]

  step-IsHourly :
      (user_id now : ℕ) (r : Request) (t : Tables)
      → IsHourly t
      → IsHourly (step m f user_id now r t)
  unfolding step list_user_portfolios
  step-IsHourly user_id now (list_all a) t h =
      rows-IsHourly t (get_default_portfolio_for_user user_id now t).1
        (get_default_portfolio_for_user-rows user_id now t).1 h
  step-IsHourly user_id now (create_one c) t h =
      rows-IsHourly t (create_user_portfolio user_id now c t).1
        (create_user_portfolio-rows user_id now c t).1 h
  step-IsHourly user_id now (update_one id u) t h =
      rows-IsHourly t (update_user_portfolio user_id id u t).1
        (update_user_portfolio-rows user_id id u t).1 h
  step-IsHourly user_id now (archive_one id a) t h =
      rows-IsHourly t (archive_user_portfolio user_id now id a t).1
        (archive_user_portfolio-rows user_id now id a t).1 h
  step-IsHourly user_id now (delete_one id target) t h =
      delete_user_portfolio-IsHourly m user_id now id target t h
  step-IsHourly user_id now (add_one_item c) t h =
      add_item_to_portfolio-IsHourly m user_id now c t h
  step-IsHourly user_id now (update_one_item id u) t h =
      update_user_portfolio_item-IsHourly m user_id now id u t h
  step-IsHourly user_id now (delete_one_item id) t h =
      delete_user_portfolio_item-IsHourly m user_id now id t h
  step-IsHourly user_id now (import_one handling content) t h =
      import_portfolio_csv-IsHourly user_id now handling content t h
  step-IsHourly user_id now snapshot t h = valued-IsHourly m user_id now t h

  run-IsHourly : (cs : List Call) (t : Tables) → IsHourly t → IsHourly (run m f cs t)
  unfolding run
  run-IsHourly [] t h = h
  run-IsHourly (c ∷ cs) t h =
      run-IsHourly cs (step m f c.user_id c.now c.request t)
        (step-IsHourly c.user_id c.now c.request t h)

  -- Whatever was requested before, after a valuation a user has exactly one valuation of the
  -- current hour; and at most one of any hour.
  pub run-valuations :
      (cs : List Call) (sets : List LegoSet) (user_id now window_start : ℕ)
      → (count_by
            (in_window user_id (window_of now))
            (create_user_valuation_snapshot m user_id now (run m f cs (start sets))).snapshots
          ≡ 1)
        × (count_by (in_window user_id window_start) (run m f cs (start sets)).snapshots ≤ 1)
  run-valuations cs sets user_id now window_start =
      let t = run m f cs (start sets) in
      let once = run-IsHourly cs (start sets) (λ u w. omega arith) in
      (
        omega (
          arith,
          valued-IsHourly m user_id now t once user_id (window_of now),
          valued_row m user_id now t,
        ),
        once user_id window_start,
      )
