-- ===== src/Portfolios/Pieces.antt =====
-- What an import adds to the items of the user, whatever it merges.
use flipradar.Portfolios.Changes.{create_user_valuation_snapshot_same}
use flipradar.Portfolios.Stores.{
  get_set_by_number, create_portfolio, PortfolioCreate, count_portfolios_for_user,
}
use flipradar.Portfolios.Merged.{pieces, pieces_in, parse_rows-Grown}
use flipradar.Portfolios.Outcomes.{ok, Outcome, raised}
use flipradar.Portfolios.Deletion.{quantity_of}
use flipradar.Portfolios.Holdings.{
  create_portfolio_item, chosen_portfolio, PortfolioItemCreate, new_item,
}
use flipradar.Portfolios.Imports.{
  Formats, CsvFile, parse_portfolio_csv, parse_file, Parsed, text_list_eq,
}
use flipradar.Portfolios.Rows.{
  Tables, PortfolioItem, PortfolioImportAuditLog, DuplicateHandling, Portfolio,
}
use flipradar.Portfolios.Valued.{
  Market, create_user_valuation_snapshot, create_portfolio_valuation_snapshot,
  get_portfolio_valuation_snapshot_for_window, window_of,
}
use flipradar.Portfolios.Importing.{
  create_rows, import_portfolio_csv, import_parsed, create_portfolio_import_audit_log,
  import_outcome,
}
use flipradar.Base.{
  ℕ, List, map, ◌≡◌, ◌++◌, ◌∷◌, Text, [], ◌+◌, refl, some, arith, sym, Option-cases, length, inl,
  inr, Bool-cases, leb, is_some, ◌==◌, ltb, none,
}

quantity_of-added :
    (u : ℕ) (is : List PortfolioItem) (i : PortfolioItem)
    → i.user_id ≡ u
    → quantity_of u (is ++ (i ∷ [])) ≡ quantity_of u is + i.quantity
quantity_of-added u [] i e = ground (arith, e)
quantity_of-added u (j ∷ is) i e = ground (arith, quantity_of-added u is i e)

create_rows-pieces :
    (user_id now id : ℕ) (is : List PortfolioItemCreate) (t t' : Tables)
    → create_rows user_id now id is t ≡ ok t'
    → (quantity_of user_id t'.items ≡ quantity_of user_id t.items + pieces is)
      × (t'.import_logs ≡ t.import_logs)
unfolding create_rows create_portfolio_item chosen_portfolio
create_rows-pieces user_id now id [] t t' h =
    let it : t ≡ t' = cc in rw (sym it) (omega arith, refl)
create_rows-pieces user_id now id (i ∷ is) t t' h =
    elim (Option-cases (get_set_by_number i.set_number t)) [
      | inl e ↦ ground (arith, rw (e, create_rows) at h)
      | inr (s, e) ↦
          let row : PortfolioItemCreate = record i { portfolio_id = some id } in
          let t'' = (create_portfolio_item user_id s.id now row t).1 in
          let rest = create_rows-pieces user_id now id is t'' t' (rw (e, create_rows) at h) in
          let this =
            quantity_of-added user_id t.items (new_item t.next_id user_id id s.id now row) refl in
          (omega (arith, rest, this), rest.1)
    ]

-- The numbers of rows that the log has.
abbrev pub logged : Tables → List ℕ
logged t = map (λ l. l.source_rows) t.import_logs

map-added :
    (ls : List PortfolioImportAuditLog) (l : PortfolioImportAuditLog)
    → map (λ l. l.source_rows) (ls ++ (l ∷ []))
      ≡ map (λ l. l.source_rows) ls ++ (l.source_rows ∷ [])
map-added [] l = refl
map-added (k ∷ ls) l = cc (map-added ls l)

parse_file-Grown :
    (f : Formats) (handling : DuplicateHandling) (t : Tables) (file : CsvFile) (s : Parsed)
    → parse_file f handling t file ≡ ok s
    → (length s.rows + s.merged ≡ length file.rows) × (pieces s.rows ≡ pieces_in f file.rows)
unfolding parse_file
parse_file-Grown f handling t file s h =
    elim (Bool-cases (text_list_eq file.fieldnames f.columns)) [
      | inr a ↦ ground (arith, h, a)
      | inl a ↦ elim (Bool-cases (length file.rows == 0)) [
        | inl b ↦ ground (arith, h, a, b)
        | inr b ↦ elim (Bool-cases (ltb 1000 (length file.rows))) [
          | inl c ↦ ground (arith, h, a, b, c)
          | inr c ↦
              let grown =
                parse_rows-Grown f handling t 2 file.rows
                  (record { portfolio = none; rows = []; merged = 0 }) s (rw (a, b, c) at h) in
              (omega (arith, grown), omega (arith, grown))
        ]
      ]
    ]

valued-logs :
    (m : Market) (user_id now : ℕ) (t : Tables)
    → (create_user_valuation_snapshot m user_id now t).import_logs ≡ t.import_logs
unfolding create_user_valuation_snapshot create_portfolio_valuation_snapshot
valued-logs m user_id now t =
    elim (Bool-cases
      (is_some (get_portfolio_valuation_snapshot_for_window user_id (window_of now) t))) [
        | inl e ↦ rw e refl
        | inr e ↦ rw e refl
      ]

-- What the rows so far bring to the tables.
abbrev Imported : ℕ → ℕ → ℕ → Tables → Tables → Type 0
Imported user_id quantity rows t t' =
    (quantity_of user_id t'.items ≡ quantity_of user_id t.items + quantity)
    × (logged t' ≡ logged t ++ (rows ∷ []))

module _ (m : Market) (f : Formats) where
  import_parsed-Imported :
      (user_id now : ℕ) (handling : DuplicateHandling) (s : Parsed) (c : PortfolioCreate)
      (p : Portfolio) (t : Tables)
      → (import_parsed m f user_id now handling s c t).0 ≡ ok p
      → Imported user_id
          (pieces s.rows)
          (length s.rows + s.merged)
          t
          (import_parsed m f user_id now handling s c t).1
  unfolding import_parsed create_portfolio create_portfolio_import_audit_log
  import_parsed-Imported user_id now handling s c p t h =
      go (create_rows user_id now t.next_id s.rows t1) refl
    where
      t1 : Tables
      t1 = (create_portfolio user_id now c t).1

      go :
          (o : Outcome Tables)
          → create_rows user_id now t.next_id s.rows t1 ≡ o
          → Imported user_id
              (pieces s.rows)
              (length s.rows + s.merged)
              t
              (import_parsed m f user_id now handling s c t).1
      go (raised e) k = ground (arith, rw (k, import_parsed) at h)
      go (ok t'') k =
          let rest = create_rows-pieces user_id now t.next_id s.rows t1 t'' k in
          let same = create_user_valuation_snapshot_same m user_id now t'' in
          rw (k, import_parsed)
            (
              rw same.1 (omega (arith, rest)),
              rw (valued-logs m user_id now t'', rest.1) (map-added t.import_logs _),
            )

  import_outcome-Imported :
      (user_id now quantity rows : ℕ) (handling : DuplicateHandling) (o : Outcome Parsed)
      (p : Portfolio) (t : Tables)
      → ((s : Parsed) → o ≡ ok s → (length s.rows + s.merged ≡ rows) × (pieces s.rows ≡ quantity))
      → (import_outcome m f user_id now handling o t).0 ≡ ok p
      → Imported user_id quantity rows t (import_outcome m f user_id now handling o t).1
  unfolding import_parsed
  import_outcome-Imported user_id now quantity rows handling (raised e) p t g h = ground (arith, h)
  import_outcome-Imported user_id now quantity rows handling (ok s) p t g h =
      let counted = g s refl in
      elim (Option-cases s.portfolio) [
        | inl a ↦ ground (arith, rw a at h)
        | inr (c, a) ↦
            rw (a, sym counted.0, sym counted.1)
              (import_parsed-Imported user_id now handling s c p t (rw a at h))
      ]

  -- An import that succeeds gives the user as many pieces more as the valid rows of the file have
  -- together, and logs the number of its rows, whether rows were merged or not.
  pub import_portfolio_csv-pieces :
      (user_id now : ℕ) (handling : DuplicateHandling) (content : Text) (file : CsvFile)
      (p : Portfolio) (t : Tables)
      → f.read content ≡ some file
      → (import_portfolio_csv m f user_id now handling content t).0 ≡ ok p
      → (quantity_of user_id (import_portfolio_csv m f user_id now handling content t).1.items
          ≡ quantity_of user_id t.items + pieces_in f file.rows)
        × (logged (import_portfolio_csv m f user_id now handling content t).1
            ≡ logged t ++ (length file.rows ∷ []))
  unfolding import_portfolio_csv parse_portfolio_csv
  import_portfolio_csv-pieces user_id now handling content file p t r h =
      elim (Bool-cases (leb 10 (count_portfolios_for_user user_id t))) [
        | inl a ↦ ground (arith, rw a at h)
        | inr a ↦ rw a (
            import_outcome-Imported user_id now (pieces_in f file.rows) (length file.rows) handling
              (parse_portfolio_csv f handling t content) p t
              (λ s k. parse_file-Grown f handling t file s (rw (r, parse_portfolio_csv) at k))
              (rw a at h))
      ]
