-- ===== src/Portfolios/Fresh.antt =====
-- An import adds one portfolio, and its items are in that portfolio.
use flipradar.Portfolios.Service.{max_portfolios_per_user}
use flipradar.Portfolios.Outcomes.{Outcome, ok, raised}
use flipradar.Portfolios.Stores.{
  count_portfolios_for_user, create_portfolio, PortfolioCreate, owned, new_portfolio,
  get_set_by_number,
}
use flipradar.Portfolios.Held.{IsHeld, Exists, Changed-Held, Held}
use flipradar.Portfolios.Holdings.{create_portfolio_item, chosen_portfolio, PortfolioItemCreate}
use flipradar.Portfolios.Imports.{Formats, Parsed, parse_portfolio_csv}
use flipradar.Portfolios.Changes.{
  Changed, create_user_valuation_snapshot_same, valued-Changed, same, added, Changed-respects,
}
use flipradar.Portfolios.Valued.{Market, create_user_valuation_snapshot}
use flipradar.Portfolios.Importing.{
  create_rows, import_parsed, import_portfolio_csv, create_portfolio_import_audit_log,
  import_outcome,
}
use flipradar.Portfolios.Rows.{Tables, DuplicateHandling}
use flipradar.Base.{
  ℕ, List, Text, ◌≡◌, Bool-cases, leb, count_by, ◌==◌, inl, ◌<◌, ◌≤◌, sym, is_some-find-append,
  arith, inr, ◌∷◌, Option-cases, refl, some, All-append, [],
}

-- What an import may do to the portfolios, and to where the items are.
abbrev pub Adds : Tables → Tables → Type 0
Adds t t' = Changed t t' × (IsHeld t → IsHeld t')

create_rows-Held :
    (user_id now id : ℕ) (is : List PortfolioItemCreate) (t t' : Tables)
    → create_rows user_id now id is t ≡ ok t'
    → Exists user_id id t.portfolios
    → (t'.portfolios ≡ t.portfolios) × (t.next_id ≤ t'.next_id) × (IsHeld t → IsHeld t')
unfolding create_rows create_portfolio_item chosen_portfolio
create_rows-Held user_id now id [] t t' h there =
    let it : t ≡ t' = cc in rw (sym it) (refl, omega arith, λ k. k)
create_rows-Held user_id now id (i ∷ is) t t' h there =
    elim (Option-cases (get_set_by_number i.set_number t)) [
      | inl e ↦ ground (arith, rw (e, create_rows) at h)
      | inr (s, e) ↦
          let row : PortfolioItemCreate = record i { portfolio_id = some id } in
          let t'' = (create_portfolio_item user_id s.id now row t).1 in
          let rest = create_rows-Held user_id now id is t'' t' (rw (e, create_rows) at h) there in
          (
            rest.0,
            omega (arith, rest.1),
            λ k. rest.2 (All-append (Held t.portfolios) t.items (_ ∷ []) k (there, tt)),
          )
    ]

valued-Adds :
    (m : Market) (user_id now : ℕ) (t t' : Tables)
    → Adds t t'
    → Adds t (create_user_valuation_snapshot m user_id now t')
valued-Adds m user_id now t t' a =
    let same = create_user_valuation_snapshot_same m user_id now t' in
    (valued-Changed m user_id now t t' a.0, λ h. rw (same.0, same.1) (a.1 h))

-- The log changes nothing else.
logged-Adds :
    (user_id id : ℕ) (s : Parsed) (handling : DuplicateHandling) (t t' : Tables)
    → Adds t t'
    → Adds t (create_portfolio_import_audit_log user_id id s handling t')
unfolding create_portfolio_import_audit_log
logged-Adds user_id id s handling t t' a = (
  Changed-respects t t' (create_portfolio_import_audit_log user_id id s handling t') refl
      (omega arith) a.0,
  a.1,
)

module _ (m : Market) (f : Formats) where
  import_parsed-Adds :
      (user_id now : ℕ) (handling : DuplicateHandling) (s : Parsed) (c : PortfolioCreate)
      (t : Tables)
      → count_by (λ p. p.user_id == user_id) t.portfolios < max_portfolios_per_user
      → Adds t (import_parsed m f user_id now handling s c t).1
  unfolding import_parsed create_portfolio create_portfolio_import_audit_log
  import_parsed-Adds user_id now handling s c t few =
      go (create_rows user_id now t.next_id s.rows t1) refl
    where
      t1 : Tables
      t1 = (create_portfolio user_id now c t).1

      there : Exists user_id t.next_id t1.portfolios
      there =
          is_some-find-append (owned user_id t.next_id) t.portfolios
            (new_portfolio t.next_id user_id now c) (ground arith)

      go :
          (o : Outcome Tables)
          → create_rows user_id now t.next_id s.rows t1 ≡ o
          → Adds t (import_parsed m f user_id now handling s c t).1
      go (raised e) k = rw (k, import_parsed) (same refl (omega arith), λ h. h)
      go (ok t'') k =
          let rest = create_rows-Held user_id now t.next_id s.rows t1 t'' k there in
          let created : Changed t t1 = added user_id now c few refl (omega arith) in
          rw (k, import_parsed)
            (logged-Adds user_id t.next_id s handling t
              (create_user_valuation_snapshot m user_id now t'')
              (valued-Adds m user_id now t t'' (
                Changed-respects t t1 t'' rest.0 rest.1 created,
                λ h. rest.2 (Changed-Held t t1 created t.items h),
              )))

  import_outcome-Adds :
      (user_id now : ℕ) (handling : DuplicateHandling) (o : Outcome Parsed) (t : Tables)
      → count_by (λ p. p.user_id == user_id) t.portfolios < max_portfolios_per_user
      → Adds t (import_outcome m f user_id now handling o t).1
  unfolding import_parsed
  import_outcome-Adds user_id now handling (raised e) t few = (same refl (omega arith), λ h. h)
  import_outcome-Adds user_id now handling (ok s) t few = elim (Option-cases s.portfolio) [
    | inl a ↦ rw a (same refl (omega arith), λ h. h)
    | inr (c, a) ↦ rw a (import_parsed-Adds user_id now handling s c t few)
  ]

  pub import_portfolio_csv-Adds :
      (user_id now : ℕ) (handling : DuplicateHandling) (content : Text) (t : Tables)
      → Adds t (import_portfolio_csv m f user_id now handling content t).1
  unfolding import_portfolio_csv count_portfolios_for_user
  import_portfolio_csv-Adds user_id now handling content t =
      elim (Bool-cases (leb 10 (count_by (λ p. p.user_id == user_id) t.portfolios))) [
        | inl a ↦ rw a (same refl (omega arith), λ h. h)
        | inr a ↦ rw a (
            import_outcome-Adds user_id now handling (parse_portfolio_csv f handling t content) t
              (ground (arith, a)))
      ]
