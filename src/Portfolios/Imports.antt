-- ===== src/Portfolios/Imports.antt =====
-- `_parse_portfolio_csv` and `import_portfolio_csv` of backend/flipradar/services/portfolio_service.py.
use flipradar.Portfolios.Outcomes.{
  Outcome, ok, raised, import_error, wrong_fields, not_csv, other_portfolio, wrong_headers,
  blank_row, invalid_format, no_rows, unknown_set, duplicate_row, too_many_rows,
}
use flipradar.Base.Int.{pos_part, neg_part}
use flipradar.Scoring.Amounts.{Decimal}
use flipradar.Portfolios.Rows.{
  PortfolioCondition, DuplicateHandling, Tables, new, used, reject, merge, sealed, unknown,
}
use flipradar.Portfolios.Stores.{PortfolioCreate, get_set_by_number}
use flipradar.Portfolios.Holdings.{PortfolioItemCreate}
use flipradar.Base.{
  ℕ, Text, List, Option, Bool, some, [], none, false, ◌∷◌, true, text_eq, leb, ◌==◌, if◌then◌else◌,
  ◌&&◌, not, some_row, ◌||◌, ◌+◌, length, is_some, ltb, ◌++◌,
}

-- A row as the csv module reads it: whether it has more fields than the header, and the value of
-- each column, none where the row is too short.
pub record CsvRow : Type 0 where
  pub too_many_fields : Bool
  pub values : List (Option Text)

pub record CsvFile : Type 0 where
  pub fieldnames : List Text
  pub rows : List CsvRow

-- The csv module, which may fail; and pydantic's validation of the stripped values of a row, with the
-- portfolio that the row names.
pub record Formats : Type 0 where
  pub read : Text → Option CsvFile
  pub validate : List (Option Text) → Option (PortfolioCreate × PortfolioItemCreate)
  pub columns : List Text

-- The rows so far: the portfolio of the first, those to create, and how many were merged into one.
pub record Parsed : Type 0 where
  pub portfolio : Option PortfolioCreate
  pub rows : List PortfolioItemCreate
  pub merged : ℕ

-- White space, as far as ASCII goes.
abbrev pub is_space : ℕ → Bool
is_space c = leb 9 c && leb c 13 || leb 28 c && leb c 32

abbrev pub blank : Text → Bool
blank [] = true
blank (c ∷ cs) = is_space c && blank cs

abbrev pub missing_value : List (Option Text) → Bool
missing_value [] = false
missing_value (none ∷ vs) = true
missing_value (some v ∷ vs) = missing_value vs

abbrev pub all_blank : List (Option Text) → Bool
all_blank [] = true
all_blank (none ∷ vs) = false
all_blank (some v ∷ vs) = blank v && all_blank vs

abbrev pub text_list_eq : List Text → List Text → Bool
text_list_eq [] [] = true
text_list_eq (a ∷ xs) (b ∷ ys) = text_eq a b && text_list_eq xs ys
text_list_eq _ _ = false

abbrev pub option_eq {ℓ} : {A : Type ℓ} → (A → A → Bool) → Option A → Option A → Bool
option_eq eq none none = true
option_eq eq (some a) (some b) = eq a b
option_eq eq _ _ = false

abbrev pub same_condition : PortfolioCondition → PortfolioCondition → Bool
same_condition new new = true
same_condition used used = true
same_condition sealed sealed = true
same_condition unknown unknown = true
same_condition _ _ = false

-- Amounts have two places once they are validated.
abbrev pub same_amount : Decimal → Decimal → Bool
same_amount a b =
    pos_part a.unscaled == pos_part b.unscaled
    && neg_part a.unscaled == neg_part b.unscaled
    && a.places == b.places

abbrev pub same_portfolio_data : PortfolioCreate → PortfolioCreate → Bool
same_portfolio_data a b =
    text_eq a.name b.name
    && option_eq text_eq a.description b.description
    && text_eq a.currency b.currency

-- `duplicate_key` of two rows: all but the quantity.
unfoldable pub same_purchase : PortfolioItemCreate → PortfolioItemCreate → Bool
same_purchase a b =
    text_eq a.set_number b.set_number
    && same_amount a.purchase_price b.purchase_price
    && text_eq a.currency b.currency
    && same_condition a.condition b.condition
    && option_eq (λ x y. x == y) a.purchase_date b.purchase_date
    && option_eq text_eq a.notes b.notes

-- The first row with the key takes the quantity: `duplicate_indexes` has the index of that row.
unfoldable pub merge_into :
    PortfolioItemCreate → List PortfolioItemCreate → List PortfolioItemCreate
unfolding same_purchase
merge_into i [] = []
merge_into i (r ∷ rs) =
    let rest = merge_into i rs in
    if same_purchase i r then record r { quantity = r.quantity + i.quantity } ∷ rs else r ∷ rest

abbrev pub is_reject : DuplicateHandling → Bool
is_reject reject = true
is_reject _ = false

abbrev pub is_merge : DuplicateHandling → Bool
is_merge merge = true
is_merge _ = false

abbrev pub same_as_first : Option PortfolioCreate → PortfolioCreate → Bool
same_as_first none p = true
same_as_first (some q) p = same_portfolio_data p q

abbrev pub first_of : Option PortfolioCreate → PortfolioCreate → PortfolioCreate
first_of none p = p
first_of (some q) p = q

module _ (f : Formats) (handling : DuplicateHandling) (t : Tables) where
  -- A row that is valid.
  unfoldable pub take_row : ℕ → PortfolioCreate → PortfolioItemCreate → Parsed → Outcome Parsed
  unfolding merge_into same_purchase
  take_row n portfolio i s =
      let first = some (first_of s.portfolio portfolio) in
      let repeated = some_row (same_purchase i) s.rows in
      if not (same_as_first s.portfolio portfolio)
      then raised (import_error (some n) other_portfolio)
      else if not (is_some (get_set_by_number i.set_number t))
      then raised (import_error (some n) unknown_set)
      else if repeated && is_reject handling
      then raised (import_error (some n) duplicate_row)
      else if repeated && is_merge handling
      then ok (record { portfolio = first; rows = merge_into i s.rows; merged = s.merged + 1 })
      else ok (record { portfolio = first; rows = s.rows ++ (i ∷ []); merged = s.merged })

  unfoldable pub parse_row : ℕ → CsvRow → Parsed → Outcome Parsed
  unfolding take_row
  parse_row n r s =
      if r.too_many_fields || missing_value r.values
      then raised (import_error (some n) wrong_fields)
      else if all_blank r.values
      then raised (import_error (some n) blank_row)
      else elim (f.validate r.values) [
        | none ↦ raised (import_error (some n) invalid_format)
        | some (portfolio, i) ↦ take_row n portfolio i s
      ]

  unfoldable pub parse_rows : ℕ → List CsvRow → Parsed → Outcome Parsed
  unfolding parse_row
  parse_rows n [] s = ok s
  parse_rows n (r ∷ rs) s = elim (parse_row n r s) [
    | raised e ↦ raised e
    | ok s' ↦ parse_rows (n + 1) rs s'
  ]

  -- Rows are numbered from 2: the header is row 1.
  unfoldable pub parse_file : CsvFile → Outcome Parsed
  unfolding parse_rows
  parse_file file =
      if not (text_list_eq file.fieldnames f.columns)
      then raised (import_error none wrong_headers)
      else if length file.rows == 0
      then raised (import_error none no_rows)
      else if ltb 1000 (length file.rows)
      then raised (import_error none too_many_rows)
      else parse_rows 2 file.rows (record { portfolio = none; rows = []; merged = 0 })

  unfoldable pub parse_portfolio_csv : Text → Outcome Parsed
  unfolding parse_file
  parse_portfolio_csv content = elim (f.read content) [
    | none ↦ raised (import_error none not_csv)
    | some file ↦ parse_file file
  ]
