-- ===== src/Portfolios/Merged.antt =====
-- Merging the rows of a file that are equal loses no row and no piece.
use flipradar.Portfolios.Outcomes.{ok, Outcome, raised}
use flipradar.Portfolios.Holdings.{PortfolioItemCreate}
use flipradar.Portfolios.Rows.{DuplicateHandling, Tables}
use flipradar.Portfolios.Stores.{PortfolioCreate, get_set_by_number}
use flipradar.Portfolios.Imports.{
  first_of, Formats, merge_into, Parsed, CsvRow, take_row, parse_rows, parse_row, same_purchase,
  same_as_first, missing_value, all_blank, is_reject, is_merge,
}
use flipradar.Base.{
  ℕ, List, Option, length, ◌∷◌, some_row, some, ◌++◌, ◌+◌, ◌≡◌, none, [], true, arith, Bool-cases,
  refl, inl, inr, sym, ◌||◌, is_some, Option-cases, ◌&&◌,
}

-- The pieces of the rows, and those of a file.
abbrev pub pieces : List PortfolioItemCreate → ℕ
pieces [] = 0
pieces (i ∷ is) = i.quantity + pieces is

abbrev pub quantity_in : Option (PortfolioCreate × PortfolioItemCreate) → ℕ
quantity_in none = 0
quantity_in (some (p, i)) = i.quantity

abbrev pub pieces_in : Formats → List CsvRow → ℕ
pieces_in f [] = 0
pieces_in f (r ∷ rs) = quantity_in (f.validate r.values) + pieces_in f rs

pieces-append : (is js : List PortfolioItemCreate) → pieces (is ++ js) ≡ pieces is + pieces js
pieces-append [] js = omega arith
pieces-append (i ∷ is) js = ground (arith, pieces-append is js)

length-added :
    (i : PortfolioItemCreate) (is : List PortfolioItemCreate)
    → length (is ++ (i ∷ [])) ≡ length is + 1
length-added i [] = refl
length-added i (j ∷ is) = ground (arith, length-added i is)

merge_into-pieces :
    (i : PortfolioItemCreate) (rs : List PortfolioItemCreate)
    → some_row (same_purchase i) rs ≡ true
    → (pieces (merge_into i rs) ≡ pieces rs + i.quantity) × (length (merge_into i rs) ≡ length rs)
unfolding merge_into
merge_into-pieces i [] h = ground (arith, h)
merge_into-pieces i (r ∷ rs) h = elim (Bool-cases (same_purchase i r)) [
  | inl e ↦ rw e (omega arith, refl)
  | inr e ↦
      let rest = merge_into-pieces i rs (rw e at h) in
      rw e (omega (arith, rest), omega (arith, rest))
]

-- What the rows so far stand for: rows of the file, and pieces.
abbrev pub Grown : Parsed → ℕ → ℕ → Parsed → Type 0
Grown s rows quantity s' =
    (length s'.rows + s'.merged ≡ length s.rows + s.merged + rows)
    × (pieces s'.rows ≡ pieces s.rows + quantity)

module _ (f : Formats) (handling : DuplicateHandling) (t : Tables) where
  take_row-Grown :
      (n : ℕ) (p : PortfolioCreate) (i : PortfolioItemCreate) (s s' : Parsed)
      → take_row f handling t n p i s ≡ ok s'
      → Grown s 1 i.quantity s'
  unfolding take_row
  take_row-Grown n p i s s' h =
      let first : Option PortfolioCreate = some (first_of s.portfolio p) in
      let repeated = some_row (same_purchase i) s.rows in
      let with_merged : Parsed = record {
        portfolio = first;
        rows = merge_into i s.rows;
        merged = s.merged + 1;
      } in
      let with_row : Parsed = record {
        portfolio = first;
        rows = s.rows ++ (i ∷ []);
        merged = s.merged;
      } in
      elim (Bool-cases (same_as_first s.portfolio p)) [
        | inr a ↦ ground (arith, h, a)
        | inl a ↦ elim (Bool-cases (is_some (get_set_by_number i.set_number t))) [
          | inr b ↦ ground (arith, h, a, b)
          | inl b ↦ elim (Bool-cases (repeated && is_reject handling)) [
            | inl c ↦ ground (arith, h, a, b, c)
            | inr c ↦ elim (Bool-cases (repeated && is_merge handling)) [
              | inl d ↦
                  let done : ok with_merged ≡ ok s' = rw (a, b, c, d) at h in
                  let it : with_merged ≡ s' = cc in
                  let added = merge_into-pieces i s.rows (ground (arith, d)) in
                  rw (sym it) (omega (arith, added), omega (arith, added))
              | inr d ↦
                  let done : ok with_row ≡ ok s' = rw (a, b, c, d) at h in
                  let it : with_row ≡ s' = cc in
                  rw (sym it) (
                    omega (arith, length-added i s.rows),
                    omega (arith, pieces-append s.rows (i ∷ [])),
                  )
            ]
          ]
        ]
      ]

  parse_row-Grown :
      (n : ℕ) (r : CsvRow) (s s' : Parsed)
      → parse_row f handling t n r s ≡ ok s'
      → Grown s 1 (quantity_in (f.validate r.values)) s'
  unfolding parse_row
  parse_row-Grown n r s s' h = elim (Bool-cases (r.too_many_fields || missing_value r.values)) [
    | inl a ↦ ground (arith, h, a)
    | inr a ↦ elim (Bool-cases (all_blank r.values)) [
      | inl b ↦ ground (arith, h, a, b)
      | inr b ↦ elim (Option-cases (f.validate r.values)) [
        | inl c ↦ ground (arith, h, a, b, c)
        | inr ((p, i), c) ↦ rw c (take_row-Grown n p i s s' (rw (a, b, c) at h))
      ]
    ]
  ]

  pub parse_rows-Grown :
      (n : ℕ) (rs : List CsvRow) (s s' : Parsed)
      → parse_rows f handling t n rs s ≡ ok s'
      → Grown s (length rs) (pieces_in f rs) s'
  unfolding parse_rows
  parse_rows-Grown n [] s s' h = let it : s ≡ s' = cc in rw (sym it) (omega arith, omega arith)
  parse_rows-Grown n (r ∷ rs) s s' h =
      go (parse_row f handling t n r s) refl (λ s''. parse_rows-Grown (n + 1) rs s'' s')
    where
      go :
          (o : Outcome Parsed)
          → parse_row f handling t n r s ≡ o
          → ((s'' : Parsed)
              → parse_rows f handling t (n + 1) rs s'' ≡ ok s'
              → Grown s'' (length rs) (pieces_in f rs) s')
          → Grown s (length (r ∷ rs)) (pieces_in f (r ∷ rs)) s'
      go (raised e) k others = ground (arith, rw (k, parse_rows) at h)
      go (ok s'') k others =
          let this = parse_row-Grown n r s s'' k in
          let rest = others s'' (rw (k, parse_rows) at h) in
          (omega (arith, this, rest), omega (arith, this, rest))
