-- ===== src/Scoring/Totals.antt =====
-- What the totals of a portfolio add up to.
use flipradar.Base.Int.{ℤ, pos, ◌+ℤ◌, ◌-ℤ◌, eq_of_parts, +ℤ_parts, -ℤ_parts}
use flipradar.Scoring.Amounts.{Decimal}
use flipradar.Scoring.Valuation.{
  total_cost_basis, calculate_holding_valuation, HoldingValuation, valued_cost_basis,
  calculate_portfolio_totals, total_market_value, money_of,
}
use mathlib.Core.List.{Permᴰ}
use flipradar.Base.{ℕ, List, [], ◌∷◌, none, some, refl, ◌≡◌, Option, arith, map, ◌∙◌, ap, sym}

-- The gains of the holdings that have one.
abbrev pub sum_of_gains : List HoldingValuation → ℤ
sum_of_gains [] = pos 0
sum_of_gains (h ∷ hs) =
    let rest = sum_of_gains hs in elim h.unrealized_gain_loss [ none ↦ rest | some g ↦ g +ℤ rest ]

-- A holding's quantity, purchase price and unit value, valued.
abbrev pub valued : ℕ × Decimal × Option Decimal → HoldingValuation
valued (quantity, price, unit) = calculate_holding_valuation quantity price unit

+ℤ_swap : (a b c : ℤ) → a +ℤ (b +ℤ c) ≡ b +ℤ (a +ℤ c)
+ℤ_swap a b c =
    eq_of_parts (a +ℤ (b +ℤ c)) (b +ℤ (a +ℤ c))
      (omega (arith, +ℤ_parts a (b +ℤ c), +ℤ_parts b c, +ℤ_parts b (a +ℤ c), +ℤ_parts a c))

gain_step : (v b m c : ℤ) → (v +ℤ m) -ℤ (b +ℤ c) ≡ (v -ℤ b) +ℤ (m -ℤ c)
gain_step v b m c = eq_of_parts ((v +ℤ m) -ℤ (b +ℤ c)) ((v -ℤ b) +ℤ (m -ℤ c)) (
    omega (
      arith,
      -ℤ_parts (v +ℤ m) (b +ℤ c),
      +ℤ_parts v m,
      +ℤ_parts b c,
      +ℤ_parts (v -ℤ b) (m -ℤ c),
      -ℤ_parts v b,
      -ℤ_parts m c,
    ))

gain_lem :
    (hs : List (ℕ × Decimal × Option Decimal))
    → total_market_value (map valued hs) -ℤ valued_cost_basis (map valued hs)
      ≡ sum_of_gains (map valued hs)
unfolding calculate_holding_valuation total_market_value valued_cost_basis ◌-ℤ◌
gain_lem [] = refl
gain_lem ((quantity, price, none) ∷ hs) = gain_lem hs
gain_lem ((quantity, price, some unit) ∷ hs) =
    gain_step (money_of quantity unit) (money_of quantity price)
      (total_market_value (map valued hs)) (valued_cost_basis (map valued hs))
    ∙ ap (λ g. (money_of quantity unit -ℤ money_of quantity price) +ℤ g) (gain_lem hs)

-- The total gain of a portfolio is the sum of the gains of its holdings that have a market value.
pub calculate_portfolio_totals-gain :
    (hs : List (ℕ × Decimal × Option Decimal))
    → (calculate_portfolio_totals (map valued hs)).total_gain_loss ≡ sum_of_gains (map valued hs)
unfolding calculate_portfolio_totals
calculate_portfolio_totals-gain = gain_lem

module _ {A : Type 0} (f : A → ℤ) where
  abbrev sum_by : List A → ℤ
  sum_by [] = pos 0
  sum_by (x ∷ xs) = f x +ℤ sum_by xs

  sum_by-Perm : {xs ys : List A} → Permᴰ xs ys → sum_by xs ≡ sum_by ys
  sum_by-Perm Permᴰ.nil = refl
  sum_by-Perm (Permᴰ.cons {b = b} {l₁ = xs} e p) =
      ap (λ c. f c +ℤ sum_by xs) e ∙ ap (λ n. f b +ℤ n) (sum_by-Perm p)
  sum_by-Perm (Permᴰ.swap {a = a} {b = b} {a' = a'} {l = xs} e k) =
      +ℤ_swap (f a) (f b) (sum_by xs)
      ∙ ap (λ c. f c +ℤ (f a +ℤ sum_by xs)) k
      ∙ ap (λ c. f a' +ℤ (f c +ℤ sum_by xs)) e
  sum_by-Perm (Permᴰ.trans p q) = sum_by-Perm p ∙ sum_by-Perm q

+ℤ_zero : (a : ℤ) → a ≡ pos 0 +ℤ a
+ℤ_zero a = eq_of_parts a (pos 0 +ℤ a) (omega (arith, +ℤ_parts (pos 0) a))

-- What a holding adds to the two sums over holdings with a market value.
abbrev market_share : HoldingValuation → ℤ
market_share h = elim h.market_value [ none ↦ pos 0 | some v ↦ v ]

abbrev valued_share : HoldingValuation → ℤ
valued_share h = elim h.market_value [ none ↦ pos 0 | some v ↦ h.cost_basis ]

total_cost_basis_sum :
    (hs : List HoldingValuation) → total_cost_basis hs ≡ sum_by (λ h. h.cost_basis) hs
unfolding total_cost_basis
total_cost_basis_sum [] = refl
total_cost_basis_sum (h ∷ hs) = ap (λ n. h.cost_basis +ℤ n) (total_cost_basis_sum hs)

module _ (c : ℤ) where
  market_step :
      (v : Option ℤ) (m n : ℤ)
      → m ≡ n
      → (elim v as (λ _. ℤ) [ none ↦ m | some v ↦ v +ℤ m ])
        ≡ (elim v as (λ _. ℤ) [ none ↦ pos 0 | some v ↦ v ]) +ℤ n
  market_step none m n e = e ∙ +ℤ_zero n
  market_step (some v) m n e = ap (λ k. v +ℤ k) e

  valued_step :
      (v : Option ℤ) (m n : ℤ)
      → m ≡ n
      → (elim v as (λ _. ℤ) [ none ↦ m | some v ↦ c +ℤ m ])
        ≡ (elim v as (λ _. ℤ) [ none ↦ pos 0 | some v ↦ c ]) +ℤ n
  valued_step none m n e = e ∙ +ℤ_zero n
  valued_step (some v) m n e = ap (λ k. c +ℤ k) e

total_market_value_sum :
    (hs : List HoldingValuation) → total_market_value hs ≡ sum_by market_share hs
unfolding total_market_value
total_market_value_sum [] = refl
total_market_value_sum (h ∷ hs) =
    market_step h.cost_basis h.market_value _ _ (total_market_value_sum hs)

valued_cost_basis_sum : (hs : List HoldingValuation) → valued_cost_basis hs ≡ sum_by valued_share hs
unfolding valued_cost_basis
valued_cost_basis_sum [] = refl
valued_cost_basis_sum (h ∷ hs) =
    valued_step h.cost_basis h.market_value _ _ (valued_cost_basis_sum hs)

through :
    {A : Type 0} (t : List A → ℤ) (f : A → ℤ)
    → ((xs : List A) → t xs ≡ sum_by f xs)
    → {xs ys : List A} → Permᴰ xs ys
    → t xs ≡ t ys
through t f e {xs = xs} {ys = ys} p = e xs ∙ sum_by-Perm f p ∙ sym (e ys)

-- The totals of a portfolio do not depend on the order of its holdings.
pub calculate_portfolio_totals-Perm :
    {xs ys : List HoldingValuation}
    → Permᴰ xs ys
    → calculate_portfolio_totals xs ≡ calculate_portfolio_totals ys
unfolding calculate_portfolio_totals
calculate_portfolio_totals-Perm p =
    let basis = through total_cost_basis (λ h. h.cost_basis) total_cost_basis_sum p in
    let value = through total_market_value market_share total_market_value_sum p in
    let valued_basis = through valued_cost_basis valued_share valued_cost_basis_sum p in
    rw (basis, value, valued_basis) refl
