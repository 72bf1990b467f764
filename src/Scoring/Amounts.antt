-- ===== src/Scoring/Amounts.antt =====
-- Amounts that come in as any decimal number, and what the engines make of them: cents and tenths of
-- a percent. A check that fails is the `ValueError` of the source.
use flipradar.Base.{ℕ, zero, suc, ◌*◌, ◌^◌, if◌then◌else◌, leb}
use flipradar.Base.Int.{ℤ, pos, negsuc, scale}
use flipradar.Base.Decimal.{quantize, round_half_up}

-- `unscaled` / 10 ^ `places`
pub record Decimal : Type 0 where
  pub unscaled : ℤ
  pub places : ℕ

pub data Field : Type 0 where
  asking_price shipping_price fair_value set_quality_score valuation_confidence_score : Field
  product_match_confidence_score seller_trust_score marketplace_trust_score : Field
  condition_score : Field

pub data Problem : Type 0 where
  must_be_non_negative must_be_greater_than_zero must_be_between_0_and_100 : Problem

pub data Checked (A : Type 0) : Type 0 where
  ok : A → Checked A
  invalid : Field → Problem → Checked A

infixl 5 ◌>>=◌
abbrev pub ◌>>=◌ : {A B : Type 0} → Checked A → (A → Checked B) → Checked B
m >>= f = elim m [ ok a ↦ f a | invalid x p ↦ invalid x p ]

-- `value.quantize(Decimal("0.01"), rounding=ROUND_HALF_UP)` in cents
unfoldable pub money : Decimal → ℤ
money d = quantize (scale 100 d.unscaled) (10 ^ d.places)

-- The cents of an amount that is not negative.
unfoldable pub non_negative_money : Field → Decimal → Checked ℕ
unfolding money
non_negative_money name d = elim d.unscaled [
  | pos n ↦ ok (round_half_up (100 * n) (10 ^ d.places))
  | negsuc n ↦ invalid name must_be_non_negative
]

abbrev above_zero : Field → ℕ → Checked ℕ
above_zero name zero = invalid name must_be_greater_than_zero
above_zero name (suc n) = ok (suc n)

unfoldable pub positive_money : Field → Decimal → Checked ℕ
unfolding non_negative_money
positive_money name d = non_negative_money name d >>= above_zero name

-- The tenths of a score between 0 and 100.
unfoldable pub normalized_score : Field → Decimal → Checked ℕ
normalized_score name d = elim d.unscaled [
  | pos n ↦
      if leb n (100 * 10 ^ d.places)
      then ok (round_half_up (10 * n) (10 ^ d.places))
      else invalid name must_be_between_0_and_100
  | negsuc n ↦ invalid name must_be_between_0_and_100
]
