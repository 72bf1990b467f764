-- ===== src/Scoring/Bounds.antt =====
-- How a deal score depends on the cost.
use flipradar.Scoring.Score.{valued_deal}
use flipradar.Scoring.Report.{Components, Penalty}
use flipradar.Scoring.Deal.{
  value_score, percent_below, overall_score, to_score, weighted_sum, component, or_zero,
  score_breakdown_of, penalty_total,
}
use flipradar.Base.Int.{pos_part, sub_ℕ, scale, neg_part, ◌+ℤ◌, ℤ, pos}
use flipradar.Base.Decimal.{
  round_half_up, quantize, le_round_half_up, round_half_up_le, round_half_up-le,
}
use flipradar.Base.{ℕ, ◌+◌, ◌*◌, ◌≤◌, arith, ◌<◌, ◌≡◌, ◌-◌, min, List, some}

pos_part-quantize :
    (x y d : ℕ) → 0 < d → pos_part (quantize (sub_ℕ x y) d) ≡ round_half_up (x - y) d
unfolding quantize
pos_part-quantize x y d h =
    let none_up : round_half_up 0 d ≤ 0 = round_half_up_le 0 d 0 h (omega arith) in
    ground (arith, none_up)

module _ (total_cost value : ℕ) (h : 0 < value) where
  none_of : round_half_up 0 value ≤ 0
  none_of = round_half_up_le 0 value 0 h (omega arith)

  pos_part-percent_below :
      pos_part (percent_below total_cost value) ≡ round_half_up (1000 * (value - total_cost)) value
  unfolding percent_below quantize scale
  pos_part-percent_below = ground (arith, none_of)

  neg_part-percent_below :
      neg_part (percent_below total_cost value) ≡ round_half_up (1000 * (total_cost - value)) value
  unfolding percent_below quantize scale
  neg_part-percent_below = ground (arith, none_of)

value_score_parts : (q : ℤ) → value_score q ≡ min 1000 (2 * (pos_part q + 250 - neg_part q))
unfolding value_score scale ◌+ℤ◌
value_score_parts q = ground arith

-- The value component scores 0 at a premium of a quarter of the fair value or more, 50 at the fair
-- value, and 100 at a discount of a quarter or more (in tenths, for a positive fair value).
pub value_score-percent_below :
    (total_cost value : ℕ)
    → 0 < value
    → (5 * value ≤ 4 * total_cost → value_score (percent_below total_cost value) ≡ 0)
      × (total_cost ≡ value → value_score (percent_below total_cost value) ≡ 500)
      × (4 * total_cost ≤ 3 * value → value_score (percent_below total_cost value) ≡ 1000)
value_score-percent_below total_cost value h =
    let none_up : round_half_up 0 value ≤ 0 = none_of total_cost value h in
    let up = pos_part-percent_below total_cost value h in
    let down = neg_part-percent_below total_cost value h in
    let parts = value_score_parts (percent_below total_cost value) in
    (
      λ premium.
          let far : 250 ≤ round_half_up (1000 * (total_cost - value)) value =
            le_round_half_up _ value 250 h (omega (arith, premium)) in
          let level : 1000 * (value - total_cost) ≡ 0 = omega (arith, premium) in
          ground (arith, parts, up, down, far, level, none_up),
      λ same.
          let level : 1000 * (value - total_cost) ≡ 0 = omega (arith, same) in
          let level' : 1000 * (total_cost - value) ≡ 0 = omega (arith, same) in
          ground (arith, parts, up, down, level, level', none_up),
      λ discount.
          let far : 250 ≤ round_half_up (1000 * (value - total_cost)) value =
            le_round_half_up _ value 250 h (omega (arith, discount)) in
          let level : 1000 * (total_cost - value) ≡ 0 = omega (arith, discount) in
          ground (arith, parts, up, down, far, level, none_up),
    )

-- A lower cost never lowers the value component.
value_score-le :
    (s t value : ℕ)
    → 0 < value
    → s ≤ t
    → value_score (percent_below t value) ≤ value_score (percent_below s value)
value_score-le s t value h e =
    let up : round_half_up (1000 * (value - t)) value ≤ round_half_up (1000 * (value - s)) value =
      round_half_up-le _ _ value h (omega (arith, e)) in
    let down : round_half_up (1000 * (s - value)) value ≤ round_half_up (1000 * (t - value)) value =
      round_half_up-le _ _ value h (omega (arith, e)) in
    ground (
      arith,
      up,
      down,
      value_score_parts (percent_below t value),
      value_score_parts (percent_below s value),
      pos_part-percent_below t value h,
      pos_part-percent_below s value h,
      neg_part-percent_below t value h,
      neg_part-percent_below s value h,
    )

to_score-le : (x y p d : ℕ) → 0 < d → x ≤ y → to_score (sub_ℕ x p) d ≤ to_score (sub_ℕ y p) d
unfolding to_score
to_score-le x y p d h e =
    let grown = round_half_up-le (x - p) (y - p) d h (omega (arith, e)) in
    ground (arith, grown, pos_part-quantize x p d h, pos_part-quantize y p d h)

overall_score-le :
    (a b : ℕ) (c : Components) (penalties : List Penalty)
    → a ≤ b
    → overall_score (record c { value = component 30 (some a) }) penalties
      ≤ overall_score (record c { value = component 30 (some b) }) penalties
unfolding overall_score weighted_sum component
overall_score-le a b c penalties e =
    let weighed : round_half_up (a * 30) 100 ≤ round_half_up (b * 30) 100 =
      round_half_up-le (a * 30) (b * 30) 100 (omega arith) (omega (arith, e)) in
    to_score-le _ _ (10 * penalty_total penalties) 10 (omega arith) (omega (arith, weighed))

-- For the same evidence, penalties and positive fair value, a listing that costs less never scores
-- lower.
pub valued_deal-le :
    (value s t price price' shipping shipping' confidence confidence' : ℕ) (c : Components)
    (penalties : List Penalty)
    → 0 < value
    → s ≤ t
    → or_zero (valued_deal value t price shipping c penalties confidence).score
      ≤ or_zero (valued_deal value s price' shipping' c penalties confidence').score
unfolding valued_deal
valued_deal-le value s t price price' shipping shipping' confidence confidence' c penalties h e =
    overall_score-le _ _ c penalties (value_score-le s t value h e)

to_score_penalised : (x p d : ℕ) → 0 < d → to_score (sub_ℕ x p) d ≤ to_score (pos x) d
unfolding to_score
to_score_penalised x p d h =
    let grown = round_half_up-le (x - p) (x - 0) d h (omega arith) in
    ground (arith, grown, pos_part-quantize x p d h, pos_part-quantize x 0 d h)

to_score_le : (a : ℤ) (d : ℕ) → to_score a d ≤ 100
unfolding to_score
to_score_le a d = omega arith

-- What is penalised never scores above its base score, and both lie between 0 and 100.
pub valued_deal-base_score :
    (value t price shipping confidence : ℕ) (c : Components) (penalties : List Penalty)
    → let r = valued_deal value t price shipping c penalties confidence in
      (or_zero r.score ≤ or_zero r.score_breakdown.base_score)
      × (or_zero r.score_breakdown.base_score ≤ 100)
unfolding valued_deal score_breakdown_of overall_score to_score
valued_deal-base_score value t price shipping confidence c penalties =
    (to_score_penalised _ (10 * penalty_total penalties) 10 (omega arith), to_score_le _ 10)
