-- ===== src/Scoring/Recommend.antt =====
-- `score_recommendation` of backend/flipradar/domain/engines/scoring_engine.py. The margin is in
-- tenths of a percent.
use flipradar.Base.{ℕ, ◌^◌, ◌/◌, min, Option, none, some, leb, if◌then◌else◌}
use flipradar.Base.Int.{ℤ, pos, negsuc, pos_part, neg_part, sub_ℕ, ◌+ℤ◌, ◌-ℤ◌, scale, leb_ℤ}
use flipradar.Base.Decimal.{quantize}
use flipradar.Scoring.Amounts.{Decimal}

-- `other` is every other text.
pub data Confidence : Type 0 where
  high medium other : Confidence

pub data Band : Type 0 where
  excellent strong fair weak bad : Band

pub record Recommendation : Type 0 where
  pub score : ℕ
  pub margin_percent : ℤ
  pub deal_band : Band

abbrev pub confidence_adjustment : Confidence → ℕ
confidence_adjustment high = 0
confidence_adjustment medium = 4
confidence_adjustment other = 10

abbrev pub listing_count_adjustment : ℕ → ℕ
listing_count_adjustment n = if leb 8 n then 0 else if leb 3 n then 3 else 5

abbrev pub deal_band : ℤ → Band
deal_band margin =
    if leb_ℤ (pos 200) margin
    then excellent
    else if leb_ℤ (pos 100) margin
    then strong
    else if leb_ℤ (pos 0) margin
    then fair
    else if leb_ℤ (negsuc 99) margin
    then weak
    else bad

-- `int(Decimal("70") + margin_percent)`, which cuts the fraction off.
unfoldable pub base_score : ℤ → ℤ
base_score margin =
    let tenths = pos 700 +ℤ margin in sub_ℕ (pos_part tenths / 10) (neg_part tenths / 10)

-- (fair value - asking price) / fair value * 100
unfoldable pub margin_of : Decimal → Decimal → ℤ
margin_of asking worth =
    let value = scale (10 ^ asking.places) worth.unscaled in
    let price = scale (10 ^ worth.places) asking.unscaled in
    quantize (scale 1000 (value -ℤ price)) (pos_part value)

unfoldable pub scored : ℤ → Confidence → ℕ → Recommendation
unfolding base_score
scored margin confidence listing_count =
    let adjustment =
      sub_ℕ 0 (confidence_adjustment confidence)
      +ℤ sub_ℕ 0 (listing_count_adjustment listing_count) in
    record {
      score = min 100 (pos_part (base_score margin +ℤ adjustment));
      margin_percent = margin;
      deal_band = deal_band margin;
    }

unfoldable pub no_price : Recommendation
no_price = record { score = 25; margin_percent = pos 0; deal_band = bad }

unfoldable pub score_recommendation : Option Decimal → Decimal → Confidence → ℕ → Recommendation
unfolding margin_of scored no_price
score_recommendation none worth confidence listing_count = no_price
score_recommendation (some asking) worth confidence listing_count =
    if leb (pos_part worth.unscaled) 0
    then no_price
    else scored (margin_of asking worth) confidence listing_count
