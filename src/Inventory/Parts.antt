-- ===== src/Inventory/Parts.antt =====
-- What the numbers of a checklist say.
use flipradar.Inventory.Stock.{ok, Answer, not_found}
use flipradar.Inventory.Rows.{Tables, SetPartRequirement, LegoSet}
use flipradar.Inventory.Checklist.{
  completeness_percent_of, checklist_line, lines_of, sum_by, checklist, totals, Checklist,
  checklist_of, Line, set_by_number,
}
use flipradar.Base.Decimal.{round_half_up, round_half_up_le}
use flipradar.Base.{
  ℕ, Option, ◌≤◌, some, none, ◌*◌, List, arith, suc, zero, min, ◌+◌, ◌≡◌, ◌∷◌, [], refl, Text,
  select, ◌==◌, subst, ap,
}

-- The parts of a line are owned or missing.
lines-split :
    (t : Tables) (user_id : ℕ) (rs : List SetPartRequirement)
    → let lines = lines_of t user_id rs in
      sum_by (λ l. min l.adjusted_quantity l.owned_quantity) lines
        + sum_by (λ l. l.missing_quantity) lines
      ≡ sum_by (λ l. l.adjusted_quantity) lines
unfolding checklist_line
lines-split t user_id [] = refl
lines-split t user_id (r ∷ rs) = omega (arith, lines-split t user_id rs)

percent_bound :
    (owned required : ℕ) → owned ≤ required → completeness_percent_of owned required ≤ 1_000
unfolding completeness_percent_of
percent_bound owned zero h = omega arith
percent_bound owned (suc required) h =
    round_half_up_le (1_000 * owned) (suc required) 1_000 (omega arith) (omega (arith, h))

abbrev pub or_zero : Option ℕ → ℕ
or_zero none = 0
or_zero (some v) = v

totals_bounds :
    (number : Text) (lines : List Line) (value price : Option ℕ)
    → sum_by (λ l. min l.adjusted_quantity l.owned_quantity) lines
        + sum_by (λ l. l.missing_quantity) lines
      ≡ sum_by (λ l. l.adjusted_quantity) lines
    → let c = totals number lines value price in
      (c.owned_parts + c.missing_parts ≡ c.required_parts)
      × (c.completeness_percent ≤ 1_000)
      × (or_zero c.completeness_adjusted_value ≤ or_zero c.completed_set_value)
unfolding totals
totals_bounds number lines value price h =
    let percent =
      percent_bound (sum_by (λ l. min l.adjusted_quantity l.owned_quantity) lines)
        (sum_by (λ l. l.adjusted_quantity) lines) (omega (arith, h)) in
    (h, percent, part value _ percent)
  where
    part :
        (value : Option ℕ) (percent : ℕ)
        → percent ≤ 1_000
        → or_zero (elim value [ none ↦ none | some v ↦ some (round_half_up (v * percent) 1_000) ])
          ≤ or_zero value
    part none percent k = omega arith
    part (some v) percent k =
        round_half_up_le (v * percent) 1_000 v (omega arith) (grind (arith, k))

pub ok_of : {A : Type 0} (P : A → Type 0) (a b : A) → P a → Answer.ok a ≡ ok b → P b
ok_of P a b h e = subst P (ap (value_or a) e) h
  where
    value_or : {A : Type 0} → A → Answer A → A
    value_or d (ok a) = a
    value_or d (not_found m) = d

checklist_of-bounds :
    (user_id : ℕ) (s : Option LegoSet) (t : Tables) (c : Checklist)
    → checklist_of user_id s t ≡ ok c
    → (c.owned_parts + c.missing_parts ≡ c.required_parts)
      × (c.completeness_percent ≤ 1_000)
      × (or_zero c.completeness_adjusted_value ≤ or_zero c.completed_set_value)
checklist_of-bounds user_id none t c e = cc
checklist_of-bounds user_id (some s) t c e =
    ok_of
      (λ c.
        (c.owned_parts + c.missing_parts ≡ c.required_parts)
        × (c.completeness_percent ≤ 1_000)
        × (or_zero c.completeness_adjusted_value ≤ or_zero c.completed_set_value))
      _ c
      (totals_bounds s.set_number
        (lines_of t user_id (select (λ r. r.lego_set_id == s.id) t.requirements)) _ _
        (lines-split t user_id (select (λ r. r.lego_set_id == s.id) t.requirements)))
      e

-- In a checklist every required part is owned or missing, completeness is at most 100%, and the value
-- that is adjusted for it is at most the value of the complete set.
pub checklist-parts :
    (user_id : ℕ) (set_number : Text) (t : Tables) (c : Checklist)
    → checklist user_id set_number t ≡ ok c
    → (c.owned_parts + c.missing_parts ≡ c.required_parts)
      × (c.completeness_percent ≤ 1_000)
      × (or_zero c.completeness_adjusted_value ≤ or_zero c.completed_set_value)
unfolding checklist
checklist-parts user_id set_number t c e =
    checklist_of-bounds user_id (set_by_number set_number t) t c e
