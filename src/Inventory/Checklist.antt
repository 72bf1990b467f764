-- ===== src/Inventory/Checklist.antt =====
-- `checklist` of backend/flipradar/services/inventory_service.py: what is missing of a set, and what
-- it is worth.
use flipradar.Base.Int.{ℤ, pos_part, pos, ◌-ℤ◌, ◌+ℤ◌}
use flipradar.Inventory.Stock.{Answer, not_found, owned_by, set, ok}
use flipradar.Base.Decimal.{round_half_up}
use flipradar.Inventory.Rows.{
  Tables, ReplacementPurchaseItem, ChecklistAdjustment, Element, LegoSet, InventoryItem,
  SetPartRequirement, FairMarketValue, PortfolioItem,
}
use flipradar.Base.{
  ℕ, none, Option, List, Text, ◌∷◌, Bool, min, suc, some, ◌==◌, if◌then◌else◌, ◌*◌, [], ◌+◌, find,
  leb, ◌&&◌, text_eq, ltb, zero, ◌-◌, select, not, false,
}

-- The part of `_element_response` that the checklist computes with.
pub record ElementResponse : Type 0 where
  pub id : ℕ
  pub estimated_unit_cost : Option ℕ

abbrev pub element_response : Element → ElementResponse
element_response e = record { id = e.id; estimated_unit_cost = e.market_price }

pub record Line : Type 0 where
  pub requirement_id : ℕ
  pub element : ElementResponse
  pub required_quantity : ℕ
  pub adjusted_quantity : ℕ
  pub owned_quantity : ℕ
  pub missing_quantity : ℕ
  pub substitute_element : Option ElementResponse
  pub substitution_candidates : List ElementResponse
  pub purchase_item_id : Option ℕ
  pub purchased : Bool
  pub actual_unit_cost : Option ℕ

pub record Checklist : Type 0 where
  pub set_number : Text
  pub required_parts : ℕ
  pub owned_parts : ℕ
  pub missing_parts : ℕ
  pub completeness_percent : ℕ
  pub estimated_replacement_cost : ℕ
  pub completed_set_value : Option ℕ
  pub completeness_adjusted_value : Option ℕ
  pub purchase_price : Option ℕ
  pub projected_net_value : Option ℤ
  pub lines : List Line

-- `set_number.upper()`
abbrev pub upper : Text → Text
upper [] = []
upper (c ∷ s) = (if leb 97 c && leb c 122 then c - 32 else c) ∷ upper s

unfoldable pub set_by_number : Text → Tables → Option LegoSet
set_by_number set_number t = find (λ s. text_eq s.set_number (upper set_number)) t.sets

abbrev pub adjusted_by : ℕ → ℕ → ChecklistAdjustment → Bool
adjusted_by user_id requirement_id a = a.user_id == user_id && a.requirement_id == requirement_id

abbrev pub bought_by : ℕ → ℕ → ReplacementPurchaseItem → Bool
bought_by user_id requirement_id i = i.user_id == user_id && i.requirement_id == requirement_id

-- `max(0, requirement.quantity + adjustment.manual_adjustment)`
abbrev pub adjusted : ℕ → Option ChecklistAdjustment → ℕ
adjusted quantity none = quantity
adjusted quantity (some a) = pos_part (pos quantity +ℤ a.manual_adjustment)

-- The element that the user takes instead.
abbrev pub substitute_id : Option ChecklistAdjustment → Option ℕ
substitute_id none = none
substitute_id (some a) = a.substitute_element_id

abbrev pub element_by_id : Option ℕ → List Element → Option Element
element_by_id none es = none
element_by_id (some id) es = find (λ e. e.id == id) es

abbrev pub quantity_of : Option InventoryItem → ℕ
quantity_of none = 0
quantity_of (some i) = i.quantity

abbrev pub responses : List Element → List ElementResponse
responses [] = []
responses (e ∷ es) = element_response e ∷ responses es

-- One line, by the adjustment, the substitute and the purchase that were found.
abbrev pub line_of :
    Tables
    → ℕ
    → SetPartRequirement
    → Option ChecklistAdjustment
    → Option Element
    → Option ReplacementPurchaseItem
    → Line
line_of t user_id r adjustment instead purchase =
    let wanted : ℕ = adjusted r.quantity adjustment in
    let taken : ℕ = elim instead [ none ↦ r.element.id | some e ↦ e.id ] in
    let available : ℕ = quantity_of (find (owned_by user_id taken) t.items) in
    record {
      requirement_id = r.id;
      element = element_response r.element;
      required_quantity = r.quantity;
      adjusted_quantity = wanted;
      owned_quantity = available;
      missing_quantity = wanted - available;
      substitute_element = elim instead [ none ↦ none | some e ↦ some (element_response e) ];
      substitution_candidates =
          responses
            (select (λ e. e.part_id == r.element.part_id && not (e.id == r.element.id)) t.elements);
      purchase_item_id = elim purchase [ none ↦ none | some i ↦ some i.id ];
      purchased = elim purchase [ none ↦ false | some i ↦ i.purchased ];
      actual_unit_cost = elim purchase [ none ↦ none | some i ↦ i.actual_unit_cost ];
    }

unfoldable pub checklist_line : Tables → ℕ → SetPartRequirement → Line
checklist_line t user_id r =
    let adjustment = find (adjusted_by user_id r.id) t.adjustments in
    line_of t user_id r adjustment (element_by_id (substitute_id adjustment) t.elements)
      (find (bought_by user_id r.id) t.purchases)

abbrev pub lines_of : Tables → ℕ → List SetPartRequirement → List Line
lines_of t user_id [] = []
lines_of t user_id (r ∷ rs) = checklist_line t user_id r ∷ lines_of t user_id rs

abbrev pub sum_by : (Line → ℕ) → List Line → ℕ
sum_by f [] = 0
sum_by f (l ∷ ls) = f l + sum_by f ls

-- `line["substitute_element"] or line["element"]`
abbrev pub taken : Line → ElementResponse
taken l = elim l.substitute_element [ none ↦ l.element | some e ↦ e ]

abbrev pub line_cost : Line → ℕ
line_cost l = elim (taken l).estimated_unit_cost [ none ↦ 0 | some c ↦ l.missing_quantity * c ]

-- The latest of some rows, by a time.
abbrev pub latest : {A : Type 0} → (A → ℕ) → Option A → List A → Option A
latest time best [] = best
latest {A} time best (x ∷ xs) =
    let newer : Option A = elim best [
      | none ↦ some x
      | some b ↦ if ltb (time b) (time x) then some x else some b
    ] in
    latest time newer xs

-- In tenths of a percent.
unfoldable pub completeness_percent_of : ℕ → ℕ → ℕ
unfolding round_half_up
completeness_percent_of owned zero = 0
completeness_percent_of owned (suc required) = round_half_up (1_000 * owned) (suc required)

-- What the lines come to, with the value and the price of the set, if there are such.
unfoldable pub totals : Text → List Line → Option ℕ → Option ℕ → Checklist
unfolding completeness_percent_of round_half_up
totals set_number lines value price =
    let required : ℕ = sum_by (λ l. l.adjusted_quantity) lines in
    let owned : ℕ = sum_by (λ l. min l.adjusted_quantity l.owned_quantity) lines in
    let percent : ℕ = completeness_percent_of owned required in
    let cost : ℕ = sum_by line_cost lines in
    record {
      set_number = set_number;
      required_parts = required;
      owned_parts = owned;
      missing_parts = sum_by (λ l. l.missing_quantity) lines;
      completeness_percent = percent;
      estimated_replacement_cost = cost;
      completed_set_value = value;
      completeness_adjusted_value = elim value [
        | none ↦ none
        | some v ↦ some (round_half_up (v * percent) 1_000)
      ];
      purchase_price = price;
      projected_net_value = elim value [
        | none ↦ none
        | some v ↦ elim price [ none ↦ none | some p ↦ some (pos v -ℤ pos cost -ℤ pos p) ]
      ];
      lines = lines;
    }

abbrev pub checklist_of : ℕ → Option LegoSet → Tables → Answer Checklist
checklist_of user_id none t = not_found set
checklist_of user_id (some s) t =
    let value =
      latest (λ (v : FairMarketValue). v.retrieval_time) none
        (select (λ v. v.lego_set_id == s.id) t.values) in
    let bought =
      latest (λ (i : PortfolioItem). i.created_at) none
        (select (λ i. i.user_id == user_id && i.lego_set_id == s.id) t.portfolio_items) in
    ok (
      totals s.set_number (lines_of t user_id (select (λ r. r.lego_set_id == s.id) t.requirements))
        (elim value [ none ↦ none | some v ↦ some v.value ])
        (elim bought [ none ↦ none | some i ↦ some i.purchase_price ]))

unfoldable pub checklist : ℕ → Text → Tables → Answer Checklist
unfolding set_by_number checklist_line totals
checklist user_id set_number t = checklist_of user_id (set_by_number set_number t) t
