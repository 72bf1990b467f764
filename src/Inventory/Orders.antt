-- ===== src/Inventory/Orders.antt =====
-- What changes the checklist: `update_adjustment`, `add_missing_parts_to_purchase_list` and
-- `update_purchase_item` of backend/flipradar/services/inventory_service.py.
use flipradar.Inventory.Stock.{Answer, not_found, ok, purchase_item, requirement, substitute}
use flipradar.Inventory.Rows.{
  Element, ReplacementPurchaseItem, LegoSet, SetPartRequirement, Tables, ChecklistAdjustment,
}
use flipradar.Base.Int.{ℤ}
use flipradar.Inventory.Checklist.{
  set_by_number, checklist, Line, Checklist, taken, adjusted_by, bought_by,
}
use flipradar.Base.{
  ℕ, Bool, Option, Text, List, some, false, if◌then◌else◌, [], none, ◌∷◌, not, find, ◌==◌, is_some,
  ◌&&◌, some_row, ◌++◌, update_where, ◌+◌,
}

-- The requirement of the identifier, in the set of the number.
abbrev pub requirement_of : Option LegoSet → ℕ → SetPartRequirement → Bool
requirement_of none id r = false
requirement_of (some s) id r = r.id == id && r.lego_set_id == s.id

-- A substitute that is named and is not in the catalogue.
abbrev pub unknown_substitute : Option ℕ → List Element → Bool
unknown_substitute none es = false
unknown_substitute (some id) es = not (is_some (find (λ e. e.id == id) es))

unfoldable pub store_adjustment : ℕ → ℕ → ℤ → Option ℕ → Tables → Tables
store_adjustment user_id requirement_id manual_adjustment substitute_id t =
    let change : ChecklistAdjustment → ChecklistAdjustment = λ a. record a {
      manual_adjustment = manual_adjustment;
      substitute_element_id = substitute_id;
    } in
    let fresh : ChecklistAdjustment = record {
      user_id = user_id;
      requirement_id = requirement_id;
      manual_adjustment = manual_adjustment;
      substitute_element_id = substitute_id;
    } in
    record t {
      adjustments = elim (find (adjusted_by user_id requirement_id) t.adjustments) [
        | none ↦ t.adjustments ++ (fresh ∷ [])
        | some a ↦ update_where (adjusted_by user_id requirement_id) change t.adjustments
      ];
    }

unfoldable pub update_adjustment : ℕ → Text → ℕ → ℤ → Option ℕ → Tables → Answer Checklist × Tables
unfolding set_by_number store_adjustment checklist
update_adjustment user_id set_number requirement_id manual_adjustment substitute_id t =
    let t' = store_adjustment user_id requirement_id manual_adjustment substitute_id t in
    if not (some_row (requirement_of (set_by_number set_number t) requirement_id) t.requirements)
    then (not_found requirement, t)
    else if unknown_substitute substitute_id t.elements
    then (not_found substitute, t)
    else (checklist user_id set_number t', t')

-- `element["estimated_unit_cost"] or Decimal("0.00")`
abbrev pub cost_or_zero : Option ℕ → ℕ
cost_or_zero none = 0
cost_or_zero (some c) = c

-- An order that was placed already is left alone.
abbrev pub reorder : Line → ReplacementPurchaseItem → ReplacementPurchaseItem
reorder l i = if i.purchased then i else record i {
  element_id = (taken l).id;
  quantity = l.missing_quantity;
  estimated_unit_cost = cost_or_zero (taken l).estimated_unit_cost;
}

abbrev pub new_order : ℕ → ℕ → Line → ReplacementPurchaseItem
new_order id user_id l = record {
  id = id;
  user_id = user_id;
  requirement_id = l.requirement_id;
  element_id = (taken l).id;
  quantity = l.missing_quantity;
  estimated_unit_cost = cost_or_zero (taken l).estimated_unit_cost;
  actual_unit_cost = none;
  purchased = false;
}

-- The orders after one line of the checklist.
unfoldable pub order_line : ℕ → Line → Tables → Tables
order_line user_id l t = if l.missing_quantity == 0 then t else record t {
  purchases = elim (find (bought_by user_id l.requirement_id) t.purchases) [
    | none ↦ t.purchases ++ (new_order t.next_id user_id l ∷ [])
    | some i ↦ update_where (bought_by user_id l.requirement_id) (reorder l) t.purchases
  ];
  next_id = t.next_id + 1;
}

unfoldable pub order_lines : ℕ → List Line → Tables → Tables
unfolding order_line
order_lines user_id [] t = t
order_lines user_id (l ∷ ls) t = order_lines user_id ls (order_line user_id l t)

abbrev pub ordered : ℕ → Text → Answer Checklist → Tables → Answer Checklist × Tables
ordered user_id set_number (not_found m) t = (not_found m, t)
ordered user_id set_number (ok c) t =
    let t' = order_lines user_id c.lines t in (checklist user_id set_number t', t')

unfoldable pub add_missing_parts_to_purchase_list : ℕ → Text → Tables → Answer Checklist × Tables
unfolding checklist order_lines
add_missing_parts_to_purchase_list user_id set_number t =
    ordered user_id set_number (checklist user_id set_number t) t

abbrev pub settled : Bool → Option ℕ → ReplacementPurchaseItem → ReplacementPurchaseItem
settled purchased actual_unit_cost i = record i {
  purchased = purchased;
  actual_unit_cost = actual_unit_cost;
}

-- The set of a requirement, by the identifiers of both. The rows refer to rows that are there.
abbrev pub number_of : Option SetPartRequirement → List LegoSet → Text
number_of none sets = []
number_of (some r) sets = elim (find (λ s. s.id == r.lego_set_id) sets) [
  | none ↦ []
  | some s ↦ s.set_number
]

abbrev pub updated :
    ℕ → Bool → Option ℕ → Option ReplacementPurchaseItem → Tables → Answer Checklist × Tables
updated user_id purchased actual_unit_cost none t = (not_found purchase_item, t)
updated user_id purchased actual_unit_cost (some i) t =
    let t' = record t {
      purchases = update_where (λ j. j.id == i.id) (settled purchased actual_unit_cost) t.purchases;
    } in
    let set_number = number_of (find (λ r. r.id == i.requirement_id) t.requirements) t.sets in
    (checklist user_id set_number t', t')

unfoldable pub update_purchase_item : ℕ → ℕ → Bool → Option ℕ → Tables → Answer Checklist × Tables
unfolding checklist
update_purchase_item user_id purchase_item_id purchased actual_unit_cost t =
    updated user_id purchased actual_unit_cost
      (find (λ i. i.id == purchase_item_id && i.user_id == user_id) t.purchases) t
