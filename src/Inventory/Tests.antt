-- ===== src/Inventory/Tests.antt =====
-- A set of two kinds of parts, on which the theorems about the inventory are applied.
use flipradar.Inventory.Parts.{or_zero, checklist-parts}
use flipradar.Inventory.Orders.{add_missing_parts_to_purchase_list}
use flipradar.Inventory.Purchases.{
  is_covered, add_missing_parts_to_purchase_list-purchased,
  add_missing_parts_to_purchase_list-covered,
}
use flipradar.Inventory.Rows.{Tables, Element}
use flipradar.Inventory.Shelf.{shown, run, Change, shelved, run-shown}
use flipradar.Inventory.Checklist.{totals, Checklist, checklist, checklist_line, lines_of}
use flipradar.Base.{find, List, ◌==◌, some, ◌+◌, none, All, ◌∷◌, ◌≡◌, [], refl, true, ◌≤◌}

abbrev red_brick : Element
red_brick = record { id = 1; part_id = 10; market_price = some 25 }

abbrev blue_brick : Element
blue_brick = record { id = 2; part_id = 10; market_price = none }

abbrev tables : Tables
tables = record {
  elements = red_brick ∷ blue_brick ∷ [];
  sets = record { id = 5; set_number = 65 ∷ [] } ∷ [];
  requirements =
      record { id = 100; lego_set_id = 5; element = red_brick; quantity = 4 }
      ∷ record { id = 101; lego_set_id = 5; element = blue_brick; quantity = 3 }
      ∷ [];
  items = record { id = 20; user_id = 7; element_id = 1; quantity = 1 } ∷ [];
  adjustments = [];
  purchases =
      record {
        id = 30;
        user_id = 7;
        requirement_id = 101;
        element_id = 2;
        quantity = 3;
        estimated_unit_cost = 0;
        actual_unit_cost = some 12;
        purchased = true;
      }
      ∷ [];
  values = record { lego_set_id = 5; value = 10_000; retrieval_time = 1 } ∷ [];
  portfolio_items = [];
  next_id = 40;
}

abbrev bill : Checklist
bill = totals (65 ∷ []) (lines_of tables 7 tables.requirements) (some 10_000) none

-- One of seven parts is owned: three red bricks for 25 cents each are missing, and three blue ones of
-- no known price.
bill_numbers :
    (bill.required_parts ≡ 7)
    × (bill.missing_parts ≡ 6)
    × (bill.completeness_percent ≡ 143)
    × (bill.estimated_replacement_cost ≡ 75)
    × (bill.completeness_adjusted_value ≡ some 1_430)
unfolding totals checklist_line
bill_numbers = (refl, refl, refl, refl, refl)

checklist-parts_example :
    (bill.owned_parts + bill.missing_parts ≡ bill.required_parts)
    × (bill.completeness_percent ≤ 1_000)
    × (or_zero bill.completeness_adjusted_value ≤ or_zero bill.completed_set_value)
unfolding checklist
checklist-parts_example = checklist-parts 7 (97 ∷ []) tables bill refl

add_missing_parts_to_purchase_list-purchased_example :
    find (λ j. j.id == 30) (add_missing_parts_to_purchase_list 7 (97 ∷ []) tables).1.purchases
    ≡ find (λ j. j.id == 30) tables.purchases
add_missing_parts_to_purchase_list-purchased_example =
    add_missing_parts_to_purchase_list-purchased 7 30 (97 ∷ [])
      (record {
        id = 30;
        user_id = 7;
        requirement_id = 101;
        element_id = 2;
        quantity = 3;
        estimated_unit_cost = 0;
        actual_unit_cost = some 12;
        purchased = true;
      })
      tables refl refl

add_missing_parts_to_purchase_list-covered_example :
    All
      (λ l.
        is_covered 7 (add_missing_parts_to_purchase_list 7 (97 ∷ []) tables).1.purchases l ≡ true)
      bill.lines
unfolding checklist
add_missing_parts_to_purchase_list-covered_example =
    add_missing_parts_to_purchase_list-covered 7 (97 ∷ []) tables bill ((refl, tt), (tt, tt)) refl

abbrev bought : List Change
bought =
    record { user_id = 7; element_id = 1; quantity = 4 }
    ∷ record { user_id = 8; element_id = 1; quantity = 2 }
    ∷ record { user_id = 7; element_id = 1; quantity = 0 }
    ∷ record { user_id = 7; element_id = 9; quantity = 5 }
    ∷ []

run-shown_example :
    shown (run bought (record tables { items = [] })) 7 1
    ≡ shelved tables.elements bought (λ u e. 0) 7 1
run-shown_example = run-shown (record tables { items = [] }) bought 7 1 refl
