-- ===== src/Inventory/Stock.antt =====
-- `list_inventory` and `set_inventory_quantity` of backend/flipradar/services/inventory_service.py.
use flipradar.Inventory.Rows.{Tables}
use flipradar.Inventory.Rows.{InventoryItem}
use flipradar.Base.{
  ℕ, List, Bool, find, ◌==◌, if◌then◌else◌, select, is_some, ◌&&◌, none, ltb, some, ◌++◌, ◌∷◌, [],
  update_where, ◌+◌,
}

-- What a call ends with: an answer, or a `ServiceError` with its status and what was not found.
pub data Missing : Type 0 where
  element set requirement substitute purchase_item : Missing

pub data Answer (A : Type 0) : Type 0 where
  ok : A → Answer A
  not_found : Missing → Answer A

abbrev pub owned_by : ℕ → ℕ → InventoryItem → Bool
owned_by user_id element_id i = i.user_id == user_id && i.element_id == element_id

-- What is in stock, without the order by the time of the last change.
unfoldable pub list_inventory : ℕ → Tables → List InventoryItem
list_inventory user_id t = select (λ i. i.user_id == user_id && ltb 0 i.quantity) t.items

abbrev pub with_quantity : ℕ → InventoryItem → InventoryItem
with_quantity quantity i = record i { quantity = quantity }

-- A unique constraint makes the row of a user and an element the only one.
unfoldable pub set_inventory_quantity : ℕ → ℕ → ℕ → Tables → Answer InventoryItem × Tables
set_inventory_quantity user_id element_id quantity t =
    let fresh : InventoryItem = record {
      id = t.next_id;
      user_id = user_id;
      element_id = element_id;
      quantity = quantity;
    } in
    let found = find (owned_by user_id element_id) t.items in
    if is_some (find (λ e. e.id == element_id) t.elements)
    then (
      ok (elim found [ none ↦ fresh | some i ↦ with_quantity quantity i ]),
      record t {
        items = elim found [
          | none ↦ t.items ++ (fresh ∷ [])
          | some i ↦ update_where (owned_by user_id element_id) (with_quantity quantity) t.items
        ];
        next_id = t.next_id + 1;
      },
    )
    else (not_found element, t)
