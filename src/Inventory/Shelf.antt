-- ===== src/Inventory/Shelf.antt =====
-- The inventory as a shelf: how many of each element each user has.
use flipradar.Inventory.Stock.{owned_by, set_inventory_quantity, list_inventory, with_quantity}
use flipradar.Inventory.Rows.{Tables, Element, InventoryItem}
use flipradar.Base.{
  ℕ, Option, List, if◌then◌else◌, find, ◌==◌, ◌∷◌, Bool, [], is_some, some, ◌&&◌, ◌≡◌, none, true,
  update_where, Bool-cases, inl, arith, inr, ◌++◌, ◌∙◌, false, ap, find-update_where_other, refl,
  count_by, ◌≤◌, select, count_by-update_where, ltb, count_by-append, subst,
}

-- The abstract state, and the change of one quantity.
abbrev pub Shelf : Type 0
Shelf = ℕ → ℕ → ℕ

abbrev pub put : ℕ → ℕ → ℕ → Shelf → Shelf
put user_id element_id quantity s u e = if user_id == u && element_id == e then quantity else s u e

-- A request: the user, the element and its quantity.
pub record Change : Type 0 where
  pub user_id : ℕ
  pub element_id : ℕ
  pub quantity : ℕ

abbrev pub known : ℕ → List Element → Bool
known element_id es = is_some (find (λ e. e.id == element_id) es)

-- The shelf after some requests: those for elements that are not in the catalogue change nothing.
abbrev pub shelved : List Element → List Change → Shelf → Shelf
shelved es [] s = s
shelved es (c ∷ cs) s =
    shelved es cs (if known c.element_id es then put c.user_id c.element_id c.quantity s else s)

abbrev pub run : List Change → Tables → Tables
run [] t = t
run (c ∷ cs) t = run cs (set_inventory_quantity c.user_id c.element_id c.quantity t).1

abbrev quantity : Option InventoryItem → ℕ
quantity none = 0
quantity (some i) = i.quantity

-- What the rows hold, and what the user is shown.
abbrev shelf_of : Tables → Shelf
shelf_of t u e = quantity (find (owned_by u e) t.items)

abbrev pub shown : Tables → Shelf
shown t u e = quantity (find (owned_by u e) (list_inventory u t))

found_changed :
    (p : InventoryItem → Bool) (q : ℕ) (is : List InventoryItem)
    → ((i : InventoryItem) → p (with_quantity q i) ≡ p i)
    → is_some (find p is) ≡ true
    → quantity (find p (update_where p (with_quantity q) is)) ≡ q
found_changed p q [] e h = cc
found_changed p q (i ∷ is) e h = ground (arith, e i, found_changed p q is e)

found_added :
    (p : InventoryItem → Bool) (is : List InventoryItem) (i : InventoryItem)
    → is_some (find p is) ≡ false
    → p i ≡ true
    → quantity (find p (is ++ (i ∷ []))) ≡ i.quantity
found_added p [] i h k = ground arith
found_added p (j ∷ is) i h k = ground (arith, found_added p is i)

not_added :
    (p : InventoryItem → Bool) (is : List InventoryItem) (i : InventoryItem)
    → p i ≡ false
    → find p (is ++ (i ∷ [])) ≡ find p is
not_added p [] i h = ground arith
not_added p (j ∷ is) i h = ground (arith, not_added p is i)

-- The rows after a change of the quantity of an element, by what was found before.
module _ (user_id element_id q : ℕ) (is : List InventoryItem) (fresh : InventoryItem)
    (mine : owned_by user_id element_id fresh ≡ true) (its : fresh.quantity ≡ q) where
  stored : Option InventoryItem → List InventoryItem
  stored found = elim found [
    | none ↦ is ++ (fresh ∷ [])
    | some i ↦ update_where (owned_by user_id element_id) (with_quantity q) is
  ]

  stored_same :
      (found : Option InventoryItem)
      → find (owned_by user_id element_id) is ≡ found
      → quantity (find (owned_by user_id element_id) (stored found)) ≡ q
  unfolding stored
  stored_same none e = found_added (owned_by user_id element_id) is fresh (rw e) mine ∙ its
  stored_same (some i) e = found_changed (owned_by user_id element_id) q is (λ i. refl) (rw e)

  stored_other :
      (u e : ℕ) (found : Option InventoryItem)
      → (user_id == u && element_id == e) ≡ false
      → find (owned_by u e) (stored found) ≡ find (owned_by u e) is
  unfolding stored
  stored_other u e none other = not_added (owned_by u e) is fresh (ground (arith, other, mine))
  stored_other u e (some i) other =
      find-update_where_other (owned_by u e) (owned_by user_id element_id) (with_quantity q) is
        (λ i k. ground arith) (λ i. refl)

  stored_put :
      (u e : ℕ) (found : Option InventoryItem)
      → find (owned_by user_id element_id) is ≡ found
      → quantity (find (owned_by u e) (stored found))
        ≡ (if user_id == u && element_id == e then q else quantity (find (owned_by u e) is))
  stored_put u e found h = elim (Bool-cases (user_id == u && element_id == e)) [
    | inl same ↦
        let at_user : user_id ≡ u = ground arith in
        let at_element : element_id ≡ e = ground arith in
        rw (same, ← at_user, ← at_element) (stored_same found h)
    | inr other ↦ rw other (ap quantity (stored_other u e found other))
  ]

  none_counted :
      (p : InventoryItem → Bool) (xs : List InventoryItem)
      → is_some (find p xs) ≡ false
      → count_by p xs ≡ 0
  none_counted p [] h = refl
  none_counted p (x ∷ xs) h = ground (arith, none_counted p xs)

  stored_once :
      (u e : ℕ) (found : Option InventoryItem)
      → find (owned_by user_id element_id) is ≡ found
      → count_by (owned_by u e) is ≤ 1
      → count_by (owned_by u e) (stored found) ≤ 1
  unfolding stored
  stored_once u e (some i) h c =
      rw
        (count_by-update_where (owned_by u e) (owned_by user_id element_id) (with_quantity q) is
          (λ i. refl))
        c
  stored_once u e none h c = elim (Bool-cases (owned_by u e fresh)) [
    | inl own ↦
        let at_user : user_id ≡ u = ground (arith, mine) in
        let at_element : element_id ≡ e = ground (arith, mine) in
        let no_row : count_by (owned_by u e) is ≡ 0 =
          none_counted (owned_by u e) is (rw (← at_user, ← at_element) (ap is_some h)) in
        ground (arith, no_row, count_by-append (owned_by u e) is (fresh ∷ []))
    | inr other ↦ ground (arith, c, count_by-append (owned_by u e) is (fresh ∷ []))
  ]

-- The rows of a user are the shelf's, one for each element.
record Refines (s : Shelf) (t : Tables) : Type 0 where
  quantities : (u e : ℕ) → shelf_of t u e ≡ s u e
  unique : (u e : ℕ) → count_by (owned_by u e) t.items ≤ 1

set_inventory_quantity-elements :
    (u e q : ℕ) (t : Tables) → (set_inventory_quantity u e q t).1.elements ≡ t.elements
unfolding set_inventory_quantity
set_inventory_quantity-elements u e q t = elim (Bool-cases (known e t.elements)) [
  | inl there ↦ rw there
  | inr gone ↦ rw gone
]

set_inventory_quantity-Refines :
    (s : Shelf) (t : Tables) (c : Change)
    → Refines s t
    → Refines
        (if known c.element_id t.elements then put c.user_id c.element_id c.quantity s else s)
        (set_inventory_quantity c.user_id c.element_id c.quantity t).1
unfolding set_inventory_quantity stored
set_inventory_quantity-Refines s t c r =
    let fresh : InventoryItem = record {
      id = t.next_id;
      user_id = c.user_id;
      element_id = c.element_id;
      quantity = c.quantity;
    } in
    let found : Option InventoryItem = find (owned_by c.user_id c.element_id) t.items in
    elim (Bool-cases (known c.element_id t.elements)) [
      | inl there ↦ rw there (record {
        quantities = λ u e.
            stored_put c.user_id c.element_id c.quantity t.items fresh (ground arith) refl u e found
              refl
            ∙ ap (λ n. if c.user_id == u && c.element_id == e then c.quantity else n)
                (r.quantities u e);
        unique = λ u e.
            stored_once c.user_id c.element_id c.quantity t.items fresh (ground arith) refl u e
              found refl (r.unique u e);
      })
      | inr gone ↦ rw gone r
    ]

run-Refines :
    (s : Shelf) (t : Tables) (cs : List Change)
    → Refines s t
    → Refines (shelved t.elements cs s) (run cs t)
run-Refines s t [] r = r
run-Refines s t (c ∷ cs) r =
    let next : Tables = (set_inventory_quantity c.user_id c.element_id c.quantity t).1 in
    let s' : Shelf =
      if known c.element_id t.elements then put c.user_id c.element_id c.quantity s else s in
    subst (λ es. Refines (shelved es cs s') (run cs next))
      (set_inventory_quantity-elements c.user_id c.element_id c.quantity t)
      (run-Refines s' next cs (set_inventory_quantity-Refines s t c r))

-- What is shown of rows that are unique: those of quantity zero are left out.
shown_once :
    (u e : ℕ) (is : List InventoryItem)
    → count_by (owned_by u e) is ≤ 1
    → quantity (find (owned_by u e) (select (λ i. i.user_id == u && ltb 0 i.quantity) is))
      ≡ quantity (find (owned_by u e) is)
shown_once u e [] c = refl
shown_once u e (i ∷ is) c = elim (Bool-cases (owned_by u e i)) [
  | inl own ↦ let gone = select_none u e is (ground (arith, own, c)) in ground (arith, own, gone)
  | inr other ↦ ground (arith, other, shown_once u e is)
]
  where
    select_none :
        (u e : ℕ) (is : List InventoryItem)
        → count_by (owned_by u e) is ≡ 0
        → find (owned_by u e) (select (λ i. i.user_id == u && ltb 0 i.quantity) is) ≡ none
    select_none u e [] h = refl
    select_none u e (i ∷ is) h = ground (arith, select_none u e is)

-- After any requests to an empty inventory, what a user is shown is the shelf that the requests make:
-- of each element the last quantity that was set for it, and nothing of an element that is not in the
-- catalogue.
pub run-shown :
    (t : Tables) (cs : List Change) (u e : ℕ)
    → t.items ≡ []
    → shown (run cs t) u e ≡ shelved t.elements cs (λ u e. 0) u e
unfolding list_inventory
run-shown t cs u e empty =
    let r =
      run-Refines (λ u e. 0) t cs
        (record { quantities = λ u e. rw empty; unique = λ u e. rw empty (omega arith) }) in
    shown_once u e (run cs t).items (r.unique u e) ∙ r.quantities u e
