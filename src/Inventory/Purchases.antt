-- ===== src/Inventory/Purchases.antt =====
-- What ordering the missing parts does to the purchase list.
use flipradar.Inventory.Parts.{ok_of}
use flipradar.Inventory.Stock.{Answer, not_found, ok}
use flipradar.Inventory.Rows.{ReplacementPurchaseItem, Tables, SetPartRequirement, LegoSet}
use flipradar.Inventory.Checklist.{
  Line, taken, bought_by, Checklist, checklist, set_by_number, checklist_line, totals, lines_of,
  checklist_of,
}
use flipradar.Inventory.Orders.{
  order_lines, add_missing_parts_to_purchase_list, order_line, reorder, ordered, new_order,
}
use flipradar.Base.{
  ℕ, List, ◌∷◌, Text, Bool, find, ◌==◌, ◌≡◌, All, ◌||◌, some, is_marked, ◌&&◌, false, true,
  update_where, [], Option, none, ◌++◌, Bool-cases, inl, arith, find-append,
  is_marked-find-append_new, is_marked-find-update, inr, is_marked-find-append, refl,
  find-update_where_other, select,
}

abbrev IsPlaced : ℕ → ReplacementPurchaseItem → List ReplacementPurchaseItem → Type 0
IsPlaced id i is = find (λ j. j.id == id) is ≡ some i

update_where-IsPlaced :
    (id : ℕ) (l : Line) (q : ReplacementPurchaseItem → Bool) (i : ReplacementPurchaseItem)
    (is : List ReplacementPurchaseItem)
    → i.purchased ≡ true
    → IsPlaced id i is
    → IsPlaced id i (update_where q (reorder l) is)
update_where-IsPlaced id l q i [] p h = cc
update_where-IsPlaced id l q i (j ∷ is) p h = elim (Bool-cases (j.id == id)) [
  | inl e ↦
      let same : some j ≡ some i = rw e at h in let it : j ≡ i = cc in rw it (ground (arith, p, e))
  | inr e ↦ ground (arith, e, h, update_where-IsPlaced id l q i is p)
]

order_line-IsPlaced :
    (user_id id : ℕ) (l : Line) (i : ReplacementPurchaseItem) (t : Tables)
    → i.purchased ≡ true
    → IsPlaced id i t.purchases
    → IsPlaced id i (order_line user_id l t).purchases
unfolding order_line
order_line-IsPlaced user_id id l i t p h = elim (Bool-cases (l.missing_quantity == 0)) [
  | inl e ↦ rw e h
  | inr e ↦ rw e (stored (find (bought_by user_id l.requirement_id) t.purchases))
]
  where
    stored :
        (found : Option ReplacementPurchaseItem)
        → IsPlaced id i (elim found [
          | none ↦ t.purchases ++ (new_order t.next_id user_id l ∷ [])
          | some j ↦ update_where (bought_by user_id l.requirement_id) (reorder l) t.purchases
        ])
    stored none = find-append (λ j. j.id == id) t.purchases _ i h
    stored (some j) =
        update_where-IsPlaced id l (bought_by user_id l.requirement_id) i t.purchases p h

order_lines-IsPlaced :
    (user_id id : ℕ) (ls : List Line) (i : ReplacementPurchaseItem) (t : Tables)
    → i.purchased ≡ true
    → IsPlaced id i t.purchases
    → IsPlaced id i (order_lines user_id ls t).purchases
unfolding order_lines
order_lines-IsPlaced user_id id [] i t p h = h
order_lines-IsPlaced user_id id (l ∷ ls) i t p h =
    order_lines-IsPlaced user_id id ls i (order_line user_id l t) p
      (order_line-IsPlaced user_id id l i t p h)

-- Ordering the missing parts leaves every order that was placed as it is, whatever it finds.
pub add_missing_parts_to_purchase_list-purchased :
    (user_id id : ℕ) (set_number : Text) (i : ReplacementPurchaseItem) (t : Tables)
    → i.purchased ≡ true
    → find (λ j. j.id == id) t.purchases ≡ some i
    → find (λ j. j.id == id) (add_missing_parts_to_purchase_list user_id set_number t).1.purchases
      ≡ some i
unfolding add_missing_parts_to_purchase_list
add_missing_parts_to_purchase_list-purchased user_id id set_number i t p h =
    after (checklist user_id set_number t)
  where
    after : (a : Answer Checklist) → IsPlaced id i (ordered user_id set_number a t).1.purchases
    after (not_found m) = h
    after (ok c) = order_lines-IsPlaced user_id id c.lines i t p h

-- What a line asks for: an order that is placed, or one of what is missing.
abbrev pub covers : Line → ReplacementPurchaseItem → Bool
covers l i = i.purchased || i.quantity == l.missing_quantity && i.element_id == (taken l).id

-- The order of a line that misses something.
abbrev pub is_covered : ℕ → List ReplacementPurchaseItem → Line → Bool
is_covered user_id is l =
    l.missing_quantity == 0 || is_marked (covers l) (find (bought_by user_id l.requirement_id) is)

order_line_covered :
    (user_id : ℕ) (l : Line) (t : Tables)
    → is_covered user_id (order_line user_id l t).purchases l ≡ true
unfolding order_line
order_line_covered user_id l t = elim (Bool-cases (l.missing_quantity == 0)) [
  | inl e ↦ rw e
  | inr e ↦ rw e (stored (find (bought_by user_id l.requirement_id) t.purchases) refl)
]
  where
    stored :
        (found : Option ReplacementPurchaseItem)
        → find (bought_by user_id l.requirement_id) t.purchases ≡ found
        → is_marked (covers l) (
            find (bought_by user_id l.requirement_id) (elim found [
              | none ↦ t.purchases ++ (new_order t.next_id user_id l ∷ [])
              | some j ↦ update_where (bought_by user_id l.requirement_id) (reorder l) t.purchases
            ]))
          ≡ true
    stored none h =
        is_marked-find-append_new (covers l) (bought_by user_id l.requirement_id) t.purchases
          (new_order t.next_id user_id l) (rw h) (ground arith) (ground arith)
    stored (some j) h =
        is_marked-find-update (covers l) (bought_by user_id l.requirement_id) (reorder l)
          t.purchases (λ i. ground arith) (λ i. ground arith) (rw h)

-- A line of another requirement changes nothing of it.
order_line_other :
    (user_id : ℕ) (l m : Line) (t : Tables)
    → (l.requirement_id == m.requirement_id) ≡ false
    → is_covered user_id t.purchases l ≡ true
    → is_covered user_id (order_line user_id m t).purchases l ≡ true
unfolding order_line
order_line_other user_id l m t o h = elim (Bool-cases (m.missing_quantity == 0)) [
  | inl e ↦ rw e h
  | inr e ↦ rw e (stored (find (bought_by user_id m.requirement_id) t.purchases))
]
  where
    stored :
        (found : Option ReplacementPurchaseItem)
        → is_covered user_id
            (elim found [
              | none ↦ t.purchases ++ (new_order t.next_id user_id m ∷ [])
              | some j ↦ update_where (bought_by user_id m.requirement_id) (reorder m) t.purchases
            ])
            l
          ≡ true
    stored none = ground (
      arith,
      h,
      is_marked-find-append (covers l) (bought_by user_id l.requirement_id) t.purchases
          (new_order t.next_id user_id m ∷ []),
    )
    stored (some j) =
        rw
          (find-update_where_other (bought_by user_id l.requirement_id)
            (bought_by user_id m.requirement_id) (reorder m) t.purchases (λ i k. ground arith)
            (λ i. ground arith))
          h

order_lines_other :
    (user_id : ℕ) (l : Line) (ms : List Line) (t : Tables)
    → All (λ m. (l.requirement_id == m.requirement_id) ≡ false) ms
    → is_covered user_id t.purchases l ≡ true
    → is_covered user_id (order_lines user_id ms t).purchases l ≡ true
unfolding order_lines
order_lines_other user_id l [] t o h = h
order_lines_other user_id l (m ∷ ms) t o h =
    order_lines_other user_id l ms (order_line user_id m t) o.1
      (order_line_other user_id l m t o.0 h)

-- Lines of different requirements.
abbrev pub Distinct : List Line → Type 0
Distinct [] = Unit
Distinct (l ∷ ls) = All (λ m. (l.requirement_id == m.requirement_id) ≡ false) ls × Distinct ls

order_lines_covered :
    (user_id : ℕ) (ls : List Line) (t : Tables)
    → Distinct ls
    → All (λ l. is_covered user_id (order_lines user_id ls t).purchases l ≡ true) ls
unfolding order_lines
order_lines_covered user_id [] t d = tt
order_lines_covered user_id (l ∷ ls) t d = (
  order_lines_other user_id l ls (order_line user_id l t) d.0 (order_line_covered user_id l t),
  order_lines_covered user_id ls (order_line user_id l t) d.1,
)

-- The identifier is the primary key of the requirements.
abbrev pub IsKeyed : List SetPartRequirement → Type 0
IsKeyed [] = Unit
IsKeyed (r ∷ rs) = All (λ s. (r.id == s.id) ≡ false) rs × IsKeyed rs

All-lines_of :
    (t : Tables) (user_id id : ℕ) (q : SetPartRequirement → Bool) (rs : List SetPartRequirement)
    → All (λ s. (id == s.id) ≡ false) rs
    → All (λ m. (id == m.requirement_id) ≡ false) (lines_of t user_id (select q rs))
unfolding checklist_line
All-lines_of t user_id id q [] h = tt
All-lines_of t user_id id q (r ∷ rs) h = elim (Bool-cases (q r)) [
  | inl e ↦ rw e (h.0, All-lines_of t user_id id q rs h.1)
  | inr e ↦ rw e (All-lines_of t user_id id q rs h.1)
]

lines_of-Distinct :
    (t : Tables) (user_id : ℕ) (q : SetPartRequirement → Bool) (rs : List SetPartRequirement)
    → IsKeyed rs
    → Distinct (lines_of t user_id (select q rs))
unfolding checklist_line
lines_of-Distinct t user_id q [] h = tt
lines_of-Distinct t user_id q (r ∷ rs) h = elim (Bool-cases (q r)) [
  | inl e ↦ rw e (All-lines_of t user_id r.id q rs h.0, lines_of-Distinct t user_id q rs h.1)
  | inr e ↦ rw e (lines_of-Distinct t user_id q rs h.1)
]

checklist_of-Distinct :
    (user_id : ℕ) (s : Option LegoSet) (t : Tables) (c : Checklist)
    → IsKeyed t.requirements
    → checklist_of user_id s t ≡ ok c
    → Distinct c.lines
unfolding totals
checklist_of-Distinct user_id none t c k e = cc
checklist_of-Distinct user_id (some s) t c k e =
    ok_of (λ c. Distinct c.lines) _ c
      (lines_of-Distinct t user_id (λ r. r.lego_set_id == s.id) t.requirements k) e

-- After the missing parts of a set were ordered, each line of its checklist that misses something has
-- an order: one that was placed before, or one of the element that is wanted and of as many as are
-- missing.
pub add_missing_parts_to_purchase_list-covered :
    (user_id : ℕ) (set_number : Text) (t : Tables) (c : Checklist)
    → IsKeyed t.requirements
    → checklist user_id set_number t ≡ ok c
    → All
        (λ l.
          is_covered user_id (add_missing_parts_to_purchase_list user_id set_number t).1.purchases l
          ≡ true)
        c.lines
unfolding add_missing_parts_to_purchase_list
add_missing_parts_to_purchase_list-covered user_id set_number t c k e = rw e (
    order_lines_covered user_id c.lines t
      (unfold checklist in checklist_of-Distinct user_id (set_by_number set_number t) t c k e))
