-- ===== src/Portfolios/Hourly.antt =====
-- The handlers keep it that a user has at most one valuation of an hour.
use flipradar.Portfolios.SameItems.{chosen_portfolio-rows}
use flipradar.Portfolios.Service.{
  update_user_portfolio_item, deleted_into, add_item_to_portfolio, changed_item,
  delete_user_portfolio_item, delete_user_portfolio, unknown_portfolio, visible_item, named,
  sent_set, sent_portfolio,
}
use flipradar.Portfolios.Stores.{
  get_set_by_number, reassign_portfolio_items, get_portfolio_by_id_for_user, delete_portfolio,
}
use flipradar.Portfolios.Outcomes.{ok}
use flipradar.Portfolios.Holdings.{
  create_portfolio_item, chosen_portfolio, PortfolioItemCreate, get_all_portfolio_items_for_user,
  delete_portfolio_item, PortfolioItemUpdate, update_portfolio_item, with_item_update,
}
use flipradar.Portfolios.Rows.{Tables, Portfolio, PortfolioItem}
use flipradar.Portfolios.Importing.{create_rows}
use flipradar.Portfolios.Valued.{
  Market, create_user_valuation_snapshot, in_window, create_portfolio_valuation_snapshot,
  snapshot_of, window_of,
}
use flipradar.Base.{
  ℕ, count_by, ◌≡◌, ◌≤◌, List, Bool-cases, is_some, sym, find, ◌∷◌, Option-cases, inl, inr, arith,
  some, [], refl, one_row, is_some-find-append, none, no_row, Option, count_by-added, ◌==◌,
}

abbrev pub IsHourly : Tables → Type 0
IsHourly t = (user_id window_start : ℕ) → count_by (in_window user_id window_start) t.snapshots ≤ 1

-- The valuations of two states, so that one is as good as the other.
pub rows-IsHourly : (t t' : Tables) → t'.snapshots ≡ t.snapshots → IsHourly t → IsHourly t'
rows-IsHourly t t' e h u w = rw e (h u w)

pub create_rows-snapshots :
    (user_id now id : ℕ) (is : List PortfolioItemCreate) (t t' : Tables)
    → create_rows user_id now id is t ≡ ok t'
    → t'.snapshots ≡ t.snapshots
unfolding create_rows create_portfolio_item chosen_portfolio
create_rows-snapshots user_id now id [] t t' h = let it : t ≡ t' = cc in rw (sym it) refl
create_rows-snapshots user_id now id (i ∷ is) t t' h =
    elim (Option-cases (get_set_by_number i.set_number t)) [
      | inl e ↦ ground (arith, rw (e, create_rows) at h)
      | inr (s, e) ↦
          create_rows-snapshots user_id now id is
            (create_portfolio_item user_id s.id now (record i { portfolio_id = some id }) t).1 t'
            (rw (e, create_rows) at h)
    ]

module _ (m : Market) where
  pub valued-IsHourly :
      (user_id now : ℕ) (t : Tables)
      → IsHourly t
      → IsHourly (create_user_valuation_snapshot m user_id now t)
  unfolding create_user_valuation_snapshot create_portfolio_valuation_snapshot snapshot_of
  valued-IsHourly user_id now t h u w =
      let s =
        snapshot_of m t.next_id user_id now (get_all_portfolio_items_for_user user_id none t) in
      elim (Bool-cases (is_some (find (in_window user_id (window_of now)) t.snapshots))) [
        | inl e ↦ rw e (h u w)
        | inr e ↦
            rw e
              (elim (Bool-cases
                (in_window user_id (window_of now) (record s { user_id = u; window_start = w }))) [
                  | inl k ↦
                      let user : user_id ≡ u = ground (arith, k) in
                      let hour : window_of now ≡ w = ground (arith, k) in
                      let none_yet : count_by (in_window u w) t.snapshots ≡ 0 =
                        no_row (in_window u w) t.snapshots (rw (user, hour) at e) in
                      count_by-added (in_window u w) t.snapshots s 0 1 (omega (arith, none_yet))
                        (omega arith) (λ b. omega arith)
                  | inr k ↦
                      count_by-added (in_window u w) t.snapshots s 1 1 (h u w) (omega arith)
                        (λ b. ground (arith, k, b))
                ])
      ]

  pub valued_row :
      (user_id now : ℕ) (t : Tables)
      → 1
        ≤ count_by
            (in_window user_id (window_of now))
            (create_user_valuation_snapshot m user_id now t).snapshots
  unfolding create_user_valuation_snapshot create_portfolio_valuation_snapshot snapshot_of
  valued_row user_id now t =
      elim (Bool-cases (is_some (find (in_window user_id (window_of now)) t.snapshots))) [
        | inl e ↦ rw e (one_row (in_window user_id (window_of now)) t.snapshots e)
        | inr e ↦ rw e (
            one_row (in_window user_id (window_of now)) _ (
              is_some-find-append (in_window user_id (window_of now)) t.snapshots
                (snapshot_of m t.next_id user_id now
                  (get_all_portfolio_items_for_user user_id none t))
                (ground arith)))
      ]

  deleted_into-IsHourly :
      (user_id now : ℕ) (p target : Portfolio) (t : Tables)
      → IsHourly t
      → IsHourly (deleted_into m user_id now p target t).1
  unfolding deleted_into reassign_portfolio_items delete_portfolio
  deleted_into-IsHourly user_id now p target t h = elim (Bool-cases (is_some target.archived_at)) [
    | inl a ↦ rw a h
    | inr a ↦ elim (Bool-cases (p.id == target.id)) [
      | inl b ↦ rw (a, b) h
      | inr b ↦ elim (Bool-cases p.is_default) [
        | inl c ↦ rw (a, b, c) h
        | inr c ↦
            rw (a, b, c)
              (valued-IsHourly user_id now
                (delete_portfolio p.id (reassign_portfolio_items user_id p.id target.id t).1) h)
      ]
    ]
  ]

  changed_item-IsHourly :
      (user_id now : ℕ) (u : PortfolioItemUpdate) (s : Option ℕ) (i : PortfolioItem) (t : Tables)
      → IsHourly t
      → IsHourly (changed_item m user_id now u s i t).1
  unfolding changed_item update_portfolio_item
  changed_item-IsHourly user_id now u s i t h =
      elim (Bool-cases (unknown_portfolio user_id u.portfolio_id t)) [
        | inl e ↦ rw e h
        | inr e ↦ rw e (
            valued-IsHourly user_id now
              (update_portfolio_item i.id user_id
                (with_item_update (sent_portfolio u.portfolio_id) s u) t)
              h)
      ]

  pub delete_user_portfolio-IsHourly :
      (user_id now id target : ℕ) (t : Tables)
      → IsHourly t
      → IsHourly (delete_user_portfolio m user_id now id target t).1
  unfolding delete_user_portfolio
  delete_user_portfolio-IsHourly user_id now id target t h =
      elim (Option-cases (get_portfolio_by_id_for_user id user_id t)) [
        | inl e ↦ rw (e, delete_user_portfolio) h
        | inr (p, e) ↦ elim (Option-cases (get_portfolio_by_id_for_user target user_id t)) [
          | inl k ↦ rw (e, k, delete_user_portfolio) h
          | inr (q, k) ↦
              rw (e, k, delete_user_portfolio) (deleted_into-IsHourly user_id now p q t h)
        ]
      ]

  pub add_item_to_portfolio-IsHourly :
      (user_id now : ℕ) (c : PortfolioItemCreate) (t : Tables)
      → IsHourly t
      → IsHourly (add_item_to_portfolio m user_id now c t).1
  unfolding add_item_to_portfolio create_portfolio_item
  add_item_to_portfolio-IsHourly user_id now c t h =
      elim (Option-cases (get_set_by_number c.set_number t)) [
        | inl e ↦ rw (e, add_item_to_portfolio) h
        | inr (s, e) ↦ elim (Bool-cases (unknown_portfolio user_id (named c.portfolio_id) t)) [
          | inl k ↦ rw (e, k, add_item_to_portfolio) h
          | inr k ↦
              rw (e, k, add_item_to_portfolio)
                (valued-IsHourly user_id now (create_portfolio_item user_id s.id now c t).1 (
                  rows-IsHourly t (create_portfolio_item user_id s.id now c t).1
                    (chosen_portfolio-rows user_id now c.portfolio_id t).1 h))
        ]
      ]

  pub update_user_portfolio_item-IsHourly :
      (user_id now id : ℕ) (u : PortfolioItemUpdate) (t : Tables)
      → IsHourly t
      → IsHourly (update_user_portfolio_item m user_id now id u t).1
  unfolding update_user_portfolio_item
  update_user_portfolio_item-IsHourly user_id now id u t h =
      elim (Option-cases (visible_item id user_id t)) [
        | inl e ↦ rw (e, update_user_portfolio_item) h
        | inr (i, e) ↦ elim (Option-cases (sent_set u.set_number t)) [
          | inl k ↦ rw (e, k, update_user_portfolio_item) h
          | inr (s, k) ↦
              rw (e, k, update_user_portfolio_item) (changed_item-IsHourly user_id now u s i t h)
        ]
      ]

  pub delete_user_portfolio_item-IsHourly :
      (user_id now id : ℕ) (t : Tables)
      → IsHourly t
      → IsHourly (delete_user_portfolio_item m user_id now id t).1
  unfolding delete_user_portfolio_item delete_portfolio_item
  delete_user_portfolio_item-IsHourly user_id now id t h =
      elim (Option-cases (visible_item id user_id t)) [
        | inl e ↦ rw (e, delete_user_portfolio_item) h
        | inr (i, e) ↦
            rw (e, delete_user_portfolio_item)
              (valued-IsHourly user_id now (delete_portfolio_item id user_id t) h)
      ]
