-- ===== src/Portfolios/Moves.antt =====
-- What the requests on items and the deletion of a portfolio do to the portfolios, and any request.
use flipradar.Portfolios.Imports.{Formats}
use flipradar.Portfolios.Fresh.{import_portfolio_csv-Adds}
use flipradar.Portfolios.Imports.{Formats}
use flipradar.Portfolios.Changes.{
  Changed, Changed-respects, same, get_default_portfolio_for_user-Changed,
  create_user_portfolio-Changed, valued-Changed, update_user_portfolio-Changed,
  archive_user_portfolio-Changed, Removed, create_user_valuation_snapshot_same,
}
use flipradar.Portfolios.Stores.{
  reassign_portfolio_items, delete_portfolio, get_set_by_number, get_portfolio_by_id_for_user,
}
use flipradar.Portfolios.Rows.{Tables, PortfolioItem, Portfolio}
use flipradar.Portfolios.Steps.{
  step, Request, list_all, create_one, update_one, archive_one, delete_one, add_one_item,
  update_one_item, delete_one_item, snapshot, import_one,
}
use flipradar.Portfolios.Holdings.{
  create_portfolio_item, chosen_portfolio, delete_portfolio_item, PortfolioItemUpdate,
  PortfolioItemCreate, update_portfolio_item, with_item_update,
}
use flipradar.Portfolios.Service.{
  deleted_into, add_item_to_portfolio, update_user_portfolio_item, delete_user_portfolio,
  delete_user_portfolio_item, changed_item, list_user_portfolios, visible_item, unknown_portfolio,
  sent_set, named, sent_portfolio,
}
use flipradar.Portfolios.Valued.{Market}
use flipradar.Base.{
  ℕ, Option, some, Option-cases, Bool-cases, arith, is_some, none, refl, inl, inr, ◌==◌, ◌⊎◌,
}

pub chosen_portfolio-Changed :
    (user_id now : ℕ) (portfolio_id : Option ℕ) (t : Tables)
    → Changed t (chosen_portfolio user_id now portfolio_id t).1
unfolding chosen_portfolio
chosen_portfolio-Changed user_id now (some id) t = same refl (omega arith)
chosen_portfolio-Changed user_id now none t = get_default_portfolio_for_user-Changed user_id now t

module _ (m : Market) where
  deleted_into-Removed :
      (user_id now : ℕ) (p target : Portfolio) (t : Tables)
      → Changed t (deleted_into m user_id now p target t).1
        ⊎ Removed t (deleted_into m user_id now p target t).1
  unfolding deleted_into reassign_portfolio_items delete_portfolio
  deleted_into-Removed user_id now p target t = elim (Bool-cases (is_some target.archived_at)) [
    | inl a ↦ rw a (inl (same refl (omega arith)))
    | inr a ↦ elim (Bool-cases (p.id == target.id)) [
      | inl b ↦ rw (a, b) (inl (same refl (omega arith)))
      | inr b ↦ elim (Bool-cases p.is_default) [
        | inl c ↦ rw (a, b, c) (inl (same refl (omega arith)))
        | inr c ↦
            let valued =
              create_user_valuation_snapshot_same m user_id now
                (delete_portfolio p.id (reassign_portfolio_items user_id p.id target.id t).1) in
            rw (a, b, c) (inr (p.id, valued.0, valued.2))
      ]
    ]
  ]

  delete_user_portfolio-Removed :
      (user_id now id target : ℕ) (t : Tables)
      → Changed t (delete_user_portfolio m user_id now id target t).1
        ⊎ Removed t (delete_user_portfolio m user_id now id target t).1
  unfolding delete_user_portfolio
  delete_user_portfolio-Removed user_id now id target t =
      elim (Option-cases (get_portfolio_by_id_for_user id user_id t)) [
        | inl e ↦ rw (e, delete_user_portfolio) (inl (same refl (omega arith)))
        | inr (p, e) ↦ elim (Option-cases (get_portfolio_by_id_for_user target user_id t)) [
          | inl k ↦ rw (e, k, delete_user_portfolio) (inl (same refl (omega arith)))
          | inr (q, k) ↦ rw (e, k, delete_user_portfolio) (deleted_into-Removed user_id now p q t)
        ]
      ]

  create_portfolio_item-Changed :
      (user_id s now : ℕ) (c : PortfolioItemCreate) (t : Tables)
      → Changed t (create_portfolio_item user_id s now c t).1
  unfolding create_portfolio_item
  create_portfolio_item-Changed user_id s now c t =
      Changed-respects t (chosen_portfolio user_id now c.portfolio_id t).1
        (create_portfolio_item user_id s now c t).1 refl (omega arith)
        (chosen_portfolio-Changed user_id now c.portfolio_id t)

  add_item_to_portfolio-Changed :
      (user_id now : ℕ) (c : PortfolioItemCreate) (t : Tables)
      → Changed t (add_item_to_portfolio m user_id now c t).1
  unfolding add_item_to_portfolio
  add_item_to_portfolio-Changed user_id now c t =
      elim (Option-cases (get_set_by_number c.set_number t)) [
        | inl e ↦ rw (e, add_item_to_portfolio) (same refl (omega arith))
        | inr (s, e) ↦ elim (Bool-cases (unknown_portfolio user_id (named c.portfolio_id) t)) [
          | inl k ↦ rw (e, k, add_item_to_portfolio) (same refl (omega arith))
          | inr k ↦
              rw (e, k, add_item_to_portfolio)
                (valued-Changed m user_id now t _
                  (create_portfolio_item-Changed user_id s.id now c t))
        ]
      ]

  changed_item-Changed :
      (user_id now : ℕ) (u : PortfolioItemUpdate) (s : Option ℕ) (i : PortfolioItem) (t : Tables)
      → Changed t (changed_item m user_id now u s i t).1
  unfolding changed_item update_portfolio_item
  changed_item-Changed user_id now u s i t =
      elim (Bool-cases (unknown_portfolio user_id u.portfolio_id t)) [
        | inl e ↦ rw e (same refl (omega arith))
        | inr e ↦ rw e (
            valued-Changed m user_id now t
              (update_portfolio_item i.id user_id
                (with_item_update (sent_portfolio u.portfolio_id) s u) t)
              (same refl (omega arith)))
      ]

  update_user_portfolio_item-Changed :
      (user_id now id : ℕ) (u : PortfolioItemUpdate) (t : Tables)
      → Changed t (update_user_portfolio_item m user_id now id u t).1
  unfolding update_user_portfolio_item
  update_user_portfolio_item-Changed user_id now id u t =
      elim (Option-cases (visible_item id user_id t)) [
        | inl e ↦ rw (e, update_user_portfolio_item) (same refl (omega arith))
        | inr (i, e) ↦ elim (Option-cases (sent_set u.set_number t)) [
          | inl k ↦ rw (e, k, update_user_portfolio_item) (same refl (omega arith))
          | inr (s, k) ↦
              rw (e, k, update_user_portfolio_item) (changed_item-Changed user_id now u s i t)
        ]
      ]

  delete_user_portfolio_item-Changed :
      (user_id now id : ℕ) (t : Tables)
      → Changed t (delete_user_portfolio_item m user_id now id t).1
  unfolding delete_user_portfolio_item delete_portfolio_item
  delete_user_portfolio_item-Changed user_id now id t =
      elim (Option-cases (visible_item id user_id t)) [
        | inl e ↦ rw (e, delete_user_portfolio_item) (same refl (omega arith))
        | inr (i, e) ↦
            rw (e, delete_user_portfolio_item)
              (valued-Changed m user_id now t (delete_portfolio_item id user_id t)
                (same refl (omega arith)))
      ]

module _ (m : Market) (f : Formats) where
  pub step-Removed :
      (user_id now : ℕ) (r : Request) (t : Tables)
      → Changed t (step m f user_id now r t) ⊎ Removed t (step m f user_id now r t)
  unfolding step list_user_portfolios
  step-Removed user_id now (list_all a) t =
      inl (get_default_portfolio_for_user-Changed user_id now t)
  step-Removed user_id now (create_one c) t = inl (create_user_portfolio-Changed user_id now c t)
  step-Removed user_id now (update_one id u) t = inl (update_user_portfolio-Changed user_id id u t)
  step-Removed user_id now (archive_one id a) t =
      inl (archive_user_portfolio-Changed user_id now id a t)
  step-Removed user_id now (delete_one id target) t =
      delete_user_portfolio-Removed m user_id now id target t
  step-Removed user_id now (add_one_item c) t =
      inl (add_item_to_portfolio-Changed m user_id now c t)
  step-Removed user_id now (update_one_item id u) t =
      inl (update_user_portfolio_item-Changed m user_id now id u t)
  step-Removed user_id now (delete_one_item id) t =
      inl (delete_user_portfolio_item-Changed m user_id now id t)
  step-Removed user_id now (import_one handling content) t =
      inl (import_portfolio_csv-Adds m f user_id now handling content t).0
  step-Removed user_id now snapshot t =
      inl (valued-Changed m user_id now t t (same refl (omega arith)))
