-- ===== src/Portfolios/Owners.antt =====
-- That every item stands in a portfolio of its own user, through any requests.
use flipradar.Portfolios.SameItems.{
  same_items, get_default_portfolio_for_user-rows, chosen_portfolio-rows,
  create_user_portfolio-rows, update_user_portfolio-rows, archive_user_portfolio-rows,
}
use flipradar.Portfolios.Fresh.{import_portfolio_csv-Adds}
use flipradar.Portfolios.Imports.{Formats}
use flipradar.Portfolios.Moves.{chosen_portfolio-Changed}
use flipradar.Portfolios.Limits.{IsLimited, step_keeps}
use flipradar.Portfolios.Changes.{
  create_user_valuation_snapshot_same, get_default_portfolio_for_user-Changed,
  create_user_portfolio-Changed, update_user_portfolio-Changed, archive_user_portfolio-Changed,
  IsIdentified,
}
use flipradar.Portfolios.Steps.{
  step, run, Call, Request, list_all, create_one, start, update_one, archive_one, delete_one,
  add_one_item, update_one_item, delete_one_item, snapshot, import_one,
}
use flipradar.Portfolios.Held.{
  IsHeld, Exists, Held, removed-Held, chosen_portfolio-Exists, with_item_update-Held,
}
use flipradar.Portfolios.Holdings.{
  chosen_portfolio, create_portfolio_item, update_portfolio_item, delete_portfolio_item,
  PortfolioItemUpdate, PortfolioItemCreate, with_item_update, mine,
}
use flipradar.Portfolios.Valued.{Market, create_user_valuation_snapshot}
use flipradar.Portfolios.Service.{
  archive_user_portfolio, create_user_portfolio, update_user_portfolio, delete_user_portfolio_item,
  changed_item, deleted_into, add_item_to_portfolio, delete_user_portfolio,
  update_user_portfolio_item, list_user_portfolios, visible_item, unknown_portfolio, named,
  sent_portfolio, sent_set,
}
use flipradar.Portfolios.Stores.{
  get_default_portfolio_for_user, reassign_portfolio_items, get_set_by_number, delete_portfolio,
  get_portfolio_by_id_for_user, owned,
}
use flipradar.Portfolios.Rows.{Tables, PortfolioItem, LegoSet, Portfolio}
use flipradar.Base.{
  ℕ, ◌≡◌, Option, List, Option-cases, some, find, Bool-cases, inl, refl, All, ◌∷◌, false, inr,
  is_some, find-meets, ◌==◌, [], All-append, All-select, All-update_where, is_some-find-implied,
  not, arith, true,
}

module _ (m : Market) where
  valued-IsHeld :
      (user_id now : ℕ) (t : Tables)
      → IsHeld t
      → IsHeld (create_user_valuation_snapshot m user_id now t)
  valued-IsHeld user_id now t h =
      let same = create_user_valuation_snapshot_same m user_id now t in rw (same.0, same.1) h

  deleted_into-IsHeld :
      (user_id now : ℕ) (p target : Portfolio) (t : Tables)
      → IsIdentified t
      → Exists user_id p.id t.portfolios
      → Exists user_id target.id t.portfolios
      → IsHeld t
      → IsHeld (deleted_into m user_id now p target t).1
  unfolding deleted_into reassign_portfolio_items delete_portfolio
  deleted_into-IsHeld user_id now p target t one here there h =
      elim (Bool-cases (is_some target.archived_at)) [
        | inl a ↦ rw a h
        | inr a ↦ elim (Bool-cases (p.id == target.id)) [
          | inl b ↦ rw (a, b) h
          | inr b ↦ elim (Bool-cases p.is_default) [
            | inl c ↦ rw (a, b, c) h
            | inr c ↦
                rw (a, b, c)
                  (valued-IsHeld user_id now
                    (delete_portfolio p.id (reassign_portfolio_items user_id p.id target.id t).1)
                    (removed-Held user_id p.id target.id t one here there b h))
          ]
        ]
      ]

  delete_user_portfolio-IsHeld :
      (user_id now id target : ℕ) (t : Tables)
      → IsIdentified t
      → IsHeld t
      → IsHeld (delete_user_portfolio m user_id now id target t).1
  unfolding delete_user_portfolio
  delete_user_portfolio-IsHeld user_id now id target t one h =
      elim (Option-cases (get_portfolio_by_id_for_user id user_id t)) [
        | inl e ↦ rw (e, delete_user_portfolio) h
        | inr (p, e) ↦ elim (Option-cases (get_portfolio_by_id_for_user target user_id t)) [
          | inl k ↦ rw (e, k, delete_user_portfolio) h
          | inr (q, k) ↦
              rw (e, k, delete_user_portfolio)
                (deleted_into-IsHeld user_id now p q t one (found-Exists id p e)
                  (found-Exists target q k) h)
        ]
      ]
    where
      found-Exists :
          (id : ℕ) (p : Portfolio)
          → get_portfolio_by_id_for_user id user_id t ≡ some p
          → Exists user_id p.id t.portfolios
      found-Exists id p e =
          let meets = find-meets (owned user_id id) t.portfolios p e in
          is_some-find-implied (owned user_id id) (owned user_id p.id) t.portfolios p e
            (ground (arith, meets))

  create_portfolio_item-IsHeld :
      (user_id s now : ℕ) (c : PortfolioItemCreate) (t : Tables)
      → unknown_portfolio user_id (named c.portfolio_id) t ≡ false
      → IsHeld t
      → IsHeld (create_portfolio_item user_id s now c t).1
  unfolding create_portfolio_item
  create_portfolio_item-IsHeld user_id s now c t known h =
      let t' = (chosen_portfolio user_id now c.portfolio_id t).1 in
      All-append (Held t'.portfolios) t'.items (_ ∷ [])
        (same_items t t' (chosen_portfolio-Changed user_id now c.portfolio_id t)
          (chosen_portfolio-rows user_id now c.portfolio_id t).0 h)
        (chosen_portfolio-Exists user_id now c.portfolio_id t known, tt)

  add_item_to_portfolio-IsHeld :
      (user_id now : ℕ) (c : PortfolioItemCreate) (t : Tables)
      → IsHeld t
      → IsHeld (add_item_to_portfolio m user_id now c t).1
  unfolding add_item_to_portfolio
  add_item_to_portfolio-IsHeld user_id now c t h =
      elim (Option-cases (get_set_by_number c.set_number t)) [
        | inl e ↦ rw (e, add_item_to_portfolio) h
        | inr (s, e) ↦ elim (Bool-cases (unknown_portfolio user_id (named c.portfolio_id) t)) [
          | inl k ↦ rw (e, k, add_item_to_portfolio) h
          | inr k ↦
              rw (e, k, add_item_to_portfolio)
                (valued-IsHeld user_id now (create_portfolio_item user_id s.id now c t).1
                  (create_portfolio_item-IsHeld user_id s.id now c t k h))
        ]
      ]

  changed_item-IsHeld :
      (user_id now : ℕ) (u : PortfolioItemUpdate) (s : Option ℕ) (i : PortfolioItem) (t : Tables)
      → IsHeld t
      → IsHeld (changed_item m user_id now u s i t).1
  unfolding changed_item update_portfolio_item
  changed_item-IsHeld user_id now u s i t h =
      let change = with_item_update (sent_portfolio u.portfolio_id) s u in
      elim (Bool-cases (unknown_portfolio user_id u.portfolio_id t)) [
        | inl e ↦ rw e h
        | inr e ↦ rw e (
            valued-IsHeld user_id now (update_portfolio_item i.id user_id change t) (
              All-update_where (Held t.portfolios) (Held t.portfolios) (mine i.id user_id) change
                t.items (with_item_update-Held user_id i.id u s t e) (λ j n k. k) h))
      ]

  update_user_portfolio_item-IsHeld :
      (user_id now id : ℕ) (u : PortfolioItemUpdate) (t : Tables)
      → IsHeld t
      → IsHeld (update_user_portfolio_item m user_id now id u t).1
  unfolding update_user_portfolio_item
  update_user_portfolio_item-IsHeld user_id now id u t h =
      elim (Option-cases (visible_item id user_id t)) [
        | inl e ↦ rw (e, update_user_portfolio_item) h
        | inr (i, e) ↦ elim (Option-cases (sent_set u.set_number t)) [
          | inl k ↦ rw (e, k, update_user_portfolio_item) h
          | inr (s, k) ↦
              rw (e, k, update_user_portfolio_item) (changed_item-IsHeld user_id now u s i t h)
        ]
      ]

  delete_user_portfolio_item-IsHeld :
      (user_id now id : ℕ) (t : Tables)
      → IsHeld t
      → IsHeld (delete_user_portfolio_item m user_id now id t).1
  unfolding delete_user_portfolio_item delete_portfolio_item
  delete_user_portfolio_item-IsHeld user_id now id t h =
      elim (Option-cases (visible_item id user_id t)) [
        | inl e ↦ rw (e, delete_user_portfolio_item) h
        | inr (i, e) ↦
            rw (e, delete_user_portfolio_item)
              (valued-IsHeld user_id now (delete_portfolio_item id user_id t)
                (All-select (Held t.portfolios) (λ j. not (mine id user_id j)) t.items h))
      ]

module _ (m : Market) (f : Formats) where
  step-IsHeld :
      (user_id now : ℕ) (r : Request) (t : Tables)
      → IsIdentified t
      → IsHeld t
      → IsHeld (step m f user_id now r t)
  unfolding step list_user_portfolios
  step-IsHeld user_id now (list_all a) t one h =
      same_items t (get_default_portfolio_for_user user_id now t).1
        (get_default_portfolio_for_user-Changed user_id now t)
        (get_default_portfolio_for_user-rows user_id now t).0 h
  step-IsHeld user_id now (create_one c) t one h =
      same_items t (create_user_portfolio user_id now c t).1
        (create_user_portfolio-Changed user_id now c t)
        (create_user_portfolio-rows user_id now c t).0 h
  step-IsHeld user_id now (update_one id u) t one h =
      same_items t (update_user_portfolio user_id id u t).1
        (update_user_portfolio-Changed user_id id u t) (update_user_portfolio-rows user_id id u t).0
        h
  step-IsHeld user_id now (archive_one id a) t one h =
      same_items t (archive_user_portfolio user_id now id a t).1
        (archive_user_portfolio-Changed user_id now id a t)
        (archive_user_portfolio-rows user_id now id a t).0 h
  step-IsHeld user_id now (delete_one id target) t one h =
      delete_user_portfolio-IsHeld m user_id now id target t one h
  step-IsHeld user_id now (add_one_item c) t one h =
      add_item_to_portfolio-IsHeld m user_id now c t h
  step-IsHeld user_id now (update_one_item id u) t one h =
      update_user_portfolio_item-IsHeld m user_id now id u t h
  step-IsHeld user_id now (delete_one_item id) t one h =
      delete_user_portfolio_item-IsHeld m user_id now id t h
  step-IsHeld user_id now (import_one handling content) t one h =
      (import_portfolio_csv-Adds m f user_id now handling content t).1 h
  step-IsHeld user_id now snapshot t one h = valued-IsHeld m user_id now t h

  run_holds :
      (cs : List Call) (t : Tables)
      → IsLimited t
      → IsIdentified t
      → IsHeld t
      → IsHeld (run m f cs t)
  unfolding run
  run_holds [] t l one h = h
  run_holds (c ∷ cs) t l one h =
      let t' = step m f c.user_id c.now c.request t in
      let kept = step_keeps m f c.user_id c.now c.request t l one in
      run_holds cs t' kept.0 kept.1 (step-IsHeld c.user_id c.now c.request t one h)

  -- After any requests, the portfolio of every item is there and belongs to the user of the item.
  pub run-items :
      (cs : List Call) (sets : List LegoSet)
      → All
          (λ i.
            is_some (find (owned i.user_id i.portfolio_id) (run m f cs (start sets)).portfolios)
            ≡ true)
          (run m f cs (start sets)).items
  run-items cs sets =
      run_holds cs (start sets) (λ u. (omega arith, omega arith)) (λ i. (omega arith, λ b. refl)) tt
