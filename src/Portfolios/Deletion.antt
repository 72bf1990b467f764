-- ===== src/Portfolios/Deletion.antt =====
-- What becomes of the items of a portfolio that is deleted.
use flipradar.Portfolios.Outcomes.{ok}
use flipradar.Portfolios.Changes.{create_user_valuation_snapshot_same}
use flipradar.Portfolios.Service.{delete_user_portfolio, deleted_into}
use flipradar.Portfolios.Valued.{Market, create_user_valuation_snapshot}
use flipradar.Portfolios.Rows.{Tables, PortfolioItem, Portfolio}
use flipradar.Portfolios.Stores.{
  delete_portfolio, reassign_portfolio_items, held_in, moved_to, owned,
  get_portfolio_by_id_for_user,
}
use flipradar.Base.{
  ℕ, List, ◌≡◌, count_by, update_where, ◌∷◌, if◌then◌else◌, ◌+◌, ◌==◌, false, [], arith, is_some,
  refl, count_by-update_where_none, find, count_by-moved, find-removed, not, Option-cases,
  Bool-cases, inl, inr, find-meets, sym,
}

-- How many pieces a user has, over all portfolios.
abbrev pub quantity_of : ℕ → List PortfolioItem → ℕ
quantity_of user_id [] = 0
quantity_of user_id (i ∷ is) =
    (if i.user_id == user_id then i.quantity else 0) + quantity_of user_id is

quantity_of-moved :
    (v user_id id target : ℕ) (is : List PortfolioItem)
    → quantity_of v (update_where (held_in user_id id) (moved_to target) is) ≡ quantity_of v is
quantity_of-moved v user_id id target [] = refl
quantity_of-moved v user_id id target (i ∷ is) =
    ground (arith, quantity_of-moved v user_id id target is)

-- The items of `id` are in `target`, `n` of them, and `id` is gone.
abbrev pub Moved : ℕ → ℕ → ℕ → ℕ → Tables → Tables → Type 0
Moved user_id id target n t t' =
    (n ≡ count_by (held_in user_id id) t.items)
    × (count_by (held_in user_id id) t'.items ≡ 0)
    × (count_by (held_in user_id target) t'.items ≡ count_by (held_in user_id target) t.items + n)
    × (quantity_of user_id t'.items ≡ quantity_of user_id t.items)
    × (is_some (find (owned user_id id) t'.portfolios) ≡ false)

reassigned-Moved :
    (user_id id target n : ℕ) (t : Tables)
    → n ≡ count_by (held_in user_id id) t.items
    → (id == target) ≡ false
    → Moved user_id id target n t
        (delete_portfolio id (reassign_portfolio_items user_id id target t).1)
unfolding delete_portfolio reassign_portfolio_items
reassigned-Moved user_id id target n t e d = (
  e,
  count_by-update_where_none (held_in user_id id) (moved_to target) t.items
      (λ i. ground (arith, d)),
  rw
      (
        e,
        count_by-moved (held_in user_id target) (held_in user_id id) (moved_to target) t.items
            (λ i m. ground (arith, m, d)) (λ i m. ground (arith, m)),
      )
      refl,
  quantity_of-moved user_id user_id id target t.items,
  find-removed (owned user_id id) (λ p. not (p.id == id)) t.portfolios (λ p m. ground (arith, m)),
)

-- A valuation leaves portfolios and items alone.
valued-Moved :
    (m : Market) (user_id now id target n : ℕ) (t t' : Tables)
    → Moved user_id id target n t t'
    → Moved user_id id target n t (create_user_valuation_snapshot m user_id now t')
valued-Moved m user_id now id target n t t' h =
    let same = create_user_valuation_snapshot_same m user_id now t' in rw (same.0, same.1) h

module _ (m : Market) where
  deleted_into-Moved :
      (user_id now n : ℕ) (p target : Portfolio) (t : Tables)
      → (deleted_into m user_id now p target t).0 ≡ ok n
      → Moved user_id p.id target.id n t (deleted_into m user_id now p target t).1
  unfolding deleted_into reassign_portfolio_items
  deleted_into-Moved user_id now n p target t h = elim (Bool-cases (is_some target.archived_at)) [
    | inl a ↦ ground (arith, h, a)
    | inr a ↦ elim (Bool-cases (p.id == target.id)) [
      | inl b ↦ ground (arith, h, a, b)
      | inr b ↦ elim (Bool-cases p.is_default) [
        | inl c ↦ ground (arith, h, a, b, c)
        | inr c ↦
            let counted : n ≡ count_by (held_in user_id p.id) t.items =
              ground (arith, h, a, b, c) in
            rw (a, b, c)
              (valued-Moved m user_id now p.id target.id n t
                (delete_portfolio p.id (reassign_portfolio_items user_id p.id target.id t).1)
                (reassigned-Moved user_id p.id target.id n t counted b))
      ]
    ]
  ]

  -- A deletion that succeeds answers with the number of items of the portfolio, all of which are
  -- then in the target; no piece is lost, and the portfolio is not there any more.
  pub delete_user_portfolio-moves :
      (user_id now id target n : ℕ) (t : Tables)
      → (delete_user_portfolio m user_id now id target t).0 ≡ ok n
      → (n ≡ count_by (held_in user_id id) t.items)
        × (count_by (held_in user_id id) (delete_user_portfolio m user_id now id target t).1.items
            ≡ 0)
        × (count_by
              (held_in user_id target)
              (delete_user_portfolio m user_id now id target t).1.items
            ≡ count_by (held_in user_id target) t.items + n)
        × (quantity_of user_id (delete_user_portfolio m user_id now id target t).1.items
            ≡ quantity_of user_id t.items)
        × (is_some (
              find
                (owned user_id id)
                (delete_user_portfolio m user_id now id target t).1.portfolios)
            ≡ false)
  unfolding delete_user_portfolio
  delete_user_portfolio-moves user_id now id target n t h =
      elim (Option-cases (get_portfolio_by_id_for_user id user_id t)) [
        | inl e ↦ ground (arith, h, e)
        | inr (p, e) ↦ elim (Option-cases (get_portfolio_by_id_for_user target user_id t)) [
          | inl k ↦ ground (arith, h, e, k)
          | inr (q, k) ↦
              let here : p.id ≡ id =
                ground (arith, find-meets (owned user_id id) t.portfolios p e) in
              let there : q.id ≡ target =
                ground (arith, find-meets (owned user_id target) t.portfolios q k) in
              let done = rw (e, k, delete_user_portfolio) at h in
              rw (e, k, delete_user_portfolio, sym here, sym there)
                (deleted_into-Moved user_id now n p q t done)
        ]
      ]
