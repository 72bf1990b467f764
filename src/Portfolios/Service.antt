-- ===== src/Portfolios/Service.antt =====
-- The handlers of backend/flipradar/services/portfolio_service.py that change portfolios and items. A
-- call that raises leaves the tables as they were.
use flipradar.Portfolios.Outcomes.{
  Outcome, raised, ok, item_not_found, set_not_found, portfolio_not_found, too_many_portfolios,
  default_not_archived, same_portfolio, default_not_deleted,
}
use flipradar.Portfolios.Holdings.{
  update_portfolio_item, delete_portfolio_item, PortfolioItemUpdate, create_portfolio_item,
  get_portfolio_item_by_id, PortfolioItemCreate, with_item_update, is_active,
}
use flipradar.Portfolios.Rows.{Tables, Portfolio, PortfolioItem}
use flipradar.Portfolios.Valued.{Market, create_user_valuation_snapshot}
use flipradar.Portfolios.Stores.{
  PortfolioUpdate, get_default_portfolio_for_user, update_portfolio, count_portfolios_for_user,
  list_portfolios_for_user, create_portfolio, reassign_portfolio_items, get_set_by_number,
  get_portfolio_by_id_for_user, PortfolioCreate, delete_portfolio, with_update,
}
use flipradar.Base.{
  ℕ, Bool, Option, Text, some, false, none, List, not, if◌then◌else◌, leb, is_some, ◌&&◌, ◌==◌,
}

abbrev pub max_portfolios_per_user : ℕ
max_portfolios_per_user = 10

unfoldable pub list_user_portfolios : ℕ → ℕ → Bool → Tables → List Portfolio × Tables
unfolding get_default_portfolio_for_user list_portfolios_for_user
list_user_portfolios user_id now include_archived t =
    let (p, t') = get_default_portfolio_for_user user_id now t in
    (list_portfolios_for_user user_id include_archived t', t')

unfoldable pub create_user_portfolio : ℕ → ℕ → PortfolioCreate → Tables → Outcome Portfolio × Tables
unfolding count_portfolios_for_user create_portfolio
create_user_portfolio user_id now payload t =
    let (p, t') = create_portfolio user_id now payload t in
    if leb max_portfolios_per_user (count_portfolios_for_user user_id t)
    then (raised too_many_portfolios, t)
    else (ok p, t')

-- The portfolio of the user, if it is not archived. A null is the identifier of none.
unfoldable pub get_active_user_portfolio : ℕ → Option ℕ → Tables → Option Portfolio
get_active_user_portfolio user_id none t = none
get_active_user_portfolio user_id (some id) t = elim (get_portfolio_by_id_for_user id user_id t) [
  | none ↦ none
  | some p ↦ if is_some p.archived_at then none else some p
]

unfoldable pub changed_portfolio :
    (Portfolio → Portfolio) → Portfolio → Tables → Outcome Portfolio × Tables
unfolding update_portfolio
changed_portfolio change p t = (ok (change p), update_portfolio p.id change t)

unfoldable pub update_user_portfolio : ℕ → ℕ → PortfolioUpdate → Tables → Outcome Portfolio × Tables
unfolding changed_portfolio
update_user_portfolio user_id portfolio_id payload t =
    elim (get_portfolio_by_id_for_user portfolio_id user_id t) [
      | none ↦ (raised portfolio_not_found, t)
      | some p ↦ changed_portfolio (with_update payload) p t
    ]

abbrev pub with_archived : Option ℕ → Portfolio → Portfolio
with_archived archived_at p = record p { archived_at = archived_at }

unfoldable pub archive_user_portfolio : ℕ → ℕ → ℕ → Bool → Tables → Outcome Portfolio × Tables
unfolding changed_portfolio
archive_user_portfolio user_id now portfolio_id archive t =
    elim (get_portfolio_by_id_for_user portfolio_id user_id t) [
      | none ↦ (raised portfolio_not_found, t)
      | some p ↦
          if p.is_default && archive
          then (raised default_not_archived, t)
          else changed_portfolio (with_archived (if archive then some now else none)) p t
    ]

-- A portfolio that is named and not an active one of the user.
abbrev pub unknown_portfolio : ℕ → Option (Option ℕ) → Tables → Bool
unknown_portfolio user_id none t = false
unknown_portfolio user_id (some id) t = not (is_some (get_active_user_portfolio user_id id t))

abbrev pub named : Option ℕ → Option (Option ℕ)
named none = none
named (some id) = some (some id)

-- The item is the user's, and its portfolio is not archived.
unfoldable pub visible_item : ℕ → ℕ → Tables → Option PortfolioItem
visible_item id user_id t = elim (get_portfolio_item_by_id id user_id t) [
  | none ↦ none
  | some i ↦ if is_active i.portfolio_id t.portfolios then some i else none
]

-- The set of a number that is sent; of the outer options, that there is such a set.
unfoldable pub sent_set : Option Text → Tables → Option (Option ℕ)
sent_set none t = some none
sent_set (some n) t = elim (get_set_by_number n t) [ none ↦ none | some s ↦ some (some s.id) ]

abbrev pub sent_portfolio : Option (Option ℕ) → Option ℕ
sent_portfolio none = none
sent_portfolio (some id) = id

module _ (m : Market) where
  -- The portfolio and the target, both of the user.
  unfoldable pub deleted_into : ℕ → ℕ → Portfolio → Portfolio → Tables → Outcome ℕ × Tables
  unfolding reassign_portfolio_items delete_portfolio create_user_valuation_snapshot
  deleted_into user_id now p target t =
      let (reassigned, t') = reassign_portfolio_items user_id p.id target.id t in
      if is_some target.archived_at
      then (raised portfolio_not_found, t)
      else if p.id == target.id
      then (raised same_portfolio, t)
      else if p.is_default
      then (raised default_not_deleted, t)
      else (ok reassigned, create_user_valuation_snapshot m user_id now (delete_portfolio p.id t'))

  unfoldable pub delete_user_portfolio : ℕ → ℕ → ℕ → ℕ → Tables → Outcome ℕ × Tables
  unfolding deleted_into
  delete_user_portfolio user_id now portfolio_id target_id t =
      elim (get_portfolio_by_id_for_user portfolio_id user_id t) [
        | none ↦ (raised portfolio_not_found, t)
        | some p ↦ elim (get_portfolio_by_id_for_user target_id user_id t) [
          | none ↦ (raised portfolio_not_found, t)
          | some target ↦ deleted_into user_id now p target t
        ]
      ]

  unfoldable pub add_item_to_portfolio :
      ℕ → ℕ → PortfolioItemCreate → Tables → Outcome PortfolioItem × Tables
  unfolding get_active_user_portfolio create_portfolio_item create_user_valuation_snapshot
  add_item_to_portfolio user_id now payload t = elim (get_set_by_number payload.set_number t) [
    | none ↦ (raised set_not_found, t)
    | some s ↦
        let (i, t') = create_portfolio_item user_id s.id now payload t in
        if unknown_portfolio user_id (named payload.portfolio_id) t
        then (raised portfolio_not_found, t)
        else (ok i, create_user_valuation_snapshot m user_id now t')
  ]

  unfoldable pub changed_item :
      ℕ
      → ℕ
      → PortfolioItemUpdate
      → Option ℕ
      → PortfolioItem
      → Tables
      → Outcome PortfolioItem × Tables
  unfolding get_active_user_portfolio update_portfolio_item create_user_valuation_snapshot
  changed_item user_id now u lego_set_id i t =
      let change = with_item_update (sent_portfolio u.portfolio_id) lego_set_id u in
      if unknown_portfolio user_id u.portfolio_id t then (raised portfolio_not_found, t) else (
        ok (change i),
        create_user_valuation_snapshot m user_id now (update_portfolio_item i.id user_id change t),
      )

  unfoldable pub update_user_portfolio_item :
      ℕ → ℕ → ℕ → PortfolioItemUpdate → Tables → Outcome PortfolioItem × Tables
  unfolding visible_item sent_set changed_item
  update_user_portfolio_item user_id now id u t = elim (visible_item id user_id t) [
    | none ↦ (raised item_not_found, t)
    | some i ↦ elim (sent_set u.set_number t) [
      | none ↦ (raised set_not_found, t)
      | some s ↦ changed_item user_id now u s i t
    ]
  ]

  unfoldable pub delete_user_portfolio_item : ℕ → ℕ → ℕ → Tables → Outcome Unit × Tables
  unfolding visible_item delete_portfolio_item create_user_valuation_snapshot
  delete_user_portfolio_item user_id now id t = elim (visible_item id user_id t) [
    | none ↦ (raised item_not_found, t)
    | some i ↦
        (ok tt, create_user_valuation_snapshot m user_id now (delete_portfolio_item id user_id t))
  ]
