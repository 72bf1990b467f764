-- ===== src/Portfolios/Holdings.antt =====
-- The functions of backend/flipradar/database/repositories.py on the items of the portfolios.
use flipradar.Scoring.Amounts.{Decimal}
use flipradar.Portfolios.Stores.{get_default_portfolio_for_user, or_else}
use flipradar.Portfolios.Rows.{Tables, PortfolioItem, Portfolio, PortfolioCondition}
use flipradar.Base.{
  ℕ, List, Option, ◌++◌, some, select, Text, update_where, Bool, find, ◌∷◌, not, none, true,
  some_row, ◌==◌, ◌&&◌, [], if◌then◌else◌, ◌+◌, is_some,
}

abbrev pub mine : ℕ → ℕ → PortfolioItem → Bool
mine id user_id i = i.id == id && i.user_id == user_id

abbrev pub get_portfolio_item_by_id : ℕ → ℕ → Tables → Option PortfolioItem
get_portfolio_item_by_id id user_id t = find (mine id user_id) t.items

-- The join with the portfolio of the item: one that is there and not archived.
abbrev pub is_active : ℕ → List Portfolio → Bool
is_active id ps = some_row (λ p. p.id == id && not (is_some p.archived_at)) ps

abbrev pub in_portfolio : Option ℕ → PortfolioItem → Bool
in_portfolio none i = true
in_portfolio (some id) i = i.portfolio_id == id

-- Without the order by the time of creation.
unfoldable pub get_all_portfolio_items_for_user : ℕ → Option ℕ → Tables → List PortfolioItem
get_all_portfolio_items_for_user user_id portfolio_id t =
    select
      (λ i.
        i.user_id == user_id
        && in_portfolio portfolio_id i
        && is_active i.portfolio_id t.portfolios)
      t.items

pub record PortfolioItemCreate : Type 0 where
  pub portfolio_id : Option ℕ
  pub set_number : Text
  pub quantity : ℕ
  pub purchase_price : Decimal
  pub condition : PortfolioCondition
  pub purchase_date : Option ℕ
  pub currency : Text
  pub notes : Option Text

abbrev pub new_item : ℕ → ℕ → ℕ → ℕ → ℕ → PortfolioItemCreate → PortfolioItem
new_item id user_id portfolio_id lego_set_id now c = record {
  id = id;
  user_id = user_id;
  portfolio_id = portfolio_id;
  lego_set_id = lego_set_id;
  quantity = c.quantity;
  purchase_price = c.purchase_price;
  condition = c.condition;
  purchase_date = c.purchase_date;
  currency = c.currency;
  notes = c.notes;
  created_at = now;
}

abbrev pub add_item : PortfolioItem → Tables → Tables
add_item i t = record t { items = t.items ++ (i ∷ []); next_id = t.next_id + 1 }

-- The portfolio that is named, or the default one, which may have to be created.
unfoldable pub chosen_portfolio : ℕ → ℕ → Option ℕ → Tables → ℕ × Tables
unfolding get_default_portfolio_for_user
chosen_portfolio user_id now (some id) t = (id, t)
chosen_portfolio user_id now none t =
    let (p, t') = get_default_portfolio_for_user user_id now t in (p.id, t')

-- After the look-up of the set.
unfoldable pub create_portfolio_item :
    ℕ → ℕ → ℕ → PortfolioItemCreate → Tables → PortfolioItem × Tables
unfolding chosen_portfolio
create_portfolio_item user_id lego_set_id now c t =
    let (portfolio_id, t') = chosen_portfolio user_id now c.portfolio_id t in
    let i = new_item t'.next_id user_id portfolio_id lego_set_id now c in (i, add_item i t')

-- The fields that are sent; a null is sent for the portfolio, the date and the notes only.
pub record PortfolioItemUpdate : Type 0 where
  pub portfolio_id : Option (Option ℕ)
  pub set_number : Option Text
  pub quantity : Option ℕ
  pub purchase_price : Option Decimal
  pub condition : Option PortfolioCondition
  pub purchase_date : Option (Option ℕ)
  pub currency : Option Text
  pub notes : Option (Option Text)

-- The portfolio and the set are those that the service looked up.
abbrev pub with_item_update :
    Option ℕ → Option ℕ → PortfolioItemUpdate → PortfolioItem → PortfolioItem
with_item_update portfolio_id lego_set_id u i = record i {
  portfolio_id = or_else i.portfolio_id portfolio_id;
  lego_set_id = or_else i.lego_set_id lego_set_id;
  quantity = or_else i.quantity u.quantity;
  purchase_price = or_else i.purchase_price u.purchase_price;
  condition = or_else i.condition u.condition;
  purchase_date = or_else i.purchase_date u.purchase_date;
  currency = or_else i.currency u.currency;
  notes = or_else i.notes u.notes;
}

unfoldable pub update_portfolio_item : ℕ → ℕ → (PortfolioItem → PortfolioItem) → Tables → Tables
update_portfolio_item id user_id change t = record t {
  items = update_where (mine id user_id) change t.items;
}

-- The values of the item go with it: their foreign key cascades.
unfoldable pub delete_portfolio_item : ℕ → ℕ → Tables → Tables
delete_portfolio_item id user_id t = record t {
  items = select (λ i. not (mine id user_id i)) t.items;
  item_snapshots =
      if some_row (mine id user_id) t.items
      then select (λ s. not (s.portfolio_item_id == id)) t.item_snapshots
      else t.item_snapshots;
}
