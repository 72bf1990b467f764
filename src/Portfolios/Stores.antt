-- ===== src/Portfolios/Stores.antt =====
-- The functions of backend/flipradar/database/repositories.py on portfolios and their items.
use flipradar.Inventory.Checklist.{upper}
use flipradar.Portfolios.Rows.{Tables, PortfolioItem, Portfolio, LegoSet}
use flipradar.Base.{
  ℕ, Text, Bool, Option, some, List, find, ◌∷◌, none, false, ◌++◌, count_by, ◌==◌, select,
  update_where, true, not, [], text_eq, ◌&&◌, ◌||◌, ◌+◌, is_some,
}

abbrev pub get_set_by_number : Text → Tables → Option LegoSet
get_set_by_number set_number t = find (λ s. text_eq s.set_number (upper set_number)) t.sets

abbrev pub default_of : ℕ → Portfolio → Bool
default_of user_id p = p.user_id == user_id && p.is_default

-- "Default Portfolio" and "USD", by their codes.
abbrev default_name : Text
default_name =
    68 ∷ 101 ∷ 102 ∷ 97 ∷ 117 ∷ 108 ∷ 116 ∷ 32 ∷ 80 ∷ 111 ∷ 114 ∷ 116 ∷ 102 ∷ 111 ∷ 108 ∷ 105 ∷ 111
    ∷ []

abbrev pub usd : Text
usd = 85 ∷ 83 ∷ 68 ∷ []

abbrev pub add_portfolio : Portfolio → Tables → Tables
add_portfolio p t = record t { portfolios = t.portfolios ++ (p ∷ []); next_id = t.next_id + 1 }

abbrev pub new_default : ℕ → ℕ → ℕ → Portfolio
new_default id user_id now = record {
  id = id;
  user_id = user_id;
  name = default_name;
  description = none;
  currency = usd;
  is_default = true;
  created_at = now;
  archived_at = none;
}

-- With `create_if_missing`, as every caller has it.
unfoldable pub get_default_portfolio_for_user : ℕ → ℕ → Tables → Portfolio × Tables
get_default_portfolio_for_user user_id now t = elim (find (default_of user_id) t.portfolios) [
  | some p ↦ (p, t)
  | none ↦ (new_default t.next_id user_id now, add_portfolio (new_default t.next_id user_id now) t)
]

abbrev pub owned : ℕ → ℕ → Portfolio → Bool
owned user_id portfolio_id p = p.id == portfolio_id && p.user_id == user_id

abbrev pub get_portfolio_by_id_for_user : ℕ → ℕ → Tables → Option Portfolio
get_portfolio_by_id_for_user portfolio_id user_id t = find (owned user_id portfolio_id) t.portfolios

-- Without the order: the default first, then by the time of creation.
unfoldable pub list_portfolios_for_user : ℕ → Bool → Tables → List Portfolio
list_portfolios_for_user user_id include_archived t =
    select (λ p. p.user_id == user_id && (include_archived || not (is_some p.archived_at)))
      t.portfolios

unfoldable pub count_portfolios_for_user : ℕ → Tables → ℕ
count_portfolios_for_user user_id t = count_by (λ p. p.user_id == user_id) t.portfolios

pub record PortfolioCreate : Type 0 where
  pub name : Text
  pub description : Option Text
  pub currency : Text

abbrev pub new_portfolio : ℕ → ℕ → ℕ → PortfolioCreate → Portfolio
new_portfolio id user_id now data_ = record {
  id = id;
  user_id = user_id;
  name = data_.name;
  description = data_.description;
  currency = data_.currency;
  is_default = false;
  created_at = now;
  archived_at = none;
}

unfoldable pub create_portfolio : ℕ → ℕ → PortfolioCreate → Tables → Portfolio × Tables
create_portfolio user_id now data_ t =
    let p = new_portfolio t.next_id user_id now data_ in (p, add_portfolio p t)

-- A field that is sent, or none; the description may be sent as null.
pub record PortfolioUpdate : Type 0 where
  pub name : Option Text
  pub description : Option (Option Text)
  pub currency : Option Text

abbrev pub or_else {ℓ} : {A : Type ℓ} → A → Option A → A
or_else d none = d
or_else d (some x) = x

abbrev pub with_update : PortfolioUpdate → Portfolio → Portfolio
with_update u p = record p {
  name = or_else p.name u.name;
  description = or_else p.description u.description;
  currency = or_else p.currency u.currency;
}

-- The row with the identifier is changed.
unfoldable pub update_portfolio : ℕ → (Portfolio → Portfolio) → Tables → Tables
update_portfolio id change t = record t {
  portfolios = update_where (λ p. p.id == id) change t.portfolios;
}

abbrev pub held_in : ℕ → ℕ → PortfolioItem → Bool
held_in user_id portfolio_id i = i.user_id == user_id && i.portfolio_id == portfolio_id

abbrev pub moved_to : ℕ → PortfolioItem → PortfolioItem
moved_to target i = record i { portfolio_id = target }

-- The number of the rows that were changed, and the tables.
unfoldable pub reassign_portfolio_items : ℕ → ℕ → ℕ → Tables → ℕ × Tables
reassign_portfolio_items user_id source target t = (
  count_by (held_in user_id source) t.items,
  record t { items = update_where (held_in user_id source) (moved_to target) t.items },
)

unfoldable pub delete_portfolio : ℕ → Tables → Tables
delete_portfolio id t = record t { portfolios = select (λ p. not (p.id == id)) t.portfolios }
