-- ===== src/Portfolios/SameItems.antt =====
-- The requests that leave the items and the valuations as they are.
use flipradar.Portfolios.Held.{IsHeld, Changed-Held}
use flipradar.Portfolios.Changes.{Changed}
use flipradar.Portfolios.Stores.{
  get_default_portfolio_for_user, create_portfolio, update_portfolio, PortfolioCreate,
  PortfolioUpdate, get_portfolio_by_id_for_user, default_of, count_portfolios_for_user,
}
use flipradar.Portfolios.Service.{
  update_user_portfolio, archive_user_portfolio, create_user_portfolio, changed_portfolio,
}
use flipradar.Portfolios.Rows.{Tables}
use flipradar.Portfolios.Holdings.{chosen_portfolio}
use flipradar.Base.{
  ℕ, ◌≡◌, Option, Option-cases, some, Bool, Bool-cases, none, find, leb, refl, inl, inr, ◌&&◌,
}

-- Where the items are as they were.
pub same_items : (t t' : Tables) → Changed t t' → t'.items ≡ t.items → IsHeld t → IsHeld t'
same_items t t' c e h = rw e (Changed-Held t t' c t.items h)

pub get_default_portfolio_for_user-rows :
    (user_id now : ℕ) (t : Tables)
    → ((get_default_portfolio_for_user user_id now t).1.items ≡ t.items)
      × ((get_default_portfolio_for_user user_id now t).1.snapshots ≡ t.snapshots)
unfolding get_default_portfolio_for_user
get_default_portfolio_for_user-rows user_id now t =
    elim (Option-cases (find (default_of user_id) t.portfolios)) [
      | inl e ↦ rw (e, get_default_portfolio_for_user) (refl, refl)
      | inr (p, e) ↦ rw (e, get_default_portfolio_for_user) (refl, refl)
    ]

pub chosen_portfolio-rows :
    (user_id now : ℕ) (portfolio_id : Option ℕ) (t : Tables)
    → ((chosen_portfolio user_id now portfolio_id t).1.items ≡ t.items)
      × ((chosen_portfolio user_id now portfolio_id t).1.snapshots ≡ t.snapshots)
unfolding chosen_portfolio
chosen_portfolio-rows user_id now none t = get_default_portfolio_for_user-rows user_id now t
chosen_portfolio-rows user_id now (some id) t = (refl, refl)

pub create_user_portfolio-rows :
    (user_id now : ℕ) (c : PortfolioCreate) (t : Tables)
    → ((create_user_portfolio user_id now c t).1.items ≡ t.items)
      × ((create_user_portfolio user_id now c t).1.snapshots ≡ t.snapshots)
unfolding create_user_portfolio create_portfolio
create_user_portfolio-rows user_id now c t =
    elim (Bool-cases (leb 10 (count_portfolios_for_user user_id t))) [
      | inl e ↦ rw e (refl, refl)
      | inr e ↦ rw e (refl, refl)
    ]

pub update_user_portfolio-rows :
    (user_id id : ℕ) (u : PortfolioUpdate) (t : Tables)
    → ((update_user_portfolio user_id id u t).1.items ≡ t.items)
      × ((update_user_portfolio user_id id u t).1.snapshots ≡ t.snapshots)
unfolding update_user_portfolio changed_portfolio update_portfolio
update_user_portfolio-rows user_id id u t =
    elim (Option-cases (get_portfolio_by_id_for_user id user_id t)) [
      | inl e ↦ rw (e, update_user_portfolio) (refl, refl)
      | inr (p, e) ↦ rw (e, update_user_portfolio) (refl, refl)
    ]

pub archive_user_portfolio-rows :
    (user_id now id : ℕ) (archive : Bool) (t : Tables)
    → ((archive_user_portfolio user_id now id archive t).1.items ≡ t.items)
      × ((archive_user_portfolio user_id now id archive t).1.snapshots ≡ t.snapshots)
unfolding archive_user_portfolio changed_portfolio update_portfolio
archive_user_portfolio-rows user_id now id archive t =
    elim (Option-cases (get_portfolio_by_id_for_user id user_id t)) [
      | inl e ↦ rw (e, archive_user_portfolio) (refl, refl)
      | inr (p, e) ↦ elim (Bool-cases (p.is_default && archive)) [
        | inl k ↦ rw (e, k, archive_user_portfolio) (refl, refl)
        | inr k ↦ rw (e, k, archive_user_portfolio) (refl, refl)
      ]
    ]
