-- ===== src/Portfolios/Held.antt =====
-- Every item stands in a portfolio of its own user: what the requests do to that.
use flipradar.Portfolios.Changes.{
  Changed, same, added_default, added, changed, has_id, IsIdentified,
}
use flipradar.Portfolios.Rows.{Tables, Portfolio, PortfolioItem}
use flipradar.Portfolios.Service.{
  get_active_user_portfolio, unknown_portfolio, named, sent_portfolio,
}
use flipradar.Portfolios.Holdings.{chosen_portfolio, PortfolioItemUpdate, mine, with_item_update}
use flipradar.Portfolios.Stores.{
  get_default_portfolio_for_user, owned, default_of, get_portfolio_by_id_for_user, new_default,
  held_in, moved_to,
}
use flipradar.Base.{
  ℕ, List, Option, All, Option-cases, is_some, find, some, ◌==◌, All-implied, ◌≡◌, true,
  is_some-find-append_left, false, inl, select, is_some-find-append, arith, inr, not, none, refl,
  is_some-find-update_where, update_where, find-meets, is_some-find-implied, Bool-cases, ◌≤◌,
  count_by, two_rows, find-select, All-update_where,
}

-- There is a portfolio of the identifier, and it is the user's.
abbrev pub Exists : ℕ → ℕ → List Portfolio → Type 0
Exists user_id id ps = is_some (find (owned user_id id) ps) ≡ true

abbrev pub Held : List Portfolio → PortfolioItem → Type 0
Held ps i = Exists i.user_id i.portfolio_id ps

abbrev pub IsHeld : Tables → Type 0
IsHeld t = All (Held t.portfolios) t.items

-- Nothing but a removal takes a portfolio away.
Changed-Exists :
    (t t' : Tables) (u id : ℕ) → Changed t t' → Exists u id t.portfolios → Exists u id t'.portfolios
Changed-Exists t t' u id (same e l) h = rw e h
Changed-Exists t t' u id (added_default v now n e l) h =
    rw e (is_some-find-append_left (owned u id) t.portfolios _ h)
Changed-Exists t t' u id (added v now c n e l) h =
    rw e (is_some-find-append_left (owned u id) t.portfolios _ h)
Changed-Exists t t' u id (changed i f o x e l) h =
    rw
      (
        e,
        is_some-find-update_where (owned u id) (has_id i) f t.portfolios (λ p. ground (arith, o p)),
      )
      h

pub Changed-Held :
    (t t' : Tables)
    → Changed t t'
    → (is : List PortfolioItem) → All (Held t.portfolios) is
    → All (Held t'.portfolios) is
Changed-Held t t' c is h =
    All-implied (Held t.portfolios) (Held t'.portfolios) is
      (λ i. Changed-Exists t t' i.user_id i.portfolio_id c) h

-- An active portfolio is one of the user.
active-Exists :
    (user_id id : ℕ) (t : Tables)
    → is_some (get_active_user_portfolio user_id (some id) t) ≡ true
    → Exists user_id id t.portfolios
unfolding get_active_user_portfolio
active-Exists user_id id t h = elim (Option-cases (get_portfolio_by_id_for_user id user_id t)) [
  | inl e ↦ ground (arith, h, e)
  | inr (p, e) ↦ rw e refl
]

-- The default portfolio is one of the user, also when it was created just now.
get_default_portfolio_for_user-Exists :
    (user_id now : ℕ) (t : Tables)
    → Exists user_id
        (get_default_portfolio_for_user user_id now t).0.id
        (get_default_portfolio_for_user user_id now t).1.portfolios
unfolding get_default_portfolio_for_user
get_default_portfolio_for_user-Exists user_id now t =
    elim (Option-cases (find (default_of user_id) t.portfolios)) [
      | inl e ↦
          rw (e, get_default_portfolio_for_user)
            (is_some-find-append (owned user_id t.next_id) t.portfolios
              (new_default t.next_id user_id now) (ground arith))
      | inr (p, e) ↦
          let meets = find-meets (default_of user_id) t.portfolios p e in
          rw (e, get_default_portfolio_for_user)
            (is_some-find-implied (default_of user_id) (owned user_id p.id) t.portfolios p e
              (ground (arith, meets)))
    ]

-- The portfolio of a new item.
pub chosen_portfolio-Exists :
    (user_id now : ℕ) (portfolio_id : Option ℕ) (t : Tables)
    → unknown_portfolio user_id (named portfolio_id) t ≡ false
    → Exists user_id
        (chosen_portfolio user_id now portfolio_id t).0
        (chosen_portfolio user_id now portfolio_id t).1.portfolios
unfolding chosen_portfolio
chosen_portfolio-Exists user_id now none t h = get_default_portfolio_for_user-Exists user_id now t
chosen_portfolio-Exists user_id now (some id) t h = active-Exists user_id id t (ground (arith, h))

-- A changed item of the user.
pub with_item_update-Held :
    (user_id id : ℕ) (u : PortfolioItemUpdate) (s : Option ℕ) (t : Tables)
    → unknown_portfolio user_id u.portfolio_id t ≡ false
    → (i : PortfolioItem) → mine id user_id i ≡ true
    → Held t.portfolios i
    → Held t.portfolios (with_item_update (sent_portfolio u.portfolio_id) s u i)
unfolding get_active_user_portfolio
with_item_update-Held user_id id u s t h i e k = by_sent u.portfolio_id h
  where
    by_sent :
        (sent : Option (Option ℕ))
        → unknown_portfolio user_id sent t ≡ false
        → Held t.portfolios (with_item_update (sent_portfolio sent) s u i)
    by_sent none h = k
    by_sent (some none) h = ground (arith, h)
    by_sent (some (some p)) h =
        let it : i.user_id ≡ user_id = ground (arith, e) in
        rw it (active-Exists user_id p t (ground (arith, h)))

-- The items of a portfolio that is taken away were moved to another one.
pub removed-Held :
    (user_id id target : ℕ) (t : Tables)
    → IsIdentified t
    → Exists user_id id t.portfolios
    → Exists user_id target t.portfolios
    → (id == target) ≡ false
    → IsHeld t
    → All
        (Held (select (λ p. not (p.id == id)) t.portfolios))
        (update_where (held_in user_id id) (moved_to target) t.items)
removed-Held user_id id target t one here there d h =
    All-update_where (Held t.portfolios) (Held (select (λ p. not (p.id == id)) t.portfolios))
      (held_in user_id id) (moved_to target) t.items
      (λ i e k.
        let it : i.user_id ≡ user_id = ground (arith, e) in
        rw
          (
            it,
            find-select (owned user_id target) (λ p. not (p.id == id)) t.portfolios
                (λ p m. ground (arith, d, m)),
          )
          there)
      other h
  where
    other :
        (i : PortfolioItem)
        → held_in user_id id i ≡ false
        → Held t.portfolios i
        → Held (select (λ p. not (p.id == id)) t.portfolios) i
    other i e k = elim (Bool-cases (i.portfolio_id == id)) [
      | inl a ↦
          let it : i.portfolio_id ≡ id = ground (arith, a) in
          let two : 2 ≤ count_by (has_id id) t.portfolios =
            two_rows (owned i.user_id id) (owned user_id id) (has_id id) t.portfolios
              (λ p m. ground (arith, m, e, a)) (λ p m. ground (arith, m)) (λ p m. ground (arith, m))
              (rw it at k) here in
          ground (arith, two, (one id).0)
      | inr a ↦
          rw
            (find-select (owned i.user_id i.portfolio_id) (λ p. not (p.id == id)) t.portfolios
              (λ p m. ground (arith, m, a)))
            k
    ]
