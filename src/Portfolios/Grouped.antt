-- ===== src/Portfolios/Grouped.antt =====
-- Grouping the holdings changes none of the totals.
use flipradar.Portfolios.Imports.{same_condition}
use flipradar.Scoring.Totals.{calculate_portfolio_totals-Perm}
use flipradar.Portfolios.Rows.{PortfolioItem, PortfolioCondition, new, used, sealed, unknown}
use flipradar.Portfolios.Valued.{Market, valuations, valuation_of, market_value_of}
use flipradar.Portfolios.Summary.{
  grouped, append_to_group, quantity_sum, group_quantity, calculate_portfolio_summary,
  group_valuations, portfolio_summary_from_items, is_of_group, valuations_at, valuations_of_group,
  same_holding,
}
use flipradar.Base.{
  List, ◌++◌, ◌∷◌, [], ◌≡◌, ◌+◌, map, refl, arith, ap, Bool-cases, ◌∙◌, inl, inr, All, true,
  All-append,
}
use mathlib.Core.List.{Permᴰ}
use mathlib.Core.List.Permᴰ

abbrev flat : List (List PortfolioItem) → List PortfolioItem
flat [] = []
flat (g ∷ gs) = g ++ flat gs

appended-Perm :
    (i : PortfolioItem) (g is : List PortfolioItem) → Permᴰ ((g ++ (i ∷ [])) ++ is) (i ∷ (g ++ is))
appended-Perm i [] is = Permᴰ.refl (i ∷ is)
appended-Perm i (j ∷ g) is =
    Permᴰ.trans (Permᴰ.cons refl (appended-Perm i g is)) (Permᴰ.swap refl refl)

append_to_group-Perm :
    (i : PortfolioItem) (gs : List (List PortfolioItem))
    → Permᴰ (flat (append_to_group i gs)) (i ∷ flat gs)
unfolding append_to_group
append_to_group-Perm i [] = Permᴰ.refl (i ∷ [])
append_to_group-Perm i (g ∷ gs) = elim (Bool-cases (is_of_group i g)) [
  | inl e ↦ rw e (appended-Perm i g (flat gs))
  | inr e ↦
      rw e
        (Permᴰ.trans (Permᴰ.append_left g (append_to_group-Perm i gs)) (Permᴰ.middle i g (flat gs)))
]

grouped-Perm :
    (gs : List (List PortfolioItem)) (is : List PortfolioItem)
    → Permᴰ (flat (grouped gs is)) (flat gs ++ is)
unfolding grouped
grouped-Perm gs [] = Permᴰ.symm (Permᴰ.append-nil (flat gs))
grouped-Perm gs (i ∷ is) = Permᴰ.trans (grouped-Perm (append_to_group i gs) is) (
    Permᴰ.trans (Permᴰ.append_right is (append_to_group-Perm i gs))
      (Permᴰ.symm (Permᴰ.middle i (flat gs) is)))

same_condition_sound : (c d : PortfolioCondition) → same_condition c d ≡ true → c ≡ d
same_condition_sound new new h = refl
same_condition_sound new used h = cc
same_condition_sound new sealed h = cc
same_condition_sound new unknown h = cc
same_condition_sound used new h = cc
same_condition_sound used used h = refl
same_condition_sound used sealed h = cc
same_condition_sound used unknown h = cc
same_condition_sound sealed new h = cc
same_condition_sound sealed used h = cc
same_condition_sound sealed sealed h = refl
same_condition_sound sealed unknown h = cc
same_condition_sound unknown new h = cc
same_condition_sound unknown used h = cc
same_condition_sound unknown sealed h = cc
same_condition_sound unknown unknown h = refl

same_condition_refl : (c : PortfolioCondition) → same_condition c c ≡ true
same_condition_refl new = refl
same_condition_refl used = refl
same_condition_refl sealed = refl
same_condition_refl unknown = refl

same_holding_refl : (i : PortfolioItem) → same_holding i i ≡ true
same_holding_refl i = ground (arith, same_condition_refl i.condition)

-- Every item of a group has the key of the first.
OneKey : List PortfolioItem → Type 0
OneKey [] = Unit
OneKey (i ∷ is) = All (λ j. same_holding j i ≡ true) is

OneKey-append :
    (i : PortfolioItem) (g : List PortfolioItem)
    → is_of_group i g ≡ true
    → OneKey g
    → OneKey (g ++ (i ∷ []))
unfolding OneKey
OneKey-append i [] e h = tt
OneKey-append i (j ∷ js) e h = All-append (λ k. same_holding k j ≡ true) js (i ∷ []) h (e, tt)

append_to_group-OneKey :
    (i : PortfolioItem) (gs : List (List PortfolioItem))
    → All OneKey gs
    → All OneKey (append_to_group i gs)
unfolding append_to_group OneKey
append_to_group-OneKey i [] h = (tt, tt)
append_to_group-OneKey i (g ∷ gs) h = elim (Bool-cases (is_of_group i g)) [
  | inl e ↦ rw e (OneKey-append i g e h.0, h.1)
  | inr e ↦ rw e (h.0, append_to_group-OneKey i gs h.1)
]

grouped-OneKey :
    (gs : List (List PortfolioItem)) (is : List PortfolioItem)
    → All OneKey gs
    → All OneKey (grouped gs is)
unfolding grouped
grouped-OneKey gs [] h = h
grouped-OneKey gs (i ∷ is) h =
    grouped-OneKey (append_to_group i gs) is (append_to_group-OneKey i gs h)

quantity_sum-append :
    (is js : List PortfolioItem) → quantity_sum (is ++ js) ≡ quantity_sum is + quantity_sum js
quantity_sum-append [] js = omega arith
quantity_sum-append (i ∷ is) js = ground (arith, quantity_sum-append is js)

module _ (m : Market) where
  append_to_group-quantity :
      (i : PortfolioItem) (gs : List (List PortfolioItem))
      → group_quantity m (append_to_group i gs) ≡ group_quantity m gs + i.quantity
  unfolding append_to_group
  append_to_group-quantity i [] = omega arith
  append_to_group-quantity i (g ∷ gs) =
      ground (arith, quantity_sum-append g (i ∷ []), append_to_group-quantity i gs)

  grouped-quantity :
      (gs : List (List PortfolioItem)) (is : List PortfolioItem)
      → group_quantity m (grouped gs is) ≡ group_quantity m gs + quantity_sum is
  unfolding grouped
  grouped-quantity gs [] = omega arith
  grouped-quantity gs (i ∷ is) =
      omega (arith, grouped-quantity (append_to_group i gs) is, append_to_group-quantity i gs)

  valuations-map : (is : List PortfolioItem) → valuations m is ≡ map (valuation_of m) is
  unfolding valuations
  valuations-map [] = refl
  valuations-map (i ∷ is) = ap (λ vs. valuation_of m i ∷ vs) (valuations-map is)

  valuations-append :
      (is js : List PortfolioItem) → valuations m (is ++ js) ≡ valuations m is ++ valuations m js
  unfolding valuations
  valuations-append [] js = refl
  valuations-append (i ∷ is) js = cc (valuations-append is js)

  same_holding-value :
      (i j : PortfolioItem) → same_holding i j ≡ true → market_value_of m j ≡ market_value_of m i
  same_holding-value i j h =
      let (same_set, same) : (i.lego_set_id ≡ j.lego_set_id)
          × (same_condition i.condition j.condition ≡ true) =
        ground (arith, h) in
      cc (same_set, same_condition_sound i.condition j.condition same)

  valuations_at-valuations :
      (i : PortfolioItem) (is : List PortfolioItem)
      → All (λ j. same_holding j i ≡ true) is
      → valuations_at (market_value_of m i).unit_value is ≡ valuations m is
  unfolding valuations_at valuations valuation_of
  valuations_at-valuations i [] h = refl
  valuations_at-valuations i (j ∷ is) h =
      rw (same_holding-value j i h.0, valuations_at-valuations i is h.1) refl

  valuations_of_group-valuations :
      (g : List PortfolioItem) → OneKey g → valuations_of_group m g ≡ valuations m g
  unfolding valuations_of_group OneKey valuations
  valuations_of_group-valuations [] h = refl
  valuations_of_group-valuations (i ∷ is) h =
      valuations_at-valuations i (i ∷ is) (same_holding_refl i, h)

  group_valuations-flat :
      (gs : List (List PortfolioItem))
      → All OneKey gs
      → group_valuations m gs ≡ valuations m (flat gs)
  unfolding group_valuations valuations
  group_valuations-flat [] h = refl
  group_valuations-flat (g ∷ gs) h =
      rw
        (
          valuations_of_group-valuations g h.0,
          valuations-append g (flat gs),
          group_valuations-flat gs h.1,
        )
        refl

  -- The summary that groups the holdings by set and condition has the same totals and quantity as the
  -- summary that does not.
  pub calculate_portfolio_summary-totals :
      (items : List PortfolioItem)
      → ((calculate_portfolio_summary m items).totals
          ≡ (portfolio_summary_from_items m items).totals)
        × ((calculate_portfolio_summary m items).total_quantity
            ≡ (portfolio_summary_from_items m items).total_quantity)
  unfolding calculate_portfolio_summary portfolio_summary_from_items
  calculate_portfolio_summary-totals items =
      let permuted = Permᴰ.map (valuation_of m) (grouped-Perm [] items) in
      (
        rw
            (
              group_valuations-flat (grouped [] items) (grouped-OneKey [] items tt),
              valuations-map (flat (grouped [] items)),
              valuations-map items,
            )
            (calculate_portfolio_totals-Perm permuted),
        grouped-quantity [] items ∙ omega arith,
      )
