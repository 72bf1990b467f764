-- ===== src/Portfolios/Changes.antt =====
-- What a request does to the portfolios: it adds, changes or removes one, if any.
use flipradar.Portfolios.Service.{
  archive_user_portfolio, create_user_portfolio, update_user_portfolio, changed_portfolio,
  with_archived, max_portfolios_per_user,
}
use flipradar.Portfolios.Rows.{Tables, Portfolio}
use flipradar.Portfolios.Valued.{
  Market, create_user_valuation_snapshot, create_portfolio_valuation_snapshot,
  get_portfolio_valuation_snapshot_for_window, window_of,
}
use flipradar.Portfolios.Stores.{
  update_portfolio, get_default_portfolio_for_user, count_portfolios_for_user, create_portfolio,
  PortfolioUpdate, default_of, PortfolioCreate, new_default, with_update,
  get_portfolio_by_id_for_user, new_portfolio, owned,
}
use flipradar.Base.{
  ℕ, Bool, arith, ◌≡◌, none, ◌==◌, find, ◌≤◌, ◌&&◌, Bool-cases, ◌∙◌, is_some, leb, false, not, some,
  if◌then◌else◌, ◌++◌, count_by, ◌∷◌, inl, [], inr, ◌<◌, refl, update_where, select, Option-cases,
  find-meets, All, All-implied, ◌||◌, true, found-All, All-every,
}

-- The portfolios of a user that are not the default one.
abbrev pub extra_of : ℕ → Portfolio → Bool
extra_of user_id p = p.user_id == user_id && not p.is_default

abbrev pub has_id : ℕ → Portfolio → Bool
has_id id p = p.id == id

-- A change of a portfolio that leaves alone whose it is, and whether it is the default one.
abbrev pub SameOwner : (Portfolio → Portfolio) → Type 0
SameOwner f =
    (p : Portfolio)
    → ((f p).id ≡ p.id) × ((f p).user_id ≡ p.user_id) × ((f p).is_default ≡ p.is_default)

-- No two portfolios have the same identifier, and the next one is not given out.
abbrev pub IsIdentified : Tables → Type 0
IsIdentified t =
    (id : ℕ)
    → (count_by (has_id id) t.portfolios ≤ 1)
      × (t.next_id ≤ id → count_by (has_id id) t.portfolios ≡ 0)

-- A change that archives the portfolio only if that is not the default one.
abbrev pub archives_extra : (Portfolio → Portfolio) → Portfolio → Bool
archives_extra f p = not p.is_default || not (is_some (f p).archived_at) || is_some p.archived_at

abbrev pub OnlyExtra : Tables → ℕ → (Portfolio → Portfolio) → Type 0
OnlyExtra t id f =
    IsIdentified t → All (λ p. has_id id p ≡ true → archives_extra f p ≡ true) t.portfolios

pub data Changed (t t' : Tables) : Type 0 where
  same : t'.portfolios ≡ t.portfolios → t.next_id ≤ t'.next_id → Changed t t'
  added_default :
      (user_id now : ℕ)
      → is_some (find (default_of user_id) t.portfolios) ≡ false
      → t'.portfolios ≡ t.portfolios ++ (new_default t.next_id user_id now ∷ [])
      → t.next_id < t'.next_id
      → Changed t t'
  added :
      (user_id now : ℕ) (data_ : PortfolioCreate)
      → count_by (λ p. p.user_id == user_id) t.portfolios < max_portfolios_per_user
      → t'.portfolios ≡ t.portfolios ++ (new_portfolio t.next_id user_id now data_ ∷ [])
      → t.next_id < t'.next_id
      → Changed t t'
  changed :
      (id : ℕ) (f : Portfolio → Portfolio)
      → SameOwner f
      → OnlyExtra t id f
      → t'.portfolios ≡ update_where (has_id id) f t.portfolios
      → t.next_id ≤ t'.next_id
      → Changed t t'

-- The portfolio of an identifier is taken away.
abbrev pub Removed : Tables → Tables → Type 0
Removed t t' =
    (id : ℕ) × (t'.portfolios ≡ select (λ p. not (p.id == id)) t.portfolios)
    × (t.next_id ≤ t'.next_id)

-- A valuation adds rows of its own and no other.
pub create_user_valuation_snapshot_same :
    (m : Market) (user_id now : ℕ) (t : Tables)
    → ((create_user_valuation_snapshot m user_id now t).portfolios ≡ t.portfolios)
      × ((create_user_valuation_snapshot m user_id now t).items ≡ t.items)
      × (t.next_id ≤ (create_user_valuation_snapshot m user_id now t).next_id)
unfolding create_user_valuation_snapshot create_portfolio_valuation_snapshot
create_user_valuation_snapshot_same m user_id now t =
    elim (Bool-cases
      (is_some (get_portfolio_valuation_snapshot_for_window user_id (window_of now) t))) [
        | inl e ↦ rw e (refl, refl, omega arith)
        | inr e ↦ rw e (refl, refl, omega arith)
      ]

-- The change is one of the portfolios and the next identifier alone.
pub Changed-respects :
    (t t' t'' : Tables)
    → t''.portfolios ≡ t'.portfolios
    → t'.next_id ≤ t''.next_id
    → Changed t t'
    → Changed t t''
Changed-respects t t' t'' e l (same k b) = same (e ∙ k) (omega arith)
Changed-respects t t' t'' e l (added_default user_id now n k b) =
    added_default user_id now n (e ∙ k) (omega arith)
Changed-respects t t' t'' e l (added user_id now data_ n k b) =
    added user_id now data_ n (e ∙ k) (omega arith)
Changed-respects t t' t'' e l (changed id f o x k b) = changed id f o x (e ∙ k) (omega arith)

-- What a valuation comes after is a change of the same kind with it.
pub valued-Changed :
    (m : Market) (user_id now : ℕ) (t t' : Tables)
    → Changed t t'
    → Changed t (create_user_valuation_snapshot m user_id now t')
valued-Changed m user_id now t t' =
    let same = create_user_valuation_snapshot_same m user_id now t' in
    Changed-respects t t' (create_user_valuation_snapshot m user_id now t') same.0 same.2

pub get_default_portfolio_for_user-Changed :
    (user_id now : ℕ) (t : Tables) → Changed t (get_default_portfolio_for_user user_id now t).1
unfolding get_default_portfolio_for_user
get_default_portfolio_for_user-Changed user_id now t =
    elim (Option-cases (find (default_of user_id) t.portfolios)) [
      | inl e ↦
          rw (e, get_default_portfolio_for_user)
            (added_default user_id now (rw e refl) refl (omega arith))
      | inr (p, e) ↦ rw (e, get_default_portfolio_for_user) (same refl (omega arith))
    ]

pub update_portfolio-Changed :
    (id : ℕ) (f : Portfolio → Portfolio) (t : Tables)
    → SameOwner f
    → OnlyExtra t id f
    → Changed t (update_portfolio id f t)
unfolding update_portfolio
update_portfolio-Changed id f t o x = changed id f o x refl (omega arith)

pub create_user_portfolio-Changed :
    (user_id now : ℕ) (payload : PortfolioCreate) (t : Tables)
    → Changed t (create_user_portfolio user_id now payload t).1
unfolding create_user_portfolio count_portfolios_for_user create_portfolio
create_user_portfolio-Changed user_id now payload t =
    elim (Bool-cases (leb 10 (count_by (λ p. p.user_id == user_id) t.portfolios))) [
      | inl e ↦ rw e (same refl (omega arith))
      | inr e ↦ rw e (added user_id now payload (ground (arith, e)) refl (omega arith))
    ]

pub update_user_portfolio-Changed :
    (user_id id : ℕ) (u : PortfolioUpdate) (t : Tables)
    → Changed t (update_user_portfolio user_id id u t).1
unfolding update_user_portfolio changed_portfolio
update_user_portfolio-Changed user_id id u t =
    elim (Option-cases (get_portfolio_by_id_for_user id user_id t)) [
      | inl e ↦ rw (e, update_user_portfolio) (same refl (omega arith))
      | inr (p, e) ↦
          rw (e, update_user_portfolio)
            (update_portfolio-Changed p.id (with_update u) t (λ q. (refl, refl, refl))
              (λ one.
                All-implied (λ q. archives_extra (with_update u) q ≡ true)
                  (λ q. has_id p.id q ≡ true → archives_extra (with_update u) q ≡ true) t.portfolios
                  (λ q h k. h)
                  (All-every (archives_extra (with_update u)) t.portfolios (λ q. ground arith))))
    ]

archive-OnlyExtra :
    (user_id now id : ℕ) (archive : Bool) (p : Portfolio) (t : Tables)
    → get_portfolio_by_id_for_user id user_id t ≡ some p
    → (p.is_default && archive) ≡ false
    → OnlyExtra t p.id (with_archived (if archive then some now else none))
archive-OnlyExtra user_id now id archive p t e k one =
    let meets = find-meets (owned user_id id) t.portfolios p e in
    let here : p.id ≡ id = ground (arith, meets) in
    found-All (owned user_id id) (has_id p.id)
      (archives_extra (with_archived (if archive then some now else none))) t.portfolios p
      (λ q m. rw here (ground (arith, m))) (one p.id).0 e (kept archive k)
  where
    kept :
        (archive : Bool)
        → (p.is_default && archive) ≡ false
        → archives_extra (with_archived (if archive then some now else none)) p ≡ true
    kept true k = ground (arith, k)
    kept false k = ground arith

pub archive_user_portfolio-Changed :
    (user_id now id : ℕ) (archive : Bool) (t : Tables)
    → Changed t (archive_user_portfolio user_id now id archive t).1
unfolding archive_user_portfolio changed_portfolio
archive_user_portfolio-Changed user_id now id archive t =
    elim (Option-cases (get_portfolio_by_id_for_user id user_id t)) [
      | inl e ↦ rw (e, archive_user_portfolio) (same refl (omega arith))
      | inr (p, e) ↦ elim (Bool-cases (p.is_default && archive)) [
        | inl k ↦ rw (e, k, archive_user_portfolio) (same refl (omega arith))
        | inr k ↦
            rw (e, k, archive_user_portfolio)
              (update_portfolio-Changed p.id (with_archived (if archive then some now else none)) t
                (λ q. (refl, refl, refl)) (archive-OnlyExtra user_id now id archive p t e k))
      ]
    ]
