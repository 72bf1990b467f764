-- ===== src/Portfolios/Limits.antt =====
-- How many portfolios a user can have, and that identifiers are given out once.
use flipradar.Portfolios.Imports.{Formats}
use flipradar.Portfolios.Moves.{step-Removed}
use flipradar.Portfolios.Steps.{Call, run, start, step, Request}
use flipradar.Portfolios.Valued.{Market}
use flipradar.Portfolios.Service.{max_portfolios_per_user}
use flipradar.Portfolios.Stores.{default_of, PortfolioCreate, new_default, new_portfolio}
use flipradar.Portfolios.Changes.{
  Changed, has_id, extra_of, same, added_default, added, changed, Removed, IsIdentified, SameOwner,
  archives_extra,
}
use flipradar.Portfolios.Rows.{Tables, Portfolio, LegoSet}
use flipradar.Base.{
  ℕ, List, count_by, ◌≤◌, arith, ◌==◌, ◌≡◌, count_by-implied, count_by-update_where,
  count_by-select, not, ◌<◌, is_some, ◌++◌, find, ◌∷◌, false, [], count_by-append, Bool-cases, refl,
  count_by-added, inl, no_row, inr, Bool, ◌&&◌, All, true, update_where,
}

abbrev pub IsLimited : Tables → Type 0
IsLimited t =
    (user_id : ℕ)
    → (count_by (default_of user_id) t.portfolios ≤ 1)
      × (count_by (extra_of user_id) t.portfolios ≤ max_portfolios_per_user)

abbrev pub archived_default : Portfolio → Bool
archived_default p = p.is_default && is_some p.archived_at

-- No default portfolio is archived.
abbrev pub IsOpen : Tables → Type 0
IsOpen t = count_by archived_default t.portfolios ≡ 0

changed_open :
    (id : ℕ) (f : Portfolio → Portfolio) (ps : List Portfolio)
    → SameOwner f
    → All (λ p. has_id id p ≡ true → archives_extra f p ≡ true) ps
    → count_by archived_default ps ≡ 0
    → count_by archived_default (update_where (has_id id) f ps) ≡ 0
changed_open id f [] o x h = refl
changed_open id f (p ∷ ps) o x h = ground (arith, o p, x.0, h, changed_open id f ps o x.1)

Changed-IsOpen : (t t' : Tables) → Changed t t' → IsIdentified t → IsOpen t → IsOpen t'
Changed-IsOpen t t' (same e l) one h = rw e h
Changed-IsOpen t t' (added_default v now n e l) one h = rw e (
    omega (
      arith,
      count_by-added archived_default t.portfolios (new_default t.next_id v now) 0 0
          (omega (arith, h)) (omega arith) (λ k. ground (arith, k)),
    ))
Changed-IsOpen t t' (added v now c n e l) one h = rw e (
    omega (
      arith,
      count_by-added archived_default t.portfolios (new_portfolio t.next_id v now c) 0 0
          (omega (arith, h)) (omega arith) (λ k. ground (arith, k)),
    ))
Changed-IsOpen t t' (changed id f o x e l) one h = rw e (changed_open id f t.portfolios o (x one) h)

Removed-IsOpen : (t t' : Tables) → Removed t t' → IsOpen t → IsOpen t'
Removed-IsOpen t t' (id, e, l) h =
    rw e (omega (arith, count_by-select archived_default (λ p. not (p.id == id)) t.portfolios, h))

-- The rows of both kinds are the rows of the user.
extra_of-count :
    (u : ℕ) (ps : List Portfolio) → count_by (extra_of u) ps ≤ count_by (λ p. p.user_id == u) ps
extra_of-count u ps = count_by-implied (extra_of u) (λ p. p.user_id == u) ps (λ p h. ground arith)

-- The first default portfolio of a user.
add_default-limits :
    (u v now : ℕ) (t : Tables)
    → is_some (find (default_of v) t.portfolios) ≡ false
    → (count_by (default_of u) t.portfolios ≤ 1)
      × (count_by (extra_of u) t.portfolios ≤ max_portfolios_per_user)
    → (count_by (default_of u) (t.portfolios ++ (new_default t.next_id v now ∷ [])) ≤ 1)
      × (count_by (extra_of u) (t.portfolios ++ (new_default t.next_id v now ∷ []))
          ≤ max_portfolios_per_user)
add_default-limits u v now t n h = (
  elim (Bool-cases (v == u)) [
    | inl e ↦
        let it : v ≡ u = ground (arith, e) in
        count_by-added (default_of u) t.portfolios (new_default t.next_id v now) 0 1
          (omega (arith, no_row (default_of u) t.portfolios (rw it at n))) (omega arith)
          (λ k. omega arith)
    | inr e ↦
        count_by-added (default_of u) t.portfolios (new_default t.next_id v now) 1 1 h.0
          (omega arith) (λ k. ground (arith, e, k))
  ],
  count_by-added (extra_of u) t.portfolios (new_default t.next_id v now) 10 10 h.1 (omega arith)
      (λ k. ground (arith, k)),
)

-- Another portfolio of a user who has fewer than ten.
add-limits :
    (u v now : ℕ) (c : PortfolioCreate) (t : Tables)
    → count_by (λ p. p.user_id == v) t.portfolios < max_portfolios_per_user
    → (count_by (default_of u) t.portfolios ≤ 1)
      × (count_by (extra_of u) t.portfolios ≤ max_portfolios_per_user)
    → (count_by (default_of u) (t.portfolios ++ (new_portfolio t.next_id v now c ∷ [])) ≤ 1)
      × (count_by (extra_of u) (t.portfolios ++ (new_portfolio t.next_id v now c ∷ []))
          ≤ max_portfolios_per_user)
add-limits u v now c t n h = (
  count_by-added (default_of u) t.portfolios (new_portfolio t.next_id v now c) 1 1 h.0 (omega arith)
      (λ k. ground (arith, k)),
  elim (Bool-cases (v == u)) [
    | inl e ↦
        let it : v ≡ u = ground (arith, e) in
        count_by-added (extra_of u) t.portfolios (new_portfolio t.next_id v now c) 9 10
          (omega (arith, extra_of-count u t.portfolios, rw it at n)) (omega arith)
          (λ k. omega arith)
    | inr e ↦
        count_by-added (extra_of u) t.portfolios (new_portfolio t.next_id v now c) 10 10 h.1
          (omega arith) (λ k. ground (arith, e, k))
  ],
)

-- A portfolio with the next identifier.
add-identifiers :
    (id : ℕ) (p : Portfolio) (t : Tables) (next : ℕ)
    → t.next_id < next
    → p.id ≡ t.next_id
    → (count_by (has_id id) t.portfolios ≤ 1)
      × (t.next_id ≤ id → count_by (has_id id) t.portfolios ≡ 0)
    → (count_by (has_id id) (t.portfolios ++ (p ∷ [])) ≤ 1)
      × (next ≤ id → count_by (has_id id) (t.portfolios ++ (p ∷ [])) ≡ 0)
add-identifiers id p t next l e h =
    let counted = count_by-append (has_id id) t.portfolios (p ∷ []) in
    (
      elim (Bool-cases (p.id == id)) [
        | inl k ↦ ground (arith, counted, k, h.1 (ground (arith, k, e)))
        | inr k ↦ ground (arith, counted, k, h.0)
      ],
      λ b. ground (arith, counted, e, l, b, h.1 (omega (arith, l, b))),
    )

pub Changed-IsLimited : (t t' : Tables) → Changed t t' → IsLimited t → IsLimited t'
Changed-IsLimited t t' (same e l) h u = rw e (h u)
Changed-IsLimited t t' (added_default v now n e l) h u = rw e (add_default-limits u v now t n (h u))
Changed-IsLimited t t' (added v now c n e l) h u = rw e (add-limits u v now c t n (h u))
Changed-IsLimited t t' (changed id f o x e l) h u = rw e (
  rw (count_by-update_where (default_of u) (has_id id) f t.portfolios (λ p. ground (arith, o p)))
      (h u).0,
  rw (count_by-update_where (extra_of u) (has_id id) f t.portfolios (λ p. ground (arith, o p)))
      (h u).1,
)

pub Changed-IsIdentified : (t t' : Tables) → Changed t t' → IsIdentified t → IsIdentified t'
Changed-IsIdentified t t' (same e l) h id = rw e ((h id).0, λ b. (h id).1 (omega (arith, b, l)))
Changed-IsIdentified t t' (added_default v now n e l) h id =
    rw e (add-identifiers id (new_default t.next_id v now) t t'.next_id l refl (h id))
Changed-IsIdentified t t' (added v now c n e l) h id =
    rw e (add-identifiers id (new_portfolio t.next_id v now c) t t'.next_id l refl (h id))
Changed-IsIdentified t t' (changed i f o x e l) h id =
    rw (e, count_by-update_where (has_id id) (has_id i) f t.portfolios (λ p. ground (arith, o p)))
      ((h id).0, λ b. (h id).1 (omega (arith, b, l)))

pub Removed-IsLimited : (t t' : Tables) → Removed t t' → IsLimited t → IsLimited t'
Removed-IsLimited t t' (id, e, l) h u = rw e (
  omega (arith, count_by-select (default_of u) (λ p. not (p.id == id)) t.portfolios, h u),
  omega (arith, count_by-select (extra_of u) (λ p. not (p.id == id)) t.portfolios, h u),
)

pub Removed-IsIdentified : (t t' : Tables) → Removed t t' → IsIdentified t → IsIdentified t'
Removed-IsIdentified t t' (i, e, l) h id =
    let fewer = count_by-select (has_id id) (λ p. not (p.id == i)) t.portfolios in
    rw e (omega (arith, fewer, h id), λ b. omega (arith, fewer, (h id).1 (omega (arith, b, l))))

module _ (m : Market) (f : Formats) where
  pub step_keeps :
      (user_id now : ℕ) (r : Request) (t : Tables)
      → IsLimited t
      → IsIdentified t
      → IsLimited (step m f user_id now r t) × IsIdentified (step m f user_id now r t)
  step_keeps user_id now r t h k = elim (step-Removed m f user_id now r t) [
    | inl c ↦ (
      Changed-IsLimited t (step m f user_id now r t) c h,
      Changed-IsIdentified t (step m f user_id now r t) c k,
    )
    | inr c ↦ (
      Removed-IsLimited t (step m f user_id now r t) c h,
      Removed-IsIdentified t (step m f user_id now r t) c k,
    )
  ]

  step-IsOpen :
      (user_id now : ℕ) (r : Request) (t : Tables)
      → IsIdentified t
      → IsOpen t
      → IsOpen (step m f user_id now r t)
  step-IsOpen user_id now r t one h = elim (step-Removed m f user_id now r t) [
    | inl c ↦ Changed-IsOpen t (step m f user_id now r t) c one h
    | inr c ↦ Removed-IsOpen t (step m f user_id now r t) c h
  ]

  run_keeps :
      (cs : List Call) (t : Tables)
      → IsLimited t
      → IsIdentified t
      → IsOpen t
      → IsLimited (run m f cs t) × IsIdentified (run m f cs t) × IsOpen (run m f cs t)
  unfolding run
  run_keeps [] t h k o = (h, k, o)
  run_keeps (c ∷ cs) t h k o =
      let kept = step_keeps c.user_id c.now c.request t h k in
      run_keeps cs (step m f c.user_id c.now c.request t) kept.0 kept.1
        (step-IsOpen c.user_id c.now c.request t k o)

  -- After any requests, a user has at most one default portfolio and at most ten others, no two
  -- portfolios have the same identifier, and no default portfolio is archived.
  pub run-portfolios :
      (cs : List Call) (sets : List LegoSet) (user_id id : ℕ)
      → (count_by (default_of user_id) (run m f cs (start sets)).portfolios ≤ 1)
        × (count_by (extra_of user_id) (run m f cs (start sets)).portfolios ≤ 10)
        × (count_by (has_id id) (run m f cs (start sets)).portfolios ≤ 1)
        × (count_by archived_default (run m f cs (start sets)).portfolios ≡ 0)
  run-portfolios cs sets user_id id =
      let kept =
        run_keeps cs (start sets) (λ u. (omega arith, omega arith)) (λ i. (omega arith, λ b. refl))
          refl in
      ((kept.0 user_id).0, (kept.0 user_id).1, (kept.1 id).0, kept.2)
