-- ===== src/Base/Filters.antt =====
-- Lemmas on the rows that stay when others are removed or changed.
use Prim.Native.Nat.{ℕ, ◌+◌, ◌≤◌, ◌<◌}
use mathlib.Core.Path.{◌≡◌, refl, sym}
use mathlib.Core.Bool.{Bool, true, false}
use mathlib.Core.Option.{some}
use mathlib.Core.List.{List, [], ◌∷◌, ◌++◌}
use mathlib.Core.Logic.{inl, inr}
use native.Mathlib.Omega.{arith}
use flipradar.Base.Tests.{is_some, Bool-cases}
use flipradar.Base.Tables.{count_by-append, select, find, count_by, update_where, All}

module _ {ℓ} {A : Type ℓ} where
  pub count_by-select : (p q : A → Bool) (xs : List A) → count_by p (select q xs) ≤ count_by p xs
  count_by-select p q [] = omega arith
  count_by-select p q (x ∷ xs) = ground (arith, count_by-select p q xs)

  pub no_row : (p : A → Bool) (xs : List A) → is_some (find p xs) ≡ false → count_by p xs ≡ 0
  no_row p [] h = refl
  no_row p (x ∷ xs) h = ground (arith, no_row p xs)

  -- A row that is added counts if it meets the condition.
  pub count_by-added :
      (p : A → Bool) (xs : List A) (y : A) (m n : ℕ)
      → count_by p xs ≤ m
      → m ≤ n
      → (p y ≡ true → m < n)
      → count_by p (xs ++ (y ∷ [])) ≤ n
  count_by-added p xs y m n h k l = ground (arith, h, k, l, count_by-append p xs (y ∷ []))

  pub one_row : (p : A → Bool) (xs : List A) → is_some (find p xs) ≡ true → 1 ≤ count_by p xs
  one_row p [] h = ground arith
  one_row p (x ∷ xs) h = ground (arith, one_row p xs)

  pub count_by-implied :
      (p q : A → Bool) (xs : List A)
      → ((x : A) → p x ≡ true → q x ≡ true)
      → count_by p xs ≤ count_by q xs
  count_by-implied p q [] i = omega arith
  count_by-implied p q (x ∷ xs) i = ground (arith, i x, count_by-implied p q xs i)

  -- A search whose condition a change keeps.
  pub is_some-find-update_where :
      (p q : A → Bool) (f : A → A) (xs : List A)
      → ((x : A) → p (f x) ≡ p x)
      → is_some (find p (update_where q f xs)) ≡ is_some (find p xs)
  is_some-find-update_where p q f [] e = refl
  is_some-find-update_where p q f (x ∷ xs) e =
      ground (arith, e x, is_some-find-update_where p q f xs e)

  -- A search for rows that all stay.
  pub find-select :
      (p q : A → Bool) (xs : List A)
      → ((x : A) → p x ≡ true → q x ≡ true)
      → find p (select q xs) ≡ find p xs
  find-select p q [] i = refl
  find-select p q (x ∷ xs) i = ground (arith, i x, find-select p q xs i)

  pub find-meets : (p : A → Bool) (xs : List A) (x : A) → find p xs ≡ some x → p x ≡ true
  find-meets p [] x h = ground arith
  find-meets p (y ∷ xs) x h = elim (Bool-cases (p y)) [
    | inl e ↦ let same : some y ≡ some x = rw e at h in let it : y ≡ x = cc in rw (sym it) e
    | inr e ↦ find-meets p xs x (rw e at h)
  ]

  -- A row that was found meets a condition, so that a search for that one finds some row.
  pub is_some-find-implied :
      (p q : A → Bool) (xs : List A) (x : A)
      → find p xs ≡ some x
      → q x ≡ true
      → is_some (find q xs) ≡ true
  is_some-find-implied p q [] x h k = ground arith
  is_some-find-implied p q (y ∷ xs) x h k = elim (Bool-cases (p y)) [
    | inl e ↦
        let same : some y ≡ some x = rw e at h in
        let it : y ≡ x = cc in let meets : q y ≡ true = rw it k in rw meets refl
    | inr e ↦ ground (arith, is_some-find-implied p q xs x (rw e at h) k)
  ]

  -- Rows of two conditions that no row meets both of are two rows of a common condition.
  pub two_rows :
      (p q r : A → Bool) (xs : List A)
      → ((x : A) → p x ≡ true → q x ≡ false)
      → ((x : A) → p x ≡ true → r x ≡ true)
      → ((x : A) → q x ≡ true → r x ≡ true)
      → is_some (find p xs) ≡ true
      → is_some (find q xs) ≡ true
      → 2 ≤ count_by r xs
  two_rows p q r [] d i j h k = ground arith
  two_rows p q r (x ∷ xs) d i j h k = ground (
    arith,
    d x,
    i x,
    j x,
    one_row p xs,
    one_row q xs,
    count_by-implied p r xs i,
    count_by-implied q r xs j,
    two_rows p q r xs d i j,
  )

  pub All-implied {κ} :
      (P Q : A → Type κ) (xs : List A) → ((x : A) → P x → Q x) → All P xs → All Q xs
  All-implied P Q [] i h = tt
  All-implied P Q (x ∷ xs) i h = (i x h.0, All-implied P Q xs i h.1)

  pub All-select {κ} :
      (P : A → Type κ) (q : A → Bool) (xs : List A) → All P xs → All P (select q xs)
  All-select P q [] h = tt
  All-select P q (x ∷ xs) h = elim (Bool-cases (q x)) [
    | inl e ↦ rw e (h.0, All-select P q xs h.1)
    | inr e ↦ rw e (All-select P q xs h.1)
  ]

  pub All-update_where {κ} :
      (P Q : A → Type κ) (q : A → Bool) (f : A → A) (xs : List A)
      → ((x : A) → q x ≡ true → P x → Q (f x))
      → ((x : A) → q x ≡ false → P x → Q x)
      → All P xs
      → All Q (update_where q f xs)
  All-update_where P Q q f [] i j h = tt
  All-update_where P Q q f (x ∷ xs) i j h = elim (Bool-cases (q x)) [
    | inl e ↦ rw e (i x e h.0, All-update_where P Q q f xs i j h.1)
    | inr e ↦ rw e (j x e h.0, All-update_where P Q q f xs i j h.1)
  ]

  -- A change that brings the rows of one condition into another.
  pub count_by-moved :
      (p q : A → Bool) (f : A → A) (xs : List A)
      → ((x : A) → q x ≡ true → p x ≡ false)
      → ((x : A) → q x ≡ true → p (f x) ≡ true)
      → count_by p (update_where q f xs) ≡ count_by p xs + count_by q xs
  count_by-moved p q f [] d e = refl
  count_by-moved p q f (x ∷ xs) d e = ground (arith, d x, e x, count_by-moved p q f xs d e)

  -- The rows of two conditions that exclude each other.
  pub find-removed :
      (p q : A → Bool) (xs : List A)
      → ((x : A) → p x ≡ true → q x ≡ false)
      → is_some (find p (select q xs)) ≡ false
  find-removed p q [] d = refl
  find-removed p q (x ∷ xs) d = ground (arith, d x, find-removed p q xs d)

  -- Where no row meets a condition, every row has what those that meet it have.
  none-All :
      (r m : A → Bool) (xs : List A) → count_by r xs ≡ 0 → All (λ x. r x ≡ true → m x ≡ true) xs
  none-All r m [] h = tt
  none-All r m (x ∷ xs) h = (λ k. ground (arith, k, h), none-All r m xs (ground (arith, h)))

  -- What holds of the row that was found holds of every row of a condition that only one meets.
  pub found-All :
      (q r m : A → Bool) (xs : List A) (y : A)
      → ((x : A) → q x ≡ true → r x ≡ true)
      → count_by r xs ≤ 1
      → find q xs ≡ some y
      → m y ≡ true
      → All (λ x. r x ≡ true → m x ≡ true) xs
  found-All q r m [] y i c h k = tt
  found-All q r m (x ∷ xs) y i c h k = elim (Bool-cases (q x)) [
    | inl e ↦
        let same : some x ≡ some y = rw e at h in
        let it : x ≡ y = cc in
        let meets : m x ≡ true = rw it k in
        (λ b. meets, none-All r m xs (ground (arith, c, e, i x)))
    | inr e ↦
        let found : find q xs ≡ some y = rw e at h in
        let one : 1 ≤ count_by r xs =
          omega (arith, one_row q xs (rw found refl), count_by-implied q r xs i) in
        (λ b. ground (arith, b, c, one), found-All q r m xs y i (ground (arith, c)) found k)
  ]

  pub All-every : (m : A → Bool) (xs : List A) → ((x : A) → m x ≡ true) → All (λ x. m x ≡ true) xs
  All-every m [] h = tt
  All-every m (x ∷ xs) h = (h x, All-every m xs h)
