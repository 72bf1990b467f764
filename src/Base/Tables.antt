-- ===== src/Base/Tables.antt =====
-- Rows of a database table as a list: the first row that meets a condition, a change of the rows
-- that meet one, and the lemmas that relate them.
use Prim.Native.Nat.{ℕ, suc, ◌+◌}
use mathlib.Core.Path.{◌≡◌, refl}
use mathlib.Core.Bool.{Bool, true, false, ◌||◌}
use mathlib.Core.Option.{Option, none, some}
use mathlib.Core.List.{List, [], ◌∷◌, ◌++◌}
use native.Mathlib.Omega.{arith}
use flipradar.Base.Tests.{if◌then◌else◌, is_some}

module _ {ℓ} {A : Type ℓ} where
  abbrev pub length : List A → ℕ
  length [] = 0
  length (x ∷ xs) = suc (length xs)

  -- The rows that meet a condition, in order.
  abbrev pub select : (A → Bool) → List A → List A
  select p [] = []
  select p (x ∷ xs) = let rest = select p xs in if p x then x ∷ rest else rest

  -- `scalar_one_or_none` of a select whose condition is unique.
  abbrev pub find : (A → Bool) → List A → Option A
  find p [] = none
  find p (x ∷ xs) = if p x then some x else find p xs

  -- The number of rows that meet a condition.
  abbrev pub count_by : (A → Bool) → List A → ℕ
  count_by p [] = 0
  count_by p (x ∷ xs) = (if p x then 1 else 0) + count_by p xs

  -- Some row meets the condition.
  abbrev pub some_row : (A → Bool) → List A → Bool
  some_row p [] = false
  some_row p (x ∷ xs) = p x || some_row p xs

  -- A change of the rows that meet a condition.
  abbrev pub update_where : (A → Bool) → (A → A) → List A → List A
  update_where p f [] = []
  update_where p f (x ∷ xs) = (if p x then f x else x) ∷ update_where p f xs

  abbrev pub All {κ} : (A → Type κ) → List A → Type κ
  All P [] = Unit
  All P (x ∷ xs) = P x × All P xs

  pub All-append {κ} : (P : A → Type κ) (xs ys : List A) → All P xs → All P ys → All P (xs ++ ys)
  All-append P [] ys h k = k
  All-append P (x ∷ xs) ys h k = (h.0, All-append P xs ys h.1 k)

  pub find-append :
      (p : A → Bool) (xs ys : List A) (x : A) → find p xs ≡ some x → find p (xs ++ ys) ≡ some x
  find-append p [] ys x h = ground arith
  find-append p (y ∷ xs) ys x h = ground (arith, find-append p xs ys x)

  pub count_by-append :
      (p : A → Bool) (xs ys : List A) → count_by p (xs ++ ys) ≡ count_by p xs + count_by p ys
  count_by-append p [] ys = omega arith
  count_by-append p (x ∷ xs) ys = ground (arith, count_by-append p xs ys)

  -- An added row that meets the condition is found, or one before it is.
  pub is_some-find-append :
      (p : A → Bool) (xs : List A) (y : A) → p y ≡ true → is_some (find p (xs ++ (y ∷ []))) ≡ true
  is_some-find-append p [] y h = ground arith
  is_some-find-append p (x ∷ xs) y h = ground (arith, is_some-find-append p xs y h)

  -- What was found stays found when rows are added.
  pub is_some-find-append_left :
      (p : A → Bool) (xs ys : List A)
      → is_some (find p xs) ≡ true
      → is_some (find p (xs ++ ys)) ≡ true
  is_some-find-append_left p [] ys h = cc
  is_some-find-append_left p (x ∷ xs) ys h = ground (arith, is_some-find-append_left p xs ys)

  -- There is a value, and it is marked.
  abbrev pub is_marked : (A → Bool) → Option A → Bool
  is_marked m none = false
  is_marked m (some x) = m x

  pub is_marked-find-append :
      (m p : A → Bool) (xs ys : List A)
      → is_marked m (find p xs) ≡ true
      → is_marked m (find p (xs ++ ys)) ≡ true
  is_marked-find-append m p [] ys h = cc
  is_marked-find-append m p (x ∷ xs) ys h = ground (arith, is_marked-find-append m p xs ys)

  -- A change that keeps the condition, and unmarks no row.
  pub is_marked-find-update_where :
      (m p q : A → Bool) (f : A → A) (xs : List A)
      → ((x : A) → p (f x) ≡ p x)
      → ((x : A) → m x ≡ true → m (f x) ≡ true)
      → is_marked m (find p xs) ≡ true
      → is_marked m (find p (update_where q f xs)) ≡ true
  is_marked-find-update_where m p q f [] e g h = cc
  is_marked-find-update_where m p q f (x ∷ xs) e g h =
      ground (arith, e x, g x, is_marked-find-update_where m p q f xs e g)

  -- A change that marks the rows of a condition that the found row meets.
  pub is_marked-find-changed :
      (n m p : A → Bool) (f : A → A) (xs : List A)
      → ((x : A) → p (f x) ≡ p x)
      → ((x : A) → m (f x) ≡ true)
      → is_marked n (find p xs) ≡ true
      → is_marked m (find p (update_where n f xs)) ≡ true
  is_marked-find-changed n m p f [] e k h = cc
  is_marked-find-changed n m p f (x ∷ xs) e k h =
      ground (arith, e x, k x, is_marked-find-changed n m p f xs e k)

  -- A change of rows that keeps the condition keeps their number.
  pub count_by-update_where :
      (p q : A → Bool) (f : A → A) (xs : List A)
      → ((x : A) → p (f x) ≡ p x)
      → count_by p (update_where q f xs) ≡ count_by p xs
  count_by-update_where p q f [] e = refl
  count_by-update_where p q f (x ∷ xs) e = ground (arith, e x, count_by-update_where p q f xs e)

  -- A change of the rows of a condition after which none of them meets it.
  pub count_by-update_where_none :
      (p : A → Bool) (f : A → A) (xs : List A)
      → ((x : A) → p (f x) ≡ false)
      → count_by p (update_where p f xs) ≡ 0
  count_by-update_where_none p f [] e = refl
  count_by-update_where_none p f (x ∷ xs) e =
      ground (arith, e x, count_by-update_where_none p f xs e)

  pub select-update_where_none :
      (p : A → Bool) (f : A → A) (xs : List A)
      → ((x : A) → p (f x) ≡ false)
      → select p (update_where p f xs) ≡ []
  select-update_where_none p f [] e = refl
  select-update_where_none p f (x ∷ xs) e = ground (arith, e x, select-update_where_none p f xs e)

  -- A change after which what was marked in one way is marked in another.
  pub is_marked-find-turned :
      (n m p q : A → Bool) (f : A → A) (xs : List A)
      → ((x : A) → p (f x) ≡ p x)
      → ((x : A) → n x ≡ true → q x ≡ true → m (f x) ≡ true)
      → ((x : A) → n x ≡ true → q x ≡ false → m x ≡ true)
      → is_marked n (find p xs) ≡ true
      → is_marked m (find p (update_where q f xs)) ≡ true
  is_marked-find-turned n m p q f [] e k l h = cc
  is_marked-find-turned n m p q f (x ∷ xs) e k l h =
      ground (arith, e x, k x, l x, is_marked-find-turned n m p q f xs e k l)

  -- A change after which only rows meet a condition that did before.
  pub count_by-update_where_zero :
      (p q : A → Bool) (f : A → A) (xs : List A)
      → ((x : A) → p (f x) ≡ true → p x ≡ true)
      → count_by p xs ≡ 0
      → count_by p (update_where q f xs) ≡ 0
  count_by-update_where_zero p q f [] e h = refl
  count_by-update_where_zero p q f (x ∷ xs) e h =
      ground (arith, e x, count_by-update_where_zero p q f xs e)

  -- A change of other rows than those that are searched for.
  pub find-update_where_other :
      (p q : A → Bool) (f : A → A) (xs : List A)
      → ((x : A) → p x ≡ true → q x ≡ false)
      → ((x : A) → p (f x) ≡ p x)
      → find p (update_where q f xs) ≡ find p xs
  find-update_where_other p q f [] o e = refl
  find-update_where_other p q f (x ∷ xs) o e =
      ground (arith, o x, e x, find-update_where_other p q f xs o e)

  -- A change of the rows of a condition that marks the first of them.
  pub is_marked-find-update :
      (m p : A → Bool) (f : A → A) (xs : List A)
      → ((x : A) → p (f x) ≡ p x)
      → ((x : A) → m (f x) ≡ true)
      → is_some (find p xs) ≡ true
      → is_marked m (find p (update_where p f xs)) ≡ true
  is_marked-find-update m p f [] e k h = cc
  is_marked-find-update m p f (x ∷ xs) e k h =
      ground (arith, e x, k x, is_marked-find-update m p f xs e k)

  -- A row that is added is found if none was.
  pub is_marked-find-append_new :
      (m p : A → Bool) (xs : List A) (y : A)
      → is_some (find p xs) ≡ false
      → p y ≡ true
      → m y ≡ true
      → is_marked m (find p (xs ++ (y ∷ []))) ≡ true
  is_marked-find-append_new m p [] y h k e = ground arith
  is_marked-find-append_new m p (x ∷ xs) y h k e =
      ground (arith, is_marked-find-append_new m p xs y)
