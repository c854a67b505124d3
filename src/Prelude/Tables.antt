-- ===== src/Prelude/Tables.antt =====
-- Database tables as lists of rows, and the calls of the Prisma client that the services make on
-- them. A row is selected by a Boolean test, the `where` of the call; a new row goes to the end.
use mathlib.Core.Path.{subst}
use lidar_dashboard.Prelude.{
  ℕ, ◌+◌, ◌≤◌, ◌≡◌, refl, inl, inr, Bool, true, false, Option, none, some, List, [], ◌∷◌, ◌++◌,
  arith, if◌then◌else◌, length, Bool-cases,
}

module _ {ℓ} {A : Type ℓ} where
  -- `findFirst` and `findUnique`.
  unfoldable pub find_by : (A → Bool) → List A → Option A
  find_by p [] = none
  find_by p (x ∷ xs) = if p x then some x else find_by p xs

  -- `updateMany`, and `update` of a unique row.
  unfoldable pub update_by : (A → Bool) → (A → A) → List A → List A
  update_by p f [] = []
  update_by p f (x ∷ xs) = (if p x then f x else x) ∷ update_by p f xs

  -- The `count` of an `updateMany` or a `deleteMany`.
  unfoldable pub count_by : (A → Bool) → List A → ℕ
  count_by p [] = 0
  count_by p (x ∷ xs) = (if p x then 1 else 0) + count_by p xs

  -- `deleteMany`.
  unfoldable pub delete_by : (A → Bool) → List A → List A
  delete_by p [] = []
  delete_by p (x ∷ xs) = if p x then delete_by p xs else x ∷ delete_by p xs

  -- `upsert` by a unique key.
  unfoldable pub upsert : (A → Bool) → (A → A) → A → List A → List A
  upsert p update create [] = create ∷ []
  upsert p update create (x ∷ xs) = if p x then update x ∷ xs else x ∷ upsert p update create xs

  unfoldable pub any_by : (A → Bool) → List A → Bool
  any_by p [] = false
  any_by p (x ∷ xs) = if p x then true else any_by p xs

  abbrev pub All {κ} : (A → Type κ) → List A → Type κ
  All P [] = Unit
  All P (x ∷ xs) = P x × All P xs

  -- What `find_by` finds passes the test.
  pub find_by_passes : (p : A → Bool) (xs : List A) (x : A) → find_by p xs ≡ some x → p x ≡ true
  unfolding find_by
  find_by_passes p [] x h = cc
  find_by_passes p (y ∷ xs) x h = ground (arith, find_by_passes p xs x)

  -- A property of all rows holds of the row that is found.
  pub All-find_by {κ} :
      (P : A → Type κ) (p : A → Bool) (xs : List A) (x : A) → All P xs → find_by p xs ≡ some x → P x
  unfolding find_by
  All-find_by P p [] x k h = absurd (cc)
  All-find_by P p (y ∷ xs) x k h = elim (Bool-cases (p y)) [
    | inl e ↦ let same : y ≡ x = ground arith in subst P same k.0
    | inr e ↦ All-find_by P p xs x k.1 (ground arith)
  ]

  -- An update that keeps the test's outcome is seen by the test in the found row alone.
  pub find_by-upsert_self :
      (p : A → Bool) (f : A → A) (c : A) (xs : List A)
      → ((x : A) → p x ≡ true → p (f x) ≡ true)
      → p c ≡ true
      → find_by p (upsert p f c xs) ≡ some (elim (find_by p xs) [ none ↦ c | some x ↦ f x ])
  unfolding find_by upsert
  find_by-upsert_self p f c [] keep pc = rw pc
  find_by-upsert_self p f c (x ∷ xs) keep pc = elim (Bool-cases (p x)) [
    | inl e ↦ rw (e, keep x e)
    | inr e ↦ rw (e, e) (find_by-upsert_self p f c xs keep pc)
  ]

-- What a row-wise update does to a search: the rows that pass are the same ones.
module _ {ℓ} {A : Type ℓ} where
  pub find_by-update_by :
      (p q : A → Bool) (f : A → A) (xs : List A)
      → ((x : A) → p (f x) ≡ p x)
      → find_by p (update_by q f xs)
        ≡ elim (find_by p xs) [ none ↦ none | some x ↦ some (if q x then f x else x) ]
  unfolding find_by update_by
  find_by-update_by p q f [] same = refl
  find_by-update_by p q f (x ∷ xs) same = ground (arith, same x, find_by-update_by p q f xs same)

  -- An upsert under one key leaves the search by another as it was.
  pub find_by-upsert_other :
      (p q : A → Bool) (f : A → A) (c : A) (xs : List A)
      → ((x : A) → p x ≡ true → q x ≡ false)
      → ((x : A) → p x ≡ true → q (f x) ≡ false)
      → q c ≡ false
      → find_by q (upsert p f c xs) ≡ find_by q xs
  unfolding find_by upsert
  find_by-upsert_other p q f c [] apart kept qc = rw qc
  find_by-upsert_other p q f c (x ∷ xs) apart kept qc = elim (Bool-cases (p x)) [
    | inl e ↦ rw (e, apart x e, kept x e)
    | inr e ↦ rw (e, find_by-upsert_other p q f c xs apart kept qc)
  ]

module _ {ℓ} {A : Type ℓ} where
  -- Nothing is found exactly where nothing is counted.
  pub count_by-none : (p : A → Bool) (xs : List A) → find_by p xs ≡ none → count_by p xs ≡ 0
  unfolding find_by count_by
  count_by-none p [] h = refl
  count_by-none p (x ∷ xs) h = ground (arith, count_by-none p xs)

  pub find_by-zero : (p : A → Bool) (xs : List A) → count_by p xs ≡ 0 → find_by p xs ≡ none
  unfolding find_by count_by
  find_by-zero p [] h = refl
  find_by-zero p (x ∷ xs) h = ground (arith, find_by-zero p xs)

  -- An update that keeps the test's outcome on the rows that it changes keeps the count.
  pub count_by-update_by :
      (p q : A → Bool) (f : A → A) (xs : List A)
      → All (λ x. q x ≡ true → p (f x) ≡ p x) xs
      → count_by p (update_by q f xs) ≡ count_by p xs
  unfolding count_by update_by
  count_by-update_by p q f [] h = refl
  count_by-update_by p q f (x ∷ xs) h = ground (arith, h.0, count_by-update_by p q f xs h.1)

  -- One that lets no new row pass does not raise it.
  pub count_by-update_by_le :
      (p q : A → Bool) (f : A → A) (xs : List A)
      → ((x : A) → p (f x) ≡ true → p x ≡ true)
      → count_by p (update_by q f xs) ≤ count_by p xs
  unfolding count_by update_by
  count_by-update_by_le p q f [] h = omega arith
  count_by-update_by_le p q f (x ∷ xs) h = ground (arith, h x, count_by-update_by_le p q f xs h)

module _ {ℓ} {A : Type ℓ} where
  -- The sum of a column.
  unfoldable pub sum_by : (A → ℕ) → List A → ℕ
  sum_by f [] = 0
  sum_by f (x ∷ xs) = f x + sum_by f xs

  -- An upsert that adds `k` to a row, or makes a row with `k`, adds `k` to the sum.
  pub sum_by-upsert :
      (f : A → ℕ) (k : ℕ) (p : A → Bool) (u : A → A) (c : A) (xs : List A)
      → ((x : A) → f (u x) ≡ f x + k)
      → f c ≡ k
      → sum_by f (upsert p u c xs) ≡ sum_by f xs + k
  unfolding sum_by upsert
  sum_by-upsert f k p u c [] adds made = omega (arith, made)
  sum_by-upsert f k p u c (x ∷ xs) adds made =
      ground (arith, adds x, sum_by-upsert f k p u c xs adds made)

  pub count_by-append :
      (p : A → Bool) (xs ys : List A) → count_by p (xs ++ ys) ≡ count_by p xs + count_by p ys
  unfolding count_by
  count_by-append p [] ys = omega arith
  count_by-append p (x ∷ xs) ys = omega (arith, count_by-append p xs ys)

module _ {ℓ} {A : Type ℓ} where
  pub length-update_by :
      (p : A → Bool) (f : A → A) (xs : List A) → length (update_by p f xs) ≡ length xs
  unfolding update_by
  length-update_by p f [] = refl
  length-update_by p f (x ∷ xs) = omega (arith, length-update_by p f xs)

  -- An upsert makes a row where the search found none.
  pub length-upsert :
      (p : A → Bool) (f : A → A) (c : A) (xs : List A)
      → length (upsert p f c xs) ≡ length xs + elim (find_by p xs) [ none ↦ 1 | some x ↦ 0 ]
  unfolding upsert find_by
  length-upsert p f c [] = refl
  length-upsert p f c (x ∷ xs) = elim (Bool-cases (p x)) [
    | inl e ↦ rw e (omega arith)
    | inr e ↦ rw e (omega (arith, length-upsert p f c xs))
  ]

module _ {ℓ} {A : Type ℓ} where
  -- What is found stays so when rows are added.
  pub find_by-append :
      (p : A → Bool) (xs ys : List A) (x : A)
      → find_by p xs ≡ some x
      → find_by p (xs ++ ys) ≡ some x
  unfolding find_by
  find_by-append p [] ys x h = absurd (cc)
  find_by-append p (y ∷ xs) ys x h = elim (Bool-cases (p y)) [
    | inl e ↦ rw e (rw e at h)
    | inr e ↦ rw e (find_by-append p xs ys x (rw e at h))
  ]

  pub All-append {κ} : (P : A → Type κ) (xs ys : List A) → All P xs → All P ys → All P (xs ++ ys)
  All-append P [] ys h k = k
  All-append P (x ∷ xs) ys h k = (h.0, All-append P xs ys h.1 k)

  pub All-update_by {κ} :
      (P : A → Type κ) (p : A → Bool) (f : A → A) (xs : List A)
      → ((x : A) → P x → P (f x))
      → All P xs
      → All P (update_by p f xs)
  unfolding update_by
  All-update_by P p f [] keep h = tt
  All-update_by P p f (x ∷ xs) keep h = elim (Bool-cases (p x)) [
    | inl e ↦ rw e (keep x h.0, All-update_by P p f xs keep h.1)
    | inr e ↦ rw e (h.0, All-update_by P p f xs keep h.1)
  ]
