-- ===== src/Base/Rows.antt =====
-- Database tables as lists of rows: the forms of SELECT, COUNT, UPDATE and DELETE that the queries
-- of internal/db use, over a Boolean WHERE clause.
use Prim.Native.Nat.{ℕ, zero, suc, ◌+◌, ◌≤◌}
use mathlib.Core.Path.{◌≡◌, refl, subst}
use mathlib.Core.Logic.{inl, inr}
use mathlib.Core.Bool.{Bool, true, false, ◌&&◌}
use mathlib.Core.Option.{Option, none, some, some-injective}
use mathlib.Core.List.{List, [], ◌∷◌, ◌++◌}
use native.Mathlib.Omega.{arith}
use brenox_engine.Base.Tests.{if◌then◌else◌, Bool-cases}

module _ {ℓ} {A : Type ℓ} where
  abbrev pub length : List A → ℕ
  length [] = 0
  length (x ∷ xs) = suc (length xs)

  -- The first row that fits.
  abbrev pub select : (A → Bool) → List A → Option A
  select p [] = none
  select p (x ∷ xs) = if p x then some x else select p xs

  abbrev pub select_all : (A → Bool) → List A → List A
  select_all p [] = []
  select_all p (x ∷ xs) = if p x then x ∷ select_all p xs else select_all p xs

  abbrev pub count : (A → Bool) → List A → ℕ
  count p [] = 0
  count p (x ∷ xs) = (if p x then 1 else 0) + count p xs

  abbrev pub update : (A → Bool) → (A → A) → List A → List A
  update p f [] = []
  update p f (x ∷ xs) = (if p x then f x else x) ∷ update p f xs

  abbrev pub delete : (A → Bool) → List A → List A
  delete p [] = []
  delete p (x ∷ xs) = if p x then delete p xs else x ∷ delete p xs

  -- LIMIT and OFFSET
  abbrev pub take : ℕ → List A → List A
  take zero xs = []
  take (suc n) [] = []
  take (suc n) (x ∷ xs) = x ∷ take n xs

  abbrev pub drop : ℕ → List A → List A
  drop zero xs = xs
  drop (suc n) [] = []
  drop (suc n) (x ∷ xs) = drop n xs

  -- ORDER BY, where `le` says which of two rows may come first
  abbrev pub insert_by : (A → A → Bool) → A → List A → List A
  insert_by le a [] = a ∷ []
  insert_by le a (x ∷ xs) = if le x a then x ∷ insert_by le a xs else a ∷ x ∷ xs

  abbrev pub sort_by : (A → A → Bool) → List A → List A
  sort_by le [] = []
  sort_by le (x ∷ xs) = insert_by le x (sort_by le xs)

  abbrev pub All {κ} : (A → Type κ) → List A → Type κ
  All P [] = Unit
  All P (x ∷ xs) = P x × All P xs

  pub length-select_all : (p : A → Bool) (xs : List A) → length (select_all p xs) ≡ count p xs
  length-select_all p [] = refl
  length-select_all p (x ∷ xs) = ground (arith, length-select_all p xs)

  pub count-append : (p : A → Bool) (xs ys : List A) → count p (xs ++ ys) ≡ count p xs + count p ys
  count-append p [] ys = omega arith
  count-append p (x ∷ xs) ys = omega (arith, count-append p xs ys)

  pub select-count : (p : A → Bool) (xs : List A) → select p xs ≡ none → count p xs ≡ 0
  select-count p [] h = refl
  select-count p (x ∷ xs) h = ground (arith, select-count p xs)

  pub count-pos : (p : A → Bool) (xs : List A) {a : A} → select p xs ≡ some a → 1 ≤ count p xs
  count-pos p [] h = absurd (ground arith)
  count-pos p (x ∷ xs) {a} h = ground (arith, count-pos p xs {a = a})

  pub select_fits : (p : A → Bool) (xs : List A) {a : A} → select p xs ≡ some a → p a ≡ true
  select_fits p [] h = absurd (ground arith)
  select_fits p (x ∷ xs) {a} h = ground (arith, select_fits p xs {a = a})

  pub count-update-eq :
      (q p : A → Bool) (f : A → A) (xs : List A)
      → ((x : A) → q (f x) ≡ q x)
      → count q (update p f xs) ≡ count q xs
  count-update-eq q p f [] h = refl
  count-update-eq q p f (x ∷ xs) h = ground (arith, h x, count-update-eq q p f xs h)

  -- An update that makes no new row fit.
  pub count-update-le :
      (q p : A → Bool) (f : A → A) (xs : List A)
      → ((x : A) → q (f x) ≡ true → q x ≡ true)
      → count q (update p f xs) ≤ count q xs
  count-update-le q p f [] h = omega arith
  count-update-le q p f (x ∷ xs) h = ground (arith, h x, count-update-le q p f xs h)

  -- An update after which the rows that it met no longer fit.
  pub count-update-out :
      (q p : A → Bool) (f : A → A) (xs : List A)
      → ((x : A) → p x ≡ true → q x ≡ true)
      → ((x : A) → q (f x) ≡ false)
      → count q (update p f xs) + count p xs ≡ count q xs
  count-update-out q p f [] h k = omega arith
  count-update-out q p f (x ∷ xs) h k = ground (arith, h x, k x, count-update-out q p f xs h k)

  pub count-le :
      (p q : A → Bool) (xs : List A) → ((x : A) → p x ≡ true → q x ≡ true) → count p xs ≤ count q xs
  count-le p q [] h = omega arith
  count-le p q (x ∷ xs) h = ground (arith, h x, count-le p q xs h)

  -- An update takes from the fitting rows those that it met and that no longer fit.
  pub count-update-drop :
      (q p : A → Bool) (f : A → A) (xs : List A)
      → ((x : A) → p x ≡ true → q (f x) ≡ false)
      → count q (update p f xs) + count (λ x. p x && q x) xs ≡ count q xs
  count-update-drop q p f [] h = omega arith
  count-update-drop q p f (x ∷ xs) h = ground (arith, h x, count-update-drop q p f xs h)

  pub count-select_all :
      (r q : A → Bool) (xs : List A) → count (λ x. r x && q x) xs ≡ count r (select_all q xs)
  count-select_all r q [] = refl
  count-select_all r q (x ∷ xs) = ground (arith, count-select_all r q xs)

  pub count_none : (p : A → Bool) (xs : List A) → count p xs ≡ 0 → select p xs ≡ none
  count_none p [] h = refl
  count_none p (x ∷ xs) h = ground (arith, count_none p xs)

  -- The row that is found counts under any further test that it passes.
  pub count_found :
      (p q : A → Bool) (xs : List A) (a : A)
      → select q xs ≡ some a
      → p a ≡ true
      → 1 ≤ count (λ x. p x && q x) xs
  count_found p q [] a h k = absurd (ground arith)
  count_found p q (x ∷ xs) a h k = ground (arith, count_found p q xs a)

  pub length-take : (n : ℕ) (xs : List A) → length (take n xs) ≤ n
  length-take zero xs = omega arith
  length-take (suc n) [] = omega arith
  length-take (suc n) (x ∷ xs) = omega (arith, length-take n xs)

  module _ {κ} (P : A → Type κ) where
    insert-All :
        (le : A → A → Bool) (a : A) (xs : List A) → P a → All P xs → All P (insert_by le a xs)
    insert-All le a [] p h = (p, tt)
    insert-All le a (x ∷ xs) p (q, h) = elim (Bool-cases (le x a)) [
      | inl e ↦ rw e (q, insert-All le a xs p h)
      | inr e ↦ rw e (p, (q, h))
    ]

    pub sort-All : (le : A → A → Bool) (xs : List A) → All P xs → All P (sort_by le xs)
    sort-All le [] h = tt
    sort-All le (x ∷ xs) (p, h) = insert-All le x (sort_by le xs) p (sort-All le xs h)

    pub select_all-All :
        (p : A → Bool) (xs : List A) → ((x : A) → p x ≡ true → P x) → All P (select_all p xs)
    select_all-All p [] h = tt
    select_all-All p (x ∷ xs) h = elim (Bool-cases (p x)) [
      | inl e ↦ rw e (h x e, select_all-All p xs h)
      | inr e ↦ rw e (select_all-All p xs h)
    ]

    pub All-take : (n : ℕ) (xs : List A) → All P xs → All P (take n xs)
    All-take zero xs h = tt
    All-take (suc n) [] h = tt
    All-take (suc n) (x ∷ xs) (p, h) = (p, All-take n xs h)

    pub All-drop : (n : ℕ) (xs : List A) → All P xs → All P (drop n xs)
    All-drop zero xs h = h
    All-drop (suc n) [] h = tt
    All-drop (suc n) (x ∷ xs) (p, h) = All-drop n xs h

  pub count-delete-le : (q p : A → Bool) (xs : List A) → count q (delete p xs) ≤ count q xs
  count-delete-le q p [] = omega arith
  count-delete-le q p (x ∷ xs) = ground (arith, count-delete-le q p xs)

  -- Rows that are not met stay.
  pub select-delete :
      (q p : A → Bool) (xs : List A)
      → ((x : A) → q x ≡ true → p x ≡ false)
      → select q (delete p xs) ≡ select q xs
  select-delete q p [] h = refl
  select-delete q p (x ∷ xs) h = ground (arith, h x, select-delete q p xs h)

  pub count_under :
      (p q : A → Bool) (xs : List A) {a : A} → select (λ x. p x && q x) xs ≡ some a → 1 ≤ count p xs
  count_under p q [] h = absurd (ground arith)
  count_under p q (x ∷ xs) {a} h = ground (arith, count_under p q xs {a = a})

  -- Two searches that narrow one test, which a single row passes, find the same row.
  pub select_one :
      (p q r : A → Bool) (xs : List A) {a b : A}
      → count p xs ≤ 1
      → select (λ x. p x && q x) xs ≡ some a
      → select (λ x. p x && r x) xs ≡ some b
      → a ≡ b
  select_one p q r [] h k l = absurd (ground arith)
  select_one p q r (x ∷ xs) {a} {b} h k l = ground (
    arith,
    select_one p q r xs {a = a} {b = b},
    count_under p q xs {a = a},
    count_under p r xs {a = b},
  )

  -- The row that is found after an UPDATE of the rows that fit.
  module _ {κ} (K : A → Type κ) (p : A → Bool) (f : A → A) (same : (x : A) → p (f x) ≡ p x)
      (made : (x : A) → K (f x)) where
    pub select-update_fits : (xs : List A) {a : A} → select p (update p f xs) ≡ some a → K a
    select-update_fits [] h = absurd (ground arith)
    select-update_fits (x ∷ xs) {a} h = elim (Bool-cases (p x)) [
      | inl e ↦ subst K (some-injective _ _ (rw (e, same x, e) at h)) (made x)
      | inr e ↦ select-update_fits xs (rw (e, e) at h)
    ]
