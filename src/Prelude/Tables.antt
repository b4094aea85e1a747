-- ===== src/Prelude/Tables.antt =====
-- Tables as lists of rows: what a SELECT, UPDATE or DELETE with a WHERE clause does to them.
use Prim.Native.Nat.{ℕ, suc, ◌+◌, ◌≤◌}
use mathlib.Core.Path.{◌≡◌, refl}
use mathlib.Core.Logic.{inl, inr}
use mathlib.Core.Bool.{Bool, true, false, not}
use mathlib.Core.List.{List, [], ◌∷◌, ◌++◌}
use mathlib.Core.Option.{none, some}
use native.Mathlib.Omega.{arith}
use distributed_verification.Prelude.Tests.{if◌then◌else◌, Bool-cases}
use distributed_verification.Prelude.Lists.{length, first, All}

module _ {ℓ} {A : Type ℓ} where
  abbrev pub select : (A → Bool) → List A → List A
  select p [] = []
  select p (x ∷ xs) = let rest = select p xs in if p x then x ∷ rest else rest

  abbrev pub delete : (A → Bool) → List A → List A
  delete p = select (λ x. not (p x))

  abbrev pub update : (A → Bool) → (A → A) → List A → List A
  update p f [] = []
  update p f (x ∷ xs) = (if p x then f x else x) ∷ update p f xs

  abbrev pub count : (A → Bool) → List A → ℕ
  count p [] = 0
  count p (x ∷ xs) = let rest = count p xs in if p x then suc rest else rest

  pub count-select : (p : A → Bool) (xs : List A) → length (select p xs) ≡ count p xs
  count-select p [] = refl
  count-select p (x ∷ xs) = ground (arith, count-select p xs)

  pub count-append : (p : A → Bool) (xs ys : List A) → count p (xs ++ ys) ≡ count p xs + count p ys
  count-append p [] ys = omega arith
  count-append p (x ∷ xs) ys = ground (arith, count-append p xs ys)

  pub count-eq-zero_of_first :
      (p : A → Bool) (xs : List A) → first (select p xs) ≡ none → count p xs ≡ 0
  count-eq-zero_of_first p [] h = refl
  count-eq-zero_of_first p (x ∷ xs) h = ground (arith, count-eq-zero_of_first p xs)

  pub first-eq-none_of_count :
      (p : A → Bool) (xs : List A) → count p xs ≡ 0 → first (select p xs) ≡ none
  first-eq-none_of_count p [] h = refl
  first-eq-none_of_count p (x ∷ xs) h = ground (arith, first-eq-none_of_count p xs)

  pub test-first : (p : A → Bool) (xs : List A) {x : A} → first (select p xs) ≡ some x → p x ≡ true
  test-first p [] h = cc
  test-first p (x ∷ xs) {x = y} h = ground (arith, test-first p xs {x = y})

  -- Rows that the update does not move in or out of `p`.
  pub count-update_same :
      (p q : A → Bool) (f : A → A) (xs : List A)
      → ((x : A) → p (f x) ≡ p x)
      → count p (update q f xs) ≡ count p xs
  count-update_same p q f [] h = refl
  count-update_same p q f (x ∷ xs) h = ground (arith, h x, count-update_same p q f xs h)

  pub count-update-le :
      (p q : A → Bool) (f : A → A) (xs : List A)
      → ((x : A) → p (f x) ≡ true → p x ≡ true)
      → count p (update q f xs) ≤ count p xs
  count-update-le p q f [] h = omega arith
  count-update-le p q f (x ∷ xs) h = elim (Bool-cases (q x)) [
    | inl e ↦ ground (arith, h x, count-update-le p q f xs h)
    | inr e ↦ ground (arith, count-update-le p q f xs h)
  ]

  pub count-delete-le : (p q : A → Bool) (xs : List A) → count p (delete q xs) ≤ count p xs
  count-delete-le p q [] = omega arith
  count-delete-le p q (x ∷ xs) = ground (arith, count-delete-le p q xs)

  pub count-delete_self : (p : A → Bool) (xs : List A) → count p (delete p xs) ≡ 0
  count-delete_self p [] = refl
  count-delete_self p (x ∷ xs) = ground (arith, count-delete_self p xs)

  pub length-update : (q : A → Bool) (f : A → A) (xs : List A) → length (update q f xs) ≡ length xs
  length-update q f [] = refl
  length-update q f (x ∷ xs) = omega (arith, length-update q f xs)

  pub All-select {κ} :
      (P : A → Type κ) (p : A → Bool) (xs : List A) → All P xs → All P (select p xs)
  All-select P p [] h = tt
  All-select P p (x ∷ xs) h = ground (arith, All-select P p xs h.1)

  -- Every row that is left passed the test.
  pub All-test : (p : A → Bool) (xs : List A) → All (λ x. p x ≡ true) (select p xs)
  All-test p [] = tt
  All-test p (x ∷ xs) = ground (arith, All-test p xs)

  pub select-append :
      (p : A → Bool) (xs ys : List A) → select p (xs ++ ys) ≡ select p xs ++ select p ys
  select-append p [] ys = refl
  select-append p (x ∷ xs) ys = ground (arith, select-append p xs ys)

  -- An update that takes the first row of `p₁` out of `p` lowers the count.
  pub count-update-lt :
      (p₁ p q : A → Bool) (f : A → A) (xs : List A) (x : A)
      → ((y : A) → p₁ y ≡ true → p y ≡ true)
      → ((y : A) → p (f y) ≡ false)
      → q x ≡ true
      → first (select p₁ xs) ≡ some x
      → suc (count p (update q f xs)) ≤ count p xs
  count-update-lt p₁ p q f [] x sub off hit h = cc
  count-update-lt p₁ p q f (y ∷ ys) x sub off hit h = elim (Bool-cases (p₁ y)) [
    | inl e ↦ ground (arith, sub y, off y, count-update-le p q f ys (λ z k. absurd_test (off z) k))
    | inr e ↦ ground (arith, off y, count-update-lt p₁ p q f ys x sub off hit)
  ]
    where
      absurd_test : {b : Bool} {C : Type 0} → b ≡ false → b ≡ true → C
      absurd_test e k = cc

  pub first-select_snoc :
      (p : A → Bool) (xs : List A) (x : A)
      → count p xs ≡ 0
      → p x ≡ true
      → first (select p (xs ++ x ∷ [])) ≡ some x
  first-select_snoc p [] x h k = ground arith
  first-select_snoc p (y ∷ ys) x h k = ground (arith, first-select_snoc p ys x)

  -- An update that takes rows out of `p` shows as a deletion.
  pub select-update :
      (p q : A → Bool) (f : A → A) (xs : List A)
      → ((y : A) → p (f y) ≡ false)
      → select p (update q f xs) ≡ delete q (select p xs)
  select-update p q f [] off = refl
  select-update p q f (y ∷ ys) off = elim (Bool-cases (q y)) [
    | inl e ↦ ground (arith, off y, select-update p q f ys off)
    | inr e ↦ ground (arith, off y, select-update p q f ys off)
  ]

  pub select-update_same :
      (p q : A → Bool) (f : A → A) (xs : List A)
      → ((y : A) → q y ≡ true → p y ≡ false)
      → ((y : A) → p (f y) ≡ p y)
      → select p (update q f xs) ≡ select p xs
  select-update_same p q f [] off same = refl
  select-update_same p q f (y ∷ ys) off same =
      ground (arith, off y, same y, select-update_same p q f ys off same)

  pub delete-eq_self : (q : A → Bool) (xs : List A) → count q xs ≡ 0 → delete q xs ≡ xs
  delete-eq_self q [] h = refl
  delete-eq_self q (y ∷ ys) h = ground (arith, delete-eq_self q ys)

  pub count-select-le : (p q : A → Bool) (xs : List A) → count q (select p xs) ≤ count q xs
  count-select-le p q [] = omega arith
  count-select-le p q (y ∷ ys) = ground (arith, count-select-le p q ys)

  pub count_mono :
      (p q : A → Bool) (xs : List A) → ((x : A) → p x ≡ true → q x ≡ true) → count p xs ≤ count q xs
  count_mono p q [] h = omega arith
  count_mono p q (x ∷ xs) h = ground (arith, h x, count_mono p q xs h)

  -- The first row of `p` after an update of the rows of `p`.
  pub first-update_self :
      (p : A → Bool) (f : A → A) (xs : List A) {x : A}
      → ((y : A) → p (f y) ≡ p y)
      → first (select p xs) ≡ some x
      → first (select p (update p f xs)) ≡ some (f x)
  first-update_self p f [] keep e = cc
  first-update_self p f (y ∷ ys) {x} keep e =
      ground (arith, keep y, first-update_self p f ys {x = x} keep)

  pub select-eq-nil : (p : A → Bool) (xs : List A) → count p xs ≡ 0 → select p xs ≡ []
  select-eq-nil p [] h = refl
  select-eq-nil p (x ∷ xs) h = ground (arith, select-eq-nil p xs)

  pub select-delete_self : (p : A → Bool) (xs : List A) → select p (delete p xs) ≡ []
  select-delete_self p [] = refl
  select-delete_self p (x ∷ xs) = ground (arith, select-delete_self p xs)

  -- A deletion of other rows.
  pub select-delete_ne :
      (p q : A → Bool) (xs : List A)
      → ((x : A) → p x ≡ true → q x ≡ false)
      → select p (delete q xs) ≡ select p xs
  select-delete_ne p q [] off = refl
  select-delete_ne p q (x ∷ xs) off = ground (arith, off x, select-delete_ne p q xs off)
