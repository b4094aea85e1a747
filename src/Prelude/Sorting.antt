-- ===== src/Prelude/Sorting.antt =====
-- `ORDER BY key` and `sorted(rows, key=...)`: a stable sort by a number.
use Prim.Native.Nat.{ℕ, suc, ◌≤◌}
use mathlib.Core.Path.{◌≡◌, refl, ap, ◌∙◌}
use mathlib.Core.Logic.{inl, inr}
use mathlib.Core.Bool.{Bool, true, false}
use mathlib.Core.List.{List, [], ◌∷◌, ◌++◌, Perm}
use mathlib.Core.List.Perm
use native.Mathlib.Omega.{arith}
use distributed_verification.Prelude.Tests.{if◌then◌else◌, leb, Bool-cases}
use distributed_verification.Prelude.Lists.{length, All}
use distributed_verification.Prelude.Tables.{count, delete}

module _ {ℓ} {A : Type ℓ} (key : A → ℕ) where
  unfoldable pub insert_by : A → List A → List A
  insert_by x [] = x ∷ []
  insert_by x (y ∷ ys) =
      let rest = insert_by x ys in if leb (key x) (key y) then x ∷ y ∷ ys else y ∷ rest

  unfoldable pub order_by : List A → List A
  unfolding insert_by
  order_by [] = []
  order_by (x ∷ xs) = insert_by x (order_by xs)

  -- Every row's key is at most the keys of the rows behind it.
  abbrev pub IsSorted : List A → Type 0
  IsSorted [] = Unit
  IsSorted (x ∷ xs) = All (λ y. key x ≤ key y) xs × IsSorted xs

  All-insert_by {κ} :
      (P : A → Type κ) (x : A) (xs : List A) → P x → All P xs → All P (insert_by x xs)
  unfolding insert_by
  All-insert_by P x [] h hs = (h, tt)
  All-insert_by P x (y ∷ ys) h hs = ground (arith, All-insert_by P x ys h hs.1)

  All-le_trans :
      (x y : A) (ys : List A)
      → key x ≤ key y
      → All (λ z. key y ≤ key z) ys
      → All (λ z. key x ≤ key z) ys
  All-le_trans x y [] h hs = tt
  All-le_trans x y (z ∷ zs) h hs = (omega arith, All-le_trans x y zs h hs.1)

  insert_by-IsSorted : (x : A) (xs : List A) → IsSorted xs → IsSorted (insert_by x xs)
  unfolding insert_by
  insert_by-IsSorted x [] h = (tt, tt)
  insert_by-IsSorted x (y ∷ ys) h = elim (Bool-cases (leb (key x) (key y))) [
    | inl e ↦ rw e ((ground arith, All-le_trans x y ys (ground arith) h.0), h)
    | inr e ↦
        rw e
          (All-insert_by (λ z. key y ≤ key z) x ys (ground arith) h.0, insert_by-IsSorted x ys h.1)
  ]

  pub order_by-IsSorted : (xs : List A) → IsSorted (order_by xs)
  unfolding order_by
  order_by-IsSorted [] = tt
  order_by-IsSorted (x ∷ xs) = insert_by-IsSorted x (order_by xs) (order_by-IsSorted xs)

  insert_by-eq-cons : (x : A) (xs : List A) → All (λ y. key x ≤ key y) xs → insert_by x xs ≡ x ∷ xs
  unfolding insert_by
  insert_by-eq-cons x [] h = refl
  insert_by-eq-cons x (y ∷ ys) h = ground arith

  pub order_by-eq_self : (xs : List A) → IsSorted xs → order_by xs ≡ xs
  unfolding order_by
  order_by-eq_self [] h = refl
  order_by-eq_self (x ∷ xs) h = rw (order_by-eq_self xs h.1) (insert_by-eq-cons x xs h.0)

  length-insert_by : (x : A) (xs : List A) → length (insert_by x xs) ≡ suc (length xs)
  unfolding insert_by
  length-insert_by x [] = refl
  length-insert_by x (y ∷ ys) = ground (arith, length-insert_by x ys)

  pub length-order_by : (xs : List A) → length (order_by xs) ≡ length xs
  unfolding order_by
  length-order_by [] = refl
  length-order_by (x ∷ xs) = omega (arith, length-insert_by x (order_by xs), length-order_by xs)

  insert_by-perm : (x : A) (xs : List A) → Perm (insert_by x xs) (x ∷ xs)
  unfolding insert_by
  insert_by-perm x [] = Perm.rfl
  insert_by-perm x (y ∷ ys) =
      let moved = Perm.trans (Perm.cons y (insert_by-perm x ys)) (Perm.swap x y ys) in
      ground (arith, moved, Perm.refl (x ∷ y ∷ ys))

  -- Sorting neither loses nor invents a row.
  pub order_by-perm : (xs : List A) → Perm (order_by xs) xs
  unfolding order_by
  order_by-perm [] = Perm.rfl
  order_by-perm (x ∷ xs) =
      Perm.trans (insert_by-perm x (order_by xs)) (Perm.cons x (order_by-perm xs))

  insert_by-snoc :
      (y : A) (zs : List A) (x : A)
      → key y ≤ key x
      → insert_by y (zs ++ x ∷ []) ≡ insert_by y zs ++ x ∷ []
  unfolding insert_by
  insert_by-snoc y [] x h = ground arith
  insert_by-snoc y (z ∷ zs) x h = ground (arith, insert_by-snoc y zs x h)

  -- A row with the greatest key goes to the end.
  pub order_by-snoc :
      (xs : List A) (x : A)
      → All (λ y. key y ≤ key x) xs
      → order_by (xs ++ x ∷ []) ≡ order_by xs ++ x ∷ []
  unfolding order_by
  order_by-snoc [] x h = refl
  order_by-snoc (y ∷ ys) x h = rw (order_by-snoc ys x h.1) (insert_by-snoc y (order_by ys) x h.0)

  module _ (q : A → Bool) where
    count-insert_by : (x : A) (xs : List A) → count q (insert_by x xs) ≡ count q (x ∷ xs)
    unfolding insert_by
    count-insert_by x [] = refl
    count-insert_by x (y ∷ ys) = ground (arith, count-insert_by x ys)

    pub count-order_by : (xs : List A) → count q (order_by xs) ≡ count q xs
    unfolding order_by
    count-order_by [] = refl
    count-order_by (x ∷ xs) = ground (arith, count-insert_by x (order_by xs), count-order_by xs)

    delete-insert_by_hit :
        (x : A) (xs : List A) → q x ≡ true → delete q (insert_by x xs) ≡ delete q xs
    unfolding insert_by
    delete-insert_by_hit x [] h = ground arith
    delete-insert_by_hit x (y ∷ ys) h = ground (arith, delete-insert_by_hit x ys h)

    All-delete {κ} : (P : A → Type κ) (xs : List A) → All P xs → All P (delete q xs)
    All-delete P [] h = tt
    All-delete P (x ∷ xs) h = ground (arith, All-delete P xs h.1)

    delete-insert_by_miss :
        (x : A) (xs : List A)
        → q x ≡ false
        → IsSorted xs
        → delete q (insert_by x xs) ≡ insert_by x (delete q xs)
    unfolding insert_by
    delete-insert_by_miss x [] h s = ground arith
    delete-insert_by_miss x (y ∷ ys) h s = elim (Bool-cases (leb (key x) (key y))) [
      | inl e ↦
          let above =
            All-delete (λ z. key x ≤ key z) (y ∷ ys)
              (ground arith, All-le_trans x y ys (ground arith) s.0) in
          rw e (ground (arith, insert_by-eq-cons x (delete q (y ∷ ys)) above))
      | inr e ↦ rw e (ground (arith, delete-insert_by_miss x ys h s.1))
    ]

    -- Sorting and deleting commute.
    pub delete-order_by : (xs : List A) → delete q (order_by xs) ≡ order_by (delete q xs)
    unfolding order_by
    delete-order_by [] = refl
    delete-order_by (x ∷ xs) = elim (Bool-cases (q x)) [
      | inl e ↦ rw e (delete-insert_by_hit x (order_by xs) e ∙ delete-order_by xs)
      | inr e ↦ rw e (
          delete-insert_by_miss x (order_by xs) e (order_by-IsSorted xs)
          ∙ ap (insert_by x) (delete-order_by xs))
    ]
