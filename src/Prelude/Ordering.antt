-- ===== src/Prelude/Ordering.antt =====
-- Sorting by any order, given as a Boolean test that is total and transitive.
use Prim.Native.Nat.{ℕ, zero, suc, ◌≤◌}
use mathlib.Core.Path.{◌≡◌, refl}
use mathlib.Core.Logic.{inl, inr}
use mathlib.Core.Bool.{Bool, true, false, ◌||◌}
use mathlib.Core.List.{List, [], ◌∷◌}
use native.Mathlib.Omega.{arith}
use distributed_verification.Prelude.Tests.{if◌then◌else◌, Bool-cases, leb}
use distributed_verification.Prelude.Tables.{count}
use distributed_verification.Prelude.Lists.{length, take, drop, any, All, All-take, All-drop}

pub record OrderLaws {ℓ} {A : Type ℓ} (before : A → A → Bool) : Type ℓ where
  pub total : (x y : A) → before x y ≡ false → before y x ≡ true
  pub trans : (x y z : A) → before x y ≡ true → before y z ≡ true → before x z ≡ true

module _ {ℓ} {A : Type ℓ} (before : A → A → Bool) where
  unfoldable pub insert_before : A → List A → List A
  insert_before x [] = x ∷ []
  insert_before x (y ∷ ys) =
      let rest = insert_before x ys in if before x y then x ∷ y ∷ ys else y ∷ rest

  -- `ORDER BY` with any order.
  unfoldable pub sort_by : List A → List A
  unfolding insert_before
  sort_by [] = []
  sort_by (x ∷ xs) = insert_before x (sort_by xs)

  abbrev pub IsOrdered : List A → Type 0
  IsOrdered [] = Unit
  IsOrdered (x ∷ xs) = All (λ y. before x y ≡ true) xs × IsOrdered xs

  All-insert_before {κ} :
      (P : A → Type κ) (x : A) (xs : List A) → P x → All P xs → All P (insert_before x xs)
  unfolding insert_before
  All-insert_before P x [] h hs = (h, tt)
  All-insert_before P x (y ∷ ys) h hs = ground (arith, All-insert_before P x ys h hs.1)

  pub All-sort_by {κ} : (P : A → Type κ) (xs : List A) → All P xs → All P (sort_by xs)
  unfolding sort_by
  All-sort_by P [] h = tt
  All-sort_by P (x ∷ xs) h = All-insert_before P x (sort_by xs) h.0 (All-sort_by P xs h.1)

  any-insert_before :
      (p : A → Bool) (x : A) (xs : List A) → any p (insert_before x xs) ≡ (p x || any p xs)
  unfolding insert_before
  any-insert_before p x [] = refl
  any-insert_before p x (y ∷ ys) = ground (arith, any-insert_before p x ys)

  pub any-sort_by : (p : A → Bool) (xs : List A) → any p (sort_by xs) ≡ any p xs
  unfolding sort_by
  any-sort_by p [] = refl
  any-sort_by p (x ∷ xs) = ground (arith, any-insert_before p x (sort_by xs), any-sort_by p xs)

  count-insert_before :
      (p : A → Bool) (x : A) (xs : List A) → count p (insert_before x xs) ≡ count p (x ∷ xs)
  unfolding insert_before
  count-insert_before p x [] = refl
  count-insert_before p x (y ∷ ys) = ground (arith, count-insert_before p x ys)

  pub count-sort_by : (p : A → Bool) (xs : List A) → count p (sort_by xs) ≡ count p xs
  unfolding sort_by
  count-sort_by p [] = refl
  count-sort_by p (x ∷ xs) =
      ground (arith, count-insert_before p x (sort_by xs), count-sort_by p xs)

  -- What is taken from the front of an ordered list is before all that is left.
  pub All-take-drop :
      (n : ℕ) (xs : List A)
      → IsOrdered xs
      → All (λ x. All (λ y. before x y ≡ true) (drop n xs)) (take n xs)
  All-take-drop zero xs h = tt
  All-take-drop (suc n) [] h = tt
  All-take-drop (suc n) (x ∷ xs) h =
      (All-drop (λ y. before x y ≡ true) n xs h.0, All-take-drop n xs h.1)

  pub IsOrdered-take : (n : ℕ) (xs : List A) → IsOrdered xs → IsOrdered (take n xs)
  IsOrdered-take zero xs h = tt
  IsOrdered-take (suc n) [] h = tt
  IsOrdered-take (suc n) (x ∷ xs) h =
      (All-take (λ y. before x y ≡ true) n xs h.0, IsOrdered-take n xs h.1)

  module _ (laws : OrderLaws before) where
    All-before :
        (x y : A) (ys : List A)
        → before x y ≡ true
        → All (λ z. before y z ≡ true) ys
        → All (λ z. before x z ≡ true) ys
    All-before x y [] h hs = tt
    All-before x y (z ∷ zs) h hs = (laws.trans x y z h hs.0, All-before x y zs h hs.1)

    insert_before-IsOrdered : (x : A) (xs : List A) → IsOrdered xs → IsOrdered (insert_before x xs)
    unfolding insert_before
    insert_before-IsOrdered x [] h = (tt, tt)
    insert_before-IsOrdered x (y ∷ ys) h = elim (Bool-cases (before x y)) [
      | inl e ↦ rw e ((e, All-before x y ys e h.0), h)
      | inr e ↦ rw e (
        All-insert_before (λ z. before y z ≡ true) x ys (laws.total x y e) h.0,
        insert_before-IsOrdered x ys h.1,
      )
    ]

    pub sort_by-IsOrdered : (xs : List A) → IsOrdered (sort_by xs)
    unfolding sort_by
    sort_by-IsOrdered [] = tt
    sort_by-IsOrdered (x ∷ xs) = insert_before-IsOrdered x (sort_by xs) (sort_by-IsOrdered xs)

pub length-take-le {ℓ} : {A : Type ℓ} (n : ℕ) (xs : List A) → length (take n xs) ≤ n
length-take-le zero xs = omega arith
length-take-le (suc n) [] = omega arith
length-take-le (suc n) (x ∷ xs) = omega (arith, length-take-le n xs)

-- `ORDER BY key DESC`.
abbrev pub is_newer {ℓ} : {A : Type ℓ} → (A → ℕ) → A → A → Bool
is_newer key x y = leb (key y) (key x)

pub is_newer-OrderLaws {ℓ} : {A : Type ℓ} (key : A → ℕ) → OrderLaws (is_newer key)
is_newer-OrderLaws key = record { total = λ x y h. ground arith; trans = λ x y z h k. ground arith }
