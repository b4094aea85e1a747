-- ===== src/Streaming/Batches.antt =====
-- What the batches of a websocket carry, and what its queries find.
use mathlib.Core.List.{append-nil, append_assoc}
use distributed_verification.Prelude.{
  ℕ, ◌≡◌, refl, sym, ◌∙◌, ◌≤◌, ◌<◌, inl, inr, Bool, ◌&&◌, List, [], ◌∷◌, ◌++◌, map, arith, ltb,
  ◌==◌, All, All-map, All-append, IsSorted, select, select-append, All-select, Bool-cases,
}
use distributed_verification.Model.{LogEntry, Db}
use distributed_verification.Streaming.{LogData, Message, batch, done, to_data, last_of, batch_of}

-- The log of a run, and the entries that the messages carry.
abbrev pub log_of : ℕ → Db → List LogEntry
log_of run_id db = select (λ l. l.run_id == run_id) db.logs

abbrev pub received : List Message → List LogData
received [] = []
received (batch ls ∷ ms) = ls ++ received ms
received (done t status ∷ ms) = received ms

pub received-append : (ms ns : List Message) → received (ms ++ ns) ≡ received ms ++ received ns
received-append [] ns = refl
received-append (batch ls ∷ ms) ns =
    rw (received-append ms ns) (sym (append_assoc ls (received ms) (received ns)))
received-append (done t status ∷ ms) ns = received-append ms ns

pub received-batch_of : (ls : List LogEntry) → received (batch_of ls) ≡ map to_data ls
received-batch_of [] = refl
received-batch_of (l ∷ ls) = append-nil (map to_data (l ∷ ls))

pub select-and {ℓ} :
    {A : Type ℓ} (p q : A → Bool) (xs : List A)
    → select (λ x. p x && q x) xs ≡ select q (select p xs)
select-and p q [] = refl
select-and p q (x ∷ xs) = ground (arith, select-and p q xs)

-- The rows of a table that are new, and those that are not.
module _ {ℓ} {A : Type ℓ} (key : A → ℕ) (n : ℕ) where
  pub select-above : (xs : List A) → All (λ x. n < key x) xs → select (λ x. ltb n (key x)) xs ≡ xs
  select-above [] h = refl
  select-above (x ∷ xs) h = ground (arith, select-above xs h.1)

  pub select-below : (xs : List A) → All (λ x. key x ≤ n) xs → select (λ x. ltb n (key x)) xs ≡ []
  select-below [] h = refl
  select-below (x ∷ xs) h = ground (arith, select-below xs h.1)

  pub select-split :
      (xs ys : List A)
      → All (λ x. key x ≤ n) xs
      → All (λ y. n < key y) ys
      → select (λ x. ltb n (key x)) (xs ++ ys) ≡ ys
  select-split xs ys h k =
      select-append (λ x. ltb n (key x)) xs ys ∙ rw (select-below xs h, select-above ys k) refl

module _ {ℓ} {A : Type ℓ} (key : A → ℕ) where
  pub IsSorted-right : (xs ys : List A) → IsSorted key (xs ++ ys) → IsSorted key ys
  IsSorted-right [] ys h = h
  IsSorted-right (x ∷ xs) ys h = IsSorted-right xs ys h.1

  pub IsSorted-select : (p : A → Bool) (xs : List A) → IsSorted key xs → IsSorted key (select p xs)
  IsSorted-select p [] h = tt
  IsSorted-select p (x ∷ xs) h = elim (Bool-cases (p x)) [
    | inl e ↦ rw e (All-select (λ y. key x ≤ key y) p xs h.0, IsSorted-select p xs h.1)
    | inr e ↦ rw e (IsSorted-select p xs h.1)
  ]

pub All-right {ℓ κ} : {A : Type ℓ} (P : A → Type κ) (xs ys : List A) → All P (xs ++ ys) → All P ys
All-right P [] ys h = h
All-right P (x ∷ xs) ys h = All-right P xs ys h.1

pub IsSorted-append {ℓ} :
    {A : Type ℓ} (key : A → ℕ) (n : ℕ) (xs ys : List A)
    → IsSorted key xs
    → IsSorted key ys
    → All (λ x. key x < n) xs
    → All (λ y. n ≤ key y) ys
    → IsSorted key (xs ++ ys)
IsSorted-append key n [] ys h k a b = k
IsSorted-append key n (x ∷ xs) ys h k a b = (
  All-append (λ y. key x ≤ key y) xs ys h.0 (All-map (λ y le. omega arith) ys b),
  IsSorted-append key n xs ys h.1 k a.1 b,
)

-- The last id of sorted entries bounds them.
pub last_of-bounds :
    (n m : ℕ) (ls : List LogEntry)
    → IsSorted (λ (l : LogEntry). l.id) ls
    → All (λ l. n ≤ l.id) ls
    → All (λ l. l.id < m) ls
    → n < m
    → (n ≤ last_of n ls) × (last_of n ls < m) × All (λ l. l.id ≤ last_of n ls) ls
last_of-bounds n m [] h k b small = (omega arith, small, tt)
last_of-bounds n m (l ∷ ls) h k b small =
    let (low, high, bound) = last_of-bounds l.id m ls h.1 h.0 b.1 b.0 in
    (omega (arith, k.0, low), high, (low, bound))
