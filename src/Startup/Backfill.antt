-- ===== src/Startup/Backfill.antt =====
-- backend/app/db.py: _backfill_run_names, which init_db calls at the start of the server. `day` is the
-- date of a timestamp as YYYYMMDD; a time that is missing or cannot be read is left out.
use mathlib.Core.Path.{subst}
use distributed_verification.Prelude.{
  ℕ, ◌+◌, ◌≡◌, refl, ap, sym, ◌∙◌, inl, inr, arith, Bool, true, false, ◌&&◌, ◌||◌, none, some, List,
  [], ◌∷◌, ◌++◌, Text, ◌==◌, ==_refl, ltb, leb, select, update, count, get_or, put, any, All,
  sort_by, any-sort_by, All-map, select-eq-nil, Bool-cases,
}
use distributed_verification.Model.{Run, Db}
use distributed_verification.Runs.Naming.{run_prefix, pad3}

abbrev pub is_unnamed : Run → Bool
is_unnamed r = elim r.run_name [ none ↦ true | some name ↦ false ]

-- `ORDER BY created_at, id`.
abbrev pub is_earlier : Run → Run → Bool
is_earlier r s = ltb r.created_at s.created_at || r.created_at == s.created_at && leb r.id s.id

abbrev pub set_name : ℕ → Text → List Run → List Run
set_name id name = update (λ (r : Run). r.id == id) (λ (r : Run). record r { run_name = some name })

module _ (day : ℕ → Text) where
  -- The loop over the rows, with `day_counter`.
  unfoldable pub backfill_rows : List Run → List (Text × ℕ) → List Run → List Run
  unfolding get_or put pad3
  backfill_rows [] counter runs = runs
  backfill_rows (r ∷ rows) counter runs =
      let n = get_or 0 (day r.created_at) counter + 1 in
      backfill_rows rows (put (day r.created_at) n counter)
        (set_name r.id (run_prefix (day r.created_at) ++ pad3 n) runs)

  unfoldable pub backfill_run_names : Db → Db
  unfolding backfill_rows sort_by
  backfill_run_names db = record db {
    runs = backfill_rows (sort_by is_earlier (select is_unnamed db.runs)) [] db.runs;
  }

-- A run that has no name is among the rows.
abbrev Covered : List Run → Run → Type 0
Covered rows r = is_unnamed r ≡ true → any (λ (s : Run). s.id == r.id) rows ≡ true

set_name-Covered :
    (s : Run) (rows : List Run) (name : Text) (runs : List Run)
    → All (Covered (s ∷ rows)) runs
    → All (Covered rows) (set_name s.id name runs)
set_name-Covered s rows name [] h = tt
set_name-Covered s rows name (r ∷ runs) h = elim (Bool-cases (r.id == s.id)) [
  | inl e ↦ rw e ((λ none_left. cc), set_name-Covered s rows name runs h.1)
  | inr e ↦ rw e ((λ unnamed. ground (arith, h.0 unnamed)), set_name-Covered s rows name runs h.1)
]

module _ (day : ℕ → Text) where
  backfill_rows-named :
      (rows : List Run) (counter : List (Text × ℕ)) (runs : List Run)
      → All (Covered rows) runs
      → count is_unnamed (backfill_rows day rows counter runs) ≡ 0
  unfolding backfill_rows
  backfill_rows-named [] counter runs h = none_unnamed runs h
    where
      absurd_case : {A : Type 0} → false ≡ true → A
      absurd_case e = cc

      none_unnamed : (rs : List Run) → All (Covered []) rs → count is_unnamed rs ≡ 0
      none_unnamed [] k = refl
      none_unnamed (r ∷ rs) k = elim (Bool-cases (is_unnamed r)) [
        | inl e ↦ absurd_case (k.0 e)
        | inr e ↦ rw e (none_unnamed rs k.1)
      ]
  backfill_rows-named (s ∷ rows) counter runs h =
      backfill_rows-named rows _ _ (set_name-Covered s rows _ runs h)

covers_more : (s : Run) (rows : List Run) (r : Run) → Covered rows r → Covered (s ∷ rows) r
covers_more s rows r h unnamed = ground (arith, h unnamed)

select-Covered : (runs : List Run) → All (Covered (select is_unnamed runs)) runs
select-Covered [] = tt
select-Covered (r ∷ runs) =
    let all_rows : List Run → Type 0 = λ rows. All (Covered rows) (r ∷ runs) in
    let others = select-Covered runs in
    elim (Bool-cases (is_unnamed r)) [
      | inl e ↦ subst all_rows (sym (select-hit r runs e)) (
        (λ unnamed. rw (==_refl r.id) refl),
        All-map (covers_more r (select is_unnamed runs)) runs others,
      )
      | inr e ↦
          subst all_rows (sym (select-miss r runs e))
            ((λ unnamed. absurd_case (sym unnamed ∙ e)), others)
    ]
  where
    absurd_case : {A : Type 0} → true ≡ false → A
    absurd_case k = cc

    select-hit :
        (s : Run) (rs : List Run)
        → is_unnamed s ≡ true
        → select is_unnamed (s ∷ rs) ≡ s ∷ select is_unnamed rs
    select-hit s rs e = rw e refl

    select-miss :
        (s : Run) (rs : List Run)
        → is_unnamed s ≡ false
        → select is_unnamed (s ∷ rs) ≡ select is_unnamed rs
    select-miss s rs e = rw e refl

sort_by-Covered :
    (runs : List Run) → All (Covered (sort_by is_earlier (select is_unnamed runs))) runs
sort_by-Covered runs =
    let rows = select is_unnamed runs in
    All-map (λ r h unnamed. any-sort_by is_earlier (λ (s : Run). s.id == r.id) rows ∙ h unnamed)
      runs (select-Covered runs)

-- Behind the back-fill every run has a name, and another back-fill changes nothing.
pub backfill_run_names_idem :
    (day : ℕ → Text) (db : Db)
    → (count is_unnamed (backfill_run_names day db).runs ≡ 0)
      × (backfill_run_names day (backfill_run_names day db) ≡ backfill_run_names day db)
unfolding backfill_run_names
backfill_run_names_idem day db =
    let rows = sort_by is_earlier (select is_unnamed db.runs) in
    let runs = backfill_rows day rows [] db.runs in
    let named = backfill_rows-named day rows [] db.runs (sort_by-Covered db.runs) in
    (
      named,
      ap
          (λ (unnamed : List Run). record db {
            runs = backfill_rows day (sort_by is_earlier unnamed) [] runs;
          })
          (select-eq-nil is_unnamed runs named),
    )
