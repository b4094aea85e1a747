-- ===== src/Runs/Names.antt =====
-- The names of the runs of a client on one day.
use mathlib.Core.List.{append-nil}
use mathlib.Core.Path.{subst}
use distributed_verification.Prelude.{
  ℕ, suc, ◌+◌, ◌≡◌, refl, ap, sym, ◌∙◌, arith, Bool, true, false, not, ◌&&◌, inl, inr, Option, some,
  List, [], ◌∷◌, ◌++◌, Text, starts_with-append, ◌==◌, ==_refl, ==_iff, length, select,
  select-append, delete, count, count-append, count-select, Bool-cases,
}
use distributed_verification.Model.{Client, Run, Db}
use distributed_verification.Purge.{delete_runs}
use distributed_verification.Runner.Processes.{mem_id}
use distributed_verification.Runs.{new_run, add_run}
use distributed_verification.Runs.Naming.{run_prefix, pad3, named_today, generate_run_name}

-- A run that is made for the client is one of its runs of the day, and not one of another client's.
new_run-named_today :
    (now : ℕ) (today : Text) (client : Client) (tests : List Text) (setup teardown : Option ℕ)
    (remark : Option Text) (db : Db) (client_id : ℕ)
    → named_today today client_id (new_run now today client tests setup teardown remark db)
      ≡ (client.id == client_id)
unfolding new_run generate_run_name
new_run-named_today now today client tests setup teardown remark db client_id =
    rw
      (starts_with-append (run_prefix today)
        (pad3 (count (named_today today client.id) db.runs + 1)))
      (and_true (client.id == client_id))
  where
    and_true : (b : Bool) → (b && true) ≡ b
    and_true true = refl
    and_true false = refl

-- The runs whose names are numbered from `k` on, in their order.
abbrev pub IsNumbered : Text → ℕ → List Run → Type 0
IsNumbered today k [] = Unit
IsNumbered today k (r ∷ rs) =
    (r.run_name ≡ some (run_prefix today ++ pad3 k)) × IsNumbered today (k + 1) rs

IsNumbered-append :
    (today : Text) (k : ℕ) (rs : List Run) (r : Run)
    → IsNumbered today k rs
    → r.run_name ≡ some (run_prefix today ++ pad3 (length rs + k))
    → IsNumbered today k (rs ++ r ∷ [])
IsNumbered-append today k [] r h e =
    (e ∙ ap (λ n. some (run_prefix today ++ pad3 n)) (omega arith), tt)
IsNumbered-append today k (s ∷ rs) r h e = (
  h.0,
  IsNumbered-append today (k + 1) rs r h.1
      (e ∙ ap (λ n. some (run_prefix today ++ pad3 n)) (omega arith)),
)

-- The table behind one more run, by whether it is one of those that are looked for.
select-add_run_hit :
    (p : Run → Bool) (run : Run) (db : Db)
    → p run ≡ true
    → select p (add_run run db).runs ≡ select p db.runs ++ run ∷ []
select-add_run_hit p run db e = select-append p db.runs (run ∷ []) ∙ rw e refl

select-add_run_miss :
    (p : Run → Bool) (run : Run) (db : Db)
    → p run ≡ false
    → select p (add_run run db).runs ≡ select p db.runs
select-add_run_miss p run db e = select-append p db.runs (run ∷ []) ∙ rw e (append-nil _)

-- As long as no run is deleted, the runs of a client on a day are numbered from 1 on, in the order in
-- which they are made, whatever runs other clients make.
pub new_run-IsNumbered :
    (now : ℕ) (today : Text) (client : Client) (tests : List Text) (setup teardown : Option ℕ)
    (remark : Option Text) (db : Db) (client_id : ℕ)
    → IsNumbered today 1 (select (named_today today client_id) db.runs)
    → IsNumbered today 1 (
        select
          (named_today today client_id)
          (add_run (new_run now today client tests setup teardown remark db) db).runs)
unfolding new_run generate_run_name
new_run-IsNumbered now today client tests setup teardown remark db client_id h =
    let p = named_today today client_id in
    let run = new_run now today client tests setup teardown remark db in
    let ours = new_run-named_today now today client tests setup teardown remark db client_id in
    elim (Bool-cases (client.id == client_id)) [
      | inr other ↦ subst (IsNumbered today 1) (sym (select-add_run_miss p run db (ours ∙ other))) h
      | inl same ↦ subst (IsNumbered today 1) (sym (select-add_run_hit p run db (ours ∙ same))) (
          IsNumbered-append today 1 (select p db.runs) run h (
            ap (λ c. some (run_prefix today ++ pad3 (count (named_today today c) db.runs + 1)))
              ((==_iff client.id client_id).0 same)
            ∙ ap (λ n. some (run_prefix today ++ pad3 (n + 1))) (sym (count-select p db.runs))))
    ]

-- A run is deleted from among the earlier ones of the client on the day: the next run gets the name
-- of the one before, which is still there.
pub generate_run_name_repeats :
    (now : ℕ) (today : Text) (client : Client) (tests : List Text) (setup teardown : Option ℕ)
    (remark : Option Text) (db : Db) (ids : List ℕ)
    → mem_id db.next_id ids ≡ false
    → count (named_today today client.id) db.runs
      ≡ suc (count (named_today today client.id) (delete (λ r. mem_id r.id ids) db.runs))
    → let run = new_run now today client tests setup teardown remark db in
      let later = delete_runs ids (add_run run db) in
      (later.runs ≡ delete (λ r. mem_id r.id ids) db.runs ++ run ∷ [])
      × (run.run_name ≡ some (generate_run_name today client.id later))
unfolding generate_run_name delete_runs new_run
generate_run_name_repeats now today client tests setup teardown remark db ids kept gone =
    let p = named_today today client.id in
    let run = new_run now today client tests setup teardown remark db in
    let left = delete (λ (r : Run). mem_id r.id ids) db.runs in
    let rows : (delete_runs ids (add_run run db)).runs ≡ left ++ run ∷ [] =
      select-add_run_hit (λ (r : Run). not (mem_id r.id ids)) run db (ap not kept) in
    let ours : p run ≡ true =
      new_run-named_today now today client tests setup teardown remark db client.id
      ∙ ==_refl client.id in
    let same : count p db.runs ≡ count p (left ++ run ∷ []) =
      rw (count-append p left (run ∷ []), ours) (gone ∙ omega arith) in
    (rows, ap (λ n. some (run_prefix today ++ pad3 (n + 1))) (same ∙ ap (count p) (sym rows)))
