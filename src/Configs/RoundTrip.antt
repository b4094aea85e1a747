-- ===== src/Configs/RoundTrip.antt =====
-- What is stored of a configuration is what is loaded.
use distributed_verification.Prelude.{
  ℕ, suc, ◌≡◌, refl, ◌≤◌, ◌+◌, sym, ap, ◌∙◌, Option, none, some, List, [], ◌∷◌, ◌++◌, map, ==_refl,
  select, delete, update, order_by, length, arith, All, IsSorted, order_by-eq_self, count,
  first-select_snoc, first-update_self, select-append, select-eq-nil, select-delete_self,
}
use distributed_verification.Model.{Step, StepRow, ConfigRow, ConfigTables, Db}
use distributed_verification.Access.{ok, not_found, or_raise, or_raise-eq-ok, >>=-eq-ok}
use distributed_verification.Runner.Steps.{Configuration}
use distributed_verification.Configs.{
  Kind, setup, teardown, tables_of, with_tables, StepCreate, ConfigCreate, ConfigUpdate, make_step,
  step_rows, is_config, is_step_of, find_config, load_config, create_config, or_old, set_columns,
  replace_steps, update_config, get_config,
}

-- The steps of a request, numbered from `i`.
abbrev pub numbered : ℕ → List StepCreate → List Step
numbered i [] = []
numbered i (s ∷ ss) = make_step i s ∷ numbered (suc i) ss

numbered_above : (i j : ℕ) (ss : List StepCreate) → j ≤ i → All (λ s. j ≤ s.order) (numbered i ss)
numbered_above i j [] h = tt
numbered_above i j (s ∷ ss) h = (h, numbered_above (suc i) j ss (omega arith))

numbered-IsSorted :
    (i : ℕ) (ss : List StepCreate) → IsSorted (λ (s : Step). s.order) (numbered i ss)
numbered-IsSorted i [] = tt
numbered-IsSorted i (s ∷ ss) =
    (numbered_above (suc i) i ss (omega arith), numbered-IsSorted (suc i) ss)

map-step_rows :
    (config_id i id : ℕ) (ss : List StepCreate)
    → map (λ (s : StepRow). s.step) (step_rows config_id i id ss) ≡ numbered i ss
unfolding step_rows
map-step_rows config_id i id [] = refl
map-step_rows config_id i id (s ∷ ss) =
    ap (λ rest. make_step i s ∷ rest) (map-step_rows config_id (suc i) (suc id) ss)

select-step_rows :
    (config_id i id : ℕ) (ss : List StepCreate)
    → select (is_step_of config_id) (step_rows config_id i id ss) ≡ step_rows config_id i id ss
unfolding step_rows
select-step_rows config_id i id [] = refl
select-step_rows config_id i id (s ∷ ss) = rw (==_refl config_id) (
    ap (λ rest. record { id = id; config_id = config_id; step = make_step i s } ∷ rest)
      (select-step_rows config_id (suc i) (suc id) ss))

-- Rows that are added for a configuration without steps are its steps.
select-added :
    (config_id i id : ℕ) (rows : List StepRow) (ss : List StepCreate)
    → select (is_step_of config_id) rows ≡ []
    → select (is_step_of config_id) (rows ++ step_rows config_id i id ss)
      ≡ step_rows config_id i id ss
select-added config_id i id rows ss none_yet =
    select-append (is_step_of config_id) rows (step_rows config_id i id ss)
    ∙ rw (none_yet, select-step_rows config_id i id ss) refl

load_config-rows :
    (id j : ℕ) (t : ConfigTables) (c : ConfigRow) (ss : List StepCreate)
    → find_config id t ≡ some c
    → select (is_step_of id) t.steps ≡ step_rows id 0 j ss
    → load_config id t ≡ some (record { id = c.id; name = c.name; steps = numbered 0 ss })
unfolding load_config
load_config-rows id j t c ss found rows =
    rw (found, load_config)
      (rw
        (
          rows,
          map-step_rows id 0 j ss,
          order_by-eq_self (λ (s : Step). s.order) (numbered 0 ss) (numbered-IsSorted 0 ss),
        )
        refl)

pub tables_of-with_tables :
    (kind : Kind) (t : ConfigTables) (n : ℕ) (db : Db)
    → tables_of kind (with_tables kind t n db) ≡ t
tables_of-with_tables setup t n db = refl
tables_of-with_tables teardown t n db = refl

-- A new configuration, whose id no row has before, is loaded with the name of the request and its
-- steps in the order of the request.
pub get_config-create_config :
    (kind : Kind) (payload : ConfigCreate) (db : Db)
    → count (is_config db.next_id) (tables_of kind db).configs ≡ 0
    → count (is_step_of db.next_id) (tables_of kind db).steps ≡ 0
    → let (id, after) = create_config kind payload db in
      get_config kind id after
      ≡ ok (record { id = id; name = payload.name; steps = numbered 0 payload.steps })
unfolding create_config get_config
get_config-create_config kind payload db no_config no_steps =
    let t = tables_of kind db in
    let row : ConfigRow = record {
      id = db.next_id;
      name = payload.name;
      description = payload.description;
    } in
    let stored : ConfigTables = record {
      configs = t.configs ++ row ∷ [];
      steps = t.steps ++ step_rows db.next_id 0 (suc db.next_id) payload.steps;
    } in
    let found =
      first-select_snoc (is_config db.next_id) t.configs row no_config (==_refl db.next_id) in
    let rows =
      select-added db.next_id 0 (suc db.next_id) t.steps payload.steps
        (select-eq-nil (is_step_of db.next_id) t.steps no_steps) in
    rw (tables_of-with_tables kind stored (suc db.next_id + length payload.steps) db)
      (rw (load_config-rows db.next_id (suc db.next_id) stored row payload.steps found rows) refl)

-- The steps after an update.
abbrev pub new_steps : Option (List StepCreate) → List Step → List Step
new_steps none old = old
new_steps (some steps) old = numbered 0 steps

-- The loaded steps of the rows of a configuration.
abbrev loaded_steps : ℕ → List StepRow → List Step
loaded_steps id rows =
    order_by (λ s. s.order) (map (λ (s : StepRow). s.step) (select (is_step_of id) rows))

loaded_steps-replace_steps :
    (id : ℕ) (steps : Option (List StepCreate)) (n : ℕ) (rows : List StepRow)
    → loaded_steps id (replace_steps id steps n rows).0 ≡ new_steps steps (loaded_steps id rows)
unfolding replace_steps
loaded_steps-replace_steps id none n rows = refl
loaded_steps-replace_steps id (some steps) n rows =
    rw
      (
        select-added id 0 n (delete (is_step_of id) rows) steps
            (select-delete_self (is_step_of id) rows),
        map-step_rows id 0 n steps,
      )
      (order_by-eq_self (λ (s : Step). s.order) (numbered 0 steps) (numbered-IsSorted 0 steps))

load_config-found :
    (id : ℕ) (t : ConfigTables) (c : ConfigRow)
    → find_config id t ≡ some c
    → load_config id t ≡ some (record { id = c.id; name = c.name; steps = loaded_steps id t.steps })
unfolding load_config
load_config-found id t c found = rw (found, load_config) refl

-- An update that succeeds changes the name and the steps that it gives, and no others.
pub get_config-update_config :
    (kind : Kind) (id : ℕ) (payload : ConfigUpdate) (db after : Db) (config : Configuration)
    → get_config kind id db ≡ ok config
    → update_config kind id payload db ≡ ok after
    → get_config kind id after
      ≡ ok (record config {
        name = or_old payload.name config.name;
        steps = new_steps payload.steps config.steps;
      })
unfolding update_config get_config
get_config-update_config kind id payload db after config before e =
    let t = tables_of kind db in
    let (c, found_ok, e₁) = >>=-eq-ok (or_raise (find_config id t) not_found) _ e in
    let found = or_raise-eq-ok (find_config id t) not_found found_ok in
    let (steps, n) = replace_steps id payload.steps db.next_id t.steps in
    let stored : ConfigTables = record {
      configs = update (is_config id) (set_columns payload) t.configs;
      steps = steps;
    } in
    let found' =
      first-update_self (is_config id) (set_columns payload) t.configs {x = c} (λ y. refl) found in
    let same : with_tables kind stored n db ≡ after = cc in
    let old : some (record { id = c.id; name = c.name; steps = loaded_steps id t.steps })
        ≡ some config =
      sym (load_config-found id t c found) ∙ or_raise-eq-ok (load_config id t) not_found before in
    let was : Configuration = record {
      id = c.id;
      name = c.name;
      steps = loaded_steps id t.steps;
    } in
    let was_config : was ≡ config = cc in
    rw (sym same) (
      rw (tables_of-with_tables kind stored n db) (
        rw
          (
            load_config-found id stored (set_columns payload c) found',
            loaded_steps-replace_steps id payload.steps db.next_id t.steps,
          )
          (ap
            (λ (k : Configuration). ok (record k {
              name = or_old payload.name k.name;
              steps = new_steps payload.steps k.steps;
            }))
            was_config)))
