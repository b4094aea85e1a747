-- ===== src/Configs/Deleted.antt =====
-- What is left when a configuration is deleted, and what the changes of one leave of the others.
use distributed_verification.Prelude.{
  ℕ, ◌≡◌, refl, ◌≢◌, sym, true, none, [], ◌∷◌, delete, arith, select-delete_self, select-delete_ne,
}
use distributed_verification.Model.{Step, ConfigTables, Db}
use distributed_verification.Access.{ok, not_found, or_raise, >>=-eq-ok}
use distributed_verification.Runner.Steps.{Outcome, Event, execute_setup_steps}
use distributed_verification.Configs.{
  Kind, setup, tables_of, with_tables, is_config, is_step_of, find_config, load_config,
  delete_config,
}
use distributed_verification.Configs.RoundTrip.{tables_of-with_tables}

-- The tables without a configuration and its steps.
abbrev without : ℕ → ConfigTables → ConfigTables
without id t = record {
  configs = delete (is_config id) t.configs;
  steps = delete (is_step_of id) t.steps;
}

tables_of-deleted :
    (kind : Kind) (id : ℕ) (db after : Db)
    → delete_config kind id db ≡ ok after
    → tables_of kind after ≡ without id (tables_of kind db)
unfolding delete_config
tables_of-deleted kind id db after e =
    let t = tables_of kind db in
    let (c, _, e₁) = >>=-eq-ok (or_raise (find_config id t) not_found) _ e in
    let same : with_tables kind (without id t) db.next_id db ≡ after = cc in
    rw (sym same) (tables_of-with_tables kind (without id t) db.next_id db)

load_config-without : (id : ℕ) (t : ConfigTables) → load_config id (without id t) ≡ none
unfolding load_config
load_config-without id t = rw (select-delete_self (is_config id) t.configs, load_config) refl

-- A setup configuration that is deleted counts as a setup that passes: a run that still names it
-- starts no step, and its tests go on.
pub execute_setup_steps_deleted :
    (world : Step → Outcome) (run_id id : ℕ) (db after : Db)
    → delete_config setup id db ≡ ok after
    → execute_setup_steps world run_id id (load_config id after.setup) after
      ≡ (true, Event.config_missing id ∷ [], after)
unfolding execute_setup_steps
execute_setup_steps_deleted world run_id id db after e =
    let gone = tables_of-deleted setup id db after e in
    rw gone (rw (load_config-without id db.setup) refl)

-- A deletion leaves every other configuration as it is loaded.
load_config-delete_config :
    (kind : Kind) (id other : ℕ) (db after : Db)
    → other ≢ id
    → delete_config kind id db ≡ ok after
    → load_config other (tables_of kind after) ≡ load_config other (tables_of kind db)
unfolding load_config
load_config-delete_config kind id other db after ne e =
    let t = tables_of kind db in
    let configs =
      select-delete_ne (is_config other) (is_config id) t.configs (λ c h. ground arith) in
    let steps = select-delete_ne (is_step_of other) (is_step_of id) t.steps (λ s h. ground arith) in
    rw (tables_of-deleted kind id db after e) (rw (configs, steps) refl)
