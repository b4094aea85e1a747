-- ===== src/Configs.antt =====
-- backend/app/api/routes.py: the setup and teardown configurations. The endpoints of the two kinds
-- differ in their tables only. The listings are left out.
pub mod RoundTrip
pub mod Deleted
use distributed_verification.Prelude.{
  ℕ, suc, ◌+◌, Bool, Option, none, some, List, [], ◌∷◌, ◌++◌, map, Text, ◌==◌, first, select,
  delete, update, order_by, length,
}
use distributed_verification.Model.{OnFailure, Step, StepRow, ConfigRow, ConfigTables, Db}
use distributed_verification.Access.{Result, ok, not_found, ◌>>=◌, or_raise}
use distributed_verification.Runner.Steps.{Configuration}

pub data Kind : Type 0 where
  setup teardown : Kind

abbrev pub tables_of : Kind → Db → ConfigTables
tables_of setup db = db.setup
tables_of teardown db = db.teardown

abbrev pub with_tables : Kind → ConfigTables → ℕ → Db → Db
with_tables setup t next_id db = record db { setup = t; next_id = next_id }
with_tables teardown t next_id db = record db { teardown = t; next_id = next_id }

-- SetupStepCreate, TeardownStepCreate.
pub record StepCreate : Type 0 where
  pub name : Text
  pub step_type : Text
  pub command : Text
  pub timeout : ℕ
  pub on_failure : OnFailure
  pub env_vars : Option (List (Text × Text))

pub record ConfigCreate : Type 0 where
  pub name : Text
  pub description : Text
  pub steps : List StepCreate

pub record ConfigUpdate : Type 0 where
  pub name : Option Text
  pub description : Option Text
  pub steps : Option (List StepCreate)

-- `order=i`: the place in the request.
abbrev pub make_step : ℕ → StepCreate → Step
make_step i s = record {
  name = s.name;
  step_type = s.step_type;
  command = s.command;
  timeout = s.timeout;
  order = i;
  on_failure = s.on_failure;
  env_vars = s.env_vars;
}

-- `for i, step_data in enumerate(payload.steps)`, from the index `i` and the next primary key.
unfoldable pub step_rows : ℕ → ℕ → ℕ → List StepCreate → List StepRow
step_rows config_id i id [] = []
step_rows config_id i id (s ∷ ss) =
    record { id = id; config_id = config_id; step = make_step i s }
    ∷ step_rows config_id (suc i) (suc id) ss

abbrev pub is_config : ℕ → ConfigRow → Bool
is_config id c = c.id == id

abbrev pub is_step_of : ℕ → StepRow → Bool
is_step_of config_id s = s.config_id == config_id

abbrev pub find_config : ℕ → ConfigTables → Option ConfigRow
find_config id t = first (select (is_config id) t.configs)

-- A configuration with `steps`, in the order of the relationship.
unfoldable pub load_rows : Option ConfigRow → List StepRow → Option Configuration
unfolding order_by
load_rows none rows = none
load_rows (some c) rows = some (record {
  id = c.id;
  name = c.name;
  steps = order_by (λ s. s.order) (map (λ (s : StepRow). s.step) rows);
})

unfoldable pub load_config : ℕ → ConfigTables → Option Configuration
unfolding load_rows
load_config id t = load_rows (find_config id t) (select (is_step_of id) t.steps)

-- The result is the id of the new configuration.
unfoldable pub create_config : Kind → ConfigCreate → Db → ℕ × Db
unfolding step_rows
create_config kind payload db =
    let t = tables_of kind db in
    let id = db.next_id in
    (
      id,
      with_tables kind
          (record {
            configs =
                t.configs
                ++ record { id = id; name = payload.name; description = payload.description } ∷ [];
            steps = t.steps ++ step_rows id 0 (suc id) payload.steps;
          })
          (suc id + length payload.steps) db,
    )

abbrev pub or_old : Option Text → Text → Text
or_old none old = old
or_old (some new) old = new

abbrev pub set_columns : ConfigUpdate → ConfigRow → ConfigRow
set_columns payload c = record c {
  name = or_old payload.name c.name;
  description = or_old payload.description c.description;
}

-- `if payload.steps is not None`: the old steps go, the new ones come.
unfoldable pub replace_steps : ℕ → Option (List StepCreate) → ℕ → List StepRow → List StepRow × ℕ
unfolding step_rows
replace_steps id none next_id rows = (rows, next_id)
replace_steps id (some steps) next_id rows =
    (delete (is_step_of id) rows ++ step_rows id 0 next_id steps, next_id + length steps)

unfoldable pub update_config : Kind → ℕ → ConfigUpdate → Db → Result Db
unfolding replace_steps
update_config kind id payload db = do
  let t = tables_of kind db
  config ← or_raise (find_config id t) not_found
  let (steps, next_id) = replace_steps id payload.steps db.next_id t.steps
  let configs = update (is_config id) (set_columns payload) t.configs
  ok (with_tables kind (record { configs = configs; steps = steps }) next_id db)

unfoldable pub get_config : Kind → ℕ → Db → Result Configuration
unfolding load_config
get_config kind id db = or_raise (load_config id (tables_of kind db)) not_found

unfoldable pub delete_config : Kind → ℕ → Db → Result Db
delete_config kind id db = do
  let t = tables_of kind db
  config ← or_raise (find_config id t) not_found
  ok (
      with_tables kind
        (record {
          configs = delete (is_config id) t.configs;
          steps = delete (is_step_of id) t.steps;
        })
        db.next_id db)

-- The endpoints of the teardown configurations.
abbrev pub create_teardown_config : ConfigCreate → Db → ℕ × Db
create_teardown_config payload db = create_config teardown payload db

abbrev pub get_teardown_config : ℕ → Db → Result Configuration
get_teardown_config id db = get_config teardown id db

abbrev pub update_teardown_config : ℕ → ConfigUpdate → Db → Result Db
update_teardown_config id payload db = update_config teardown id payload db

abbrev pub delete_teardown_config : ℕ → Db → Result Db
delete_teardown_config id db = delete_config teardown id db
