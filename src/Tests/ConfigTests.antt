-- ===== src/Tests/ConfigTests.antt =====
-- The theorems on the configurations at a small database.
use distributed_verification.Prelude.{◌≡◌, refl, none, some, [], ◌∷◌, codes, order_by}
use distributed_verification.Model.{OnFailure, Db}
use distributed_verification.Access.{ok}
use distributed_verification.Configs.{
  setup, StepCreate, ConfigCreate, ConfigUpdate, make_step, create_config, update_config,
  get_config, delete_config,
}
use distributed_verification.Configs.RoundTrip.{numbered, get_config-create_config}
use distributed_verification.Tests.Samples.{contended}

abbrev flash : StepCreate
flash = record {
  name = codes "flash";
  step_type = codes "command";
  command = codes "make flash";
  timeout = 60;
  on_failure = OnFailure.fail;
  env_vars = none;
}

abbrev boot : StepCreate
boot = record flash { name = codes "boot"; on_failure = OnFailure.continue }

abbrev board_setup : ConfigCreate
board_setup = record { name = codes "board"; description = codes ""; steps = flash ∷ boot ∷ [] }

get_config-create_config_example :
    let (id, after) = create_config setup board_setup contended in
    get_config setup id after
    ≡ ok (record { id = id; name = codes "board"; steps = numbered 0 (flash ∷ boot ∷ []) })
get_config-create_config_example = get_config-create_config setup board_setup contended refl refl

-- Two configurations, the first with a step.
abbrev configured : Db
configured = record contended {
  setup = record {
    configs =
        record { id = 50; name = codes "a"; description = codes "" }
        ∷ record { id = 51; name = codes "b"; description = codes "" }
        ∷ [];
    steps = record { id = 60; config_id = 50; step = make_step 0 flash } ∷ [];
  };
  next_id = 70;
}

abbrev new_boot : ConfigUpdate
new_boot = record { name = none; description = none; steps = some (boot ∷ []) }

abbrev rebooted : Db
rebooted = record configured {
  setup = record {
    configs = configured.setup.configs;
    steps = record { id = 70; config_id = 50; step = make_step 0 boot } ∷ [];
  };
  next_id = 71;
}

rebooted_lem : update_config setup 50 new_boot configured ≡ ok rebooted
unfolding update_config
rebooted_lem = refl

configured_lem :
    get_config setup 50 configured
    ≡ ok (record { id = 50; name = codes "a"; steps = make_step 0 flash ∷ [] })
unfolding get_config order_by
configured_lem = refl

abbrev cleared : Db
cleared = record configured {
  setup = record {
    configs = record { id = 51; name = codes "b"; description = codes "" } ∷ [];
    steps = [];
  };
}

cleared_lem : delete_config setup 50 configured ≡ ok cleared
unfolding delete_config
cleared_lem = refl
