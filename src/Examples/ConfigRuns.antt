-- ===== src/Examples/ConfigRuns.antt =====
-- A user's, a project's and a session's layer, resolved: crates/supra_config/src/resolve.rs.
use supra_harness.Prelude.{◌≡◌, refl, max, none, some, [], ◌∷◌}
use supra_harness.Permission.Authority.{ask, yolo}
use supra_harness.Config.Layer.{
  ConfigLayer, user, project, session, budget_of, limit_of, threshold_of, is_operator_controlled,
}
use supra_harness.Config.Resolve.{
  Layers, resolve, builtin_config, to_config, source_of, find_source, thinking_setting,
  cohort_setting, mode_setting, threshold_setting, strictness, sort_layers, sort_into, apply_layers,
  apply_layer, tighten_all, tighten, insert_providers, sourced,
}
use supra_harness.Config.Precedence.{
  winner, or_default, plain, operator_mode, resolved_by_precedence,
}
use supra_harness.Config.Trust.{strictest_asked, mode_narrowed}

abbrev silent : ConfigLayer
silent = record {
  thinking = none;
  cohort = none;
  permission = none;
  prompt = none;
  providers = none;
}

abbrev session_layer : ConfigLayer
session_layer = record silent { permission = some (record { mode = some yolo }) }

abbrev project_layer : ConfigLayer
project_layer = record silent {
  cohort = some (record { limit = some 4 });
  permission = some (record { mode = some ask });
}

abbrev user_layer : ConfigLayer
user_layer = record silent {
  thinking = some (record { budget = some 2000 });
  cohort = some (record { limit = some 8 });
}

-- The session asks for everything; the project is stricter, so that its mode holds.
abbrev three_layers : Layers
three_layers = (session, session_layer) ∷ (project, project_layer) ∷ (user, user_layer) ∷ []

three_resolved :
    sourced (resolve three_layers).permission_mode (source_of (resolve three_layers) mode_setting)
    ≡ sourced ask project
unfolding resolve to_config source_of find_source sort_layers sort_into apply_layers apply_layer
    tighten_all tighten insert_providers strictness is_operator_controlled builtin_config
three_resolved = refl

resolved_by_precedence_example :
    let config = resolve three_layers in
    (sourced config.thinking_budget (source_of config thinking_setting)
      ≡ or_default builtin_config.thinking_budget (winner (plain budget_of) three_layers))
    × (sourced config.cohort_limit (source_of config cohort_setting)
        ≡ or_default builtin_config.cohort_limit (winner (plain limit_of) three_layers))
    × (sourced config.compaction_threshold_percent (source_of config threshold_setting)
        ≡ or_default builtin_config.threshold (winner (plain threshold_of) three_layers))
resolved_by_precedence_example = resolved_by_precedence three_layers

mode_narrowed_example :
    strictness (resolve three_layers).permission_mode
    ≡ max
        (strictness
          (or_default builtin_config.permission_mode (winner operator_mode three_layers)).value)
        (strictest_asked three_layers)
mode_narrowed_example = mode_narrowed three_layers
