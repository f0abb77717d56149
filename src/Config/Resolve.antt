-- ===== src/Config/Resolve.antt =====
-- The resolution of the layers: crates/supra_config/src/resolve.rs.
use supra_harness.Prelude.{ℕ, ◌-◌, Option, none, some, List, [], ◌∷◌, leb, ltb, ◌==◌, if◌then◌else◌}
use supra_harness.Prelude.OrdMap.{OrdMap, get, insert}
use supra_harness.Permission.Authority.{Mode, auto, mode_rank}
use supra_harness.Cohort.Quorum.{default_peer_limit}
use supra_harness.Config.Layer.{
  ConfigSource, builtin, source_rank, is_operator_controlled, ConfigLayer, Provider, budget_of,
  limit_of, mode_of, threshold_of,
}

abbrev pub default_thinking_budget : ℕ
default_thinking_budget = 0

abbrev pub default_compaction_threshold_percent : ℕ
default_compaction_threshold_percent = 93

pub data Setting : Type 0 where
  thinking_setting cohort_setting mode_setting threshold_setting : Setting

-- A value and the layer that it comes from.
pub record Sourced (A : Type 0) : Type 0 where
  pub value : A
  pub source : ConfigSource

-- The variables of `resolve`.
pub record Resolving : Type 0 where
  pub thinking_budget : Sourced ℕ
  pub cohort_limit : Sourced ℕ
  pub permission_mode : Sourced Mode
  pub threshold : Sourced ℕ
  pub providers : OrdMap Provider
  pub provider_sources : OrdMap ConfigSource

pub record Config : Type 0 where
  pub thinking_budget : ℕ
  pub cohort_limit : ℕ
  pub permission_mode : Mode
  pub compaction_threshold_percent : ℕ
  pub providers : OrdMap Provider
  pub scalar_sources : List (Setting × ConfigSource)
  pub provider_sources : OrdMap ConfigSource

abbrev pub Layers : Type 0
Layers = List (ConfigSource × ConfigLayer)

abbrev pub sourced : {A : Type 0} → A → ConfigSource → Sourced A
sourced value source = record { value = value; source = source }

-- `sort_by_key`, which is stable.
unfoldable pub sort_into : ConfigSource × ConfigLayer → Layers → Layers
sort_into x [] = x ∷ []
sort_into x (y ∷ ys) =
    if leb (source_rank x.0) (source_rank y.0) then x ∷ y ∷ ys else y ∷ sort_into x ys

unfoldable pub sort_layers : Layers → Layers
unfolding sort_into
sort_layers [] = []
sort_layers (x ∷ xs) = sort_into x (sort_layers xs)

-- A later value replaces the earlier one.
abbrev pub set : {A : Type 0} → ConfigSource → Option A → Sourced A → Sourced A
set source none old = old
set source (some value) old = sourced value source

unfoldable pub strictness : Mode → ℕ
strictness mode = 3 - mode_rank mode

-- The providers of a layer, each replaced wholesale.
unfoldable pub insert_providers :
    ConfigSource
    → OrdMap Provider
    → OrdMap Provider × OrdMap ConfigSource
    → OrdMap Provider × OrdMap ConfigSource
insert_providers source [] sofar = sofar
insert_providers source ((name, provider) ∷ entries) (providers, sources) =
    insert_providers source entries (insert name provider providers, insert name source sources)

abbrev pub providers_of :
    ConfigSource
    → Option (OrdMap Provider)
    → OrdMap Provider × OrdMap ConfigSource
    → OrdMap Provider × OrdMap ConfigSource
providers_of source none sofar = sofar
providers_of source (some entries) sofar = insert_providers source entries sofar

-- One turn of the first loop. The mode of a layer that is not the operator's waits for the second.
unfoldable pub apply_layer : ConfigSource × ConfigLayer → Resolving → Resolving
unfolding is_operator_controlled insert_providers
apply_layer (source, layer) config =
    let (providers, sources) =
      providers_of source layer.providers (config.providers, config.provider_sources) in
    record {
      thinking_budget = set source (budget_of layer) config.thinking_budget;
      cohort_limit = set source (limit_of layer) config.cohort_limit;
      permission_mode =
          if is_operator_controlled source
          then set source (mode_of layer) config.permission_mode
          else config.permission_mode;
      threshold = set source (threshold_of layer) config.threshold;
      providers = providers;
      provider_sources = sources;
    }

abbrev pub narrow : ConfigSource → Option Mode → Sourced Mode → Sourced Mode
narrow source none current = current
narrow source (some requested) current =
    if ltb (strictness current.value) (strictness requested)
    then sourced requested source
    else current

-- One turn of the second loop, which can only narrow the mode.
unfoldable pub tighten : ConfigSource × ConfigLayer → Sourced Mode → Sourced Mode
unfolding is_operator_controlled strictness
tighten (source, layer) current =
    if is_operator_controlled source then current else narrow source (mode_of layer) current

unfoldable pub apply_layers : Layers → Resolving → Resolving
unfolding apply_layer
apply_layers [] config = config
apply_layers (x ∷ xs) config = apply_layers xs (apply_layer x config)

unfoldable pub tighten_all : Layers → Sourced Mode → Sourced Mode
unfolding tighten
tighten_all [] current = current
tighten_all (x ∷ xs) current = tighten_all xs (tighten x current)

unfoldable pub builtin_config : Resolving
builtin_config = record {
  thinking_budget = sourced default_thinking_budget builtin;
  cohort_limit = sourced default_peer_limit builtin;
  permission_mode = sourced auto builtin;
  threshold = sourced default_compaction_threshold_percent builtin;
  providers = [];
  provider_sources = [];
}

-- The `Config` at the end of `resolve`.
unfoldable pub to_config : Resolving → Config
to_config config = record {
  thinking_budget = config.thinking_budget.value;
  cohort_limit = config.cohort_limit.value;
  permission_mode = config.permission_mode.value;
  compaction_threshold_percent = config.threshold.value;
  providers = config.providers;
  scalar_sources =
      (thinking_setting, config.thinking_budget.source)
      ∷ (cohort_setting, config.cohort_limit.source)
      ∷ (mode_setting, config.permission_mode.source)
      ∷ (threshold_setting, config.threshold.source)
      ∷ [];
  provider_sources = config.provider_sources;
}

unfoldable pub resolve : Layers → Config
unfolding apply_layers tighten_all sort_layers builtin_config to_config
resolve layers =
    let ordered = sort_layers layers in
    let config = apply_layers ordered builtin_config in
    to_config (record config { permission_mode = tighten_all ordered config.permission_mode })

abbrev setting_rank : Setting → ℕ
setting_rank thinking_setting = 0
setting_rank cohort_setting = 1
setting_rank mode_setting = 2
setting_rank threshold_setting = 3

-- The first entry for the setting, and the builtin layer where there is none.
unfoldable pub find_source : Setting → List (Setting × ConfigSource) → ConfigSource
find_source setting [] = builtin
find_source setting ((candidate, source) ∷ sources) =
    let rest = find_source setting sources in
    if setting_rank candidate == setting_rank setting then source else rest

unfoldable pub source_of : Config → Setting → ConfigSource
unfolding find_source
source_of config setting = find_source setting config.scalar_sources

unfoldable pub provider_source : Config → ℕ → Option ConfigSource
provider_source config name = get name config.provider_sources
