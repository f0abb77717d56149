-- ===== src/Config/Layer.antt =====
-- Where a layer comes from and what it says: crates/supra_config/src/source.rs, layer.rs and the checks
-- of the scalars there. A layer is what is left after a file is decoded. The name of a provider is a
-- number, in the order of the names.
use Prim.Native.String.{String}
use supra_harness.Prelude.{
  ℕ, Bool, true, false, ◌&&◌, Option, none, some, List, [], ◌∷◌, Result, ok, err, leb,
  if◌then◌else◌,
}
use supra_harness.Prelude.OrdMap.{OrdMap}
use supra_harness.Permission.Authority.{Mode}
use supra_harness.Permission.Rules.{RuleSource}
use supra_harness.Permission.Rules
use supra_harness.Cohort.Quorum.{peer_ceiling}

pub data ConfigSource : Type 0 where
  builtin user project env cli session : ConfigSource

-- the derived order
abbrev pub source_rank : ConfigSource → ℕ
source_rank builtin = 0
source_rank user = 1
source_rank project = 2
source_rank env = 3
source_rank cli = 4
source_rank session = 5

abbrev pub all_sources : List ConfigSource
all_sources = builtin ∷ user ∷ project ∷ env ∷ cli ∷ session ∷ []

unfoldable pub is_operator_controlled : ConfigSource → Bool
is_operator_controlled builtin = true
is_operator_controlled user = true
is_operator_controlled project = false
is_operator_controlled env = true
is_operator_controlled cli = true
is_operator_controlled session = true

unfoldable pub corresponding_rule_source : ConfigSource → Option RuleSource
corresponding_rule_source builtin = some Rules.builtin
corresponding_rule_source user = some Rules.user_rule
corresponding_rule_source project = some Rules.project
corresponding_rule_source env = none
corresponding_rule_source cli = some Rules.cli
corresponding_rule_source session = some Rules.session

pub record ThinkingLayer : Type 0 where
  pub budget : Option ℕ

pub record CohortLayer : Type 0 where
  pub limit : Option ℕ

pub record PermissionLayer : Type 0 where
  pub mode : Option Mode

pub record PromptLayer : Type 0 where
  pub compaction_threshold_percent : Option ℕ

-- A literal credential cannot be decoded, so its two fields are never there.
pub record Provider : Type 0 where
  pub endpoint : Option String
  pub model : Option String
  pub api_key_env : Option String
  pub api_key_keyring : Option String

pub record ConfigLayer : Type 0 where
  pub thinking : Option ThinkingLayer
  pub cohort : Option CohortLayer
  pub permission : Option PermissionLayer
  pub prompt : Option PromptLayer
  pub providers : Option (OrdMap Provider)

-- `and_then`
abbrev pub and_then {ℓ κ} : {A : Type ℓ} {B : Type κ} → Option A → (A → Option B) → Option B
and_then none f = none
and_then (some a) f = f a

abbrev pub budget_of : ConfigLayer → Option ℕ
budget_of layer = and_then layer.thinking (λ t. t.budget)

abbrev pub limit_of : ConfigLayer → Option ℕ
limit_of layer = and_then layer.cohort (λ c. c.limit)

abbrev pub mode_of : ConfigLayer → Option Mode
mode_of layer = and_then layer.permission (λ p. p.mode)

abbrev pub threshold_of : ConfigLayer → Option ℕ
threshold_of layer = and_then layer.prompt (λ p. p.compaction_threshold_percent)

abbrev pub min_compaction_threshold_percent : ℕ
min_compaction_threshold_percent = 92

abbrev pub max_compaction_threshold_percent : ℕ
max_compaction_threshold_percent = 95

-- The setting that is out of range.
pub data RangeError : Type 0 where
  cohort_limit_range compaction_threshold_range : ConfigSource → RangeError

abbrev pub check_limit : ConfigSource → Option ℕ → Result RangeError (Unit {0})
check_limit source none = ok tt
check_limit source (some limit) =
    if leb 1 limit && leb limit peer_ceiling then ok tt else err (cohort_limit_range source)

unfoldable pub validate_cohort : ConfigLayer → ConfigSource → Result RangeError (Unit {0})
validate_cohort layer source = check_limit source (limit_of layer)

abbrev pub check_threshold : ConfigSource → Option ℕ → Result RangeError (Unit {0})
check_threshold source none = ok tt
check_threshold source (some threshold) =
    if leb min_compaction_threshold_percent threshold
      && leb threshold max_compaction_threshold_percent
    then ok tt
    else err (compaction_threshold_range source)

unfoldable pub validate_prompt : ConfigLayer → ConfigSource → Result RangeError (Unit {0})
validate_prompt layer source = check_threshold source (threshold_of layer)
