-- ===== src/Permission/Gate.antt =====
-- The gate and the batch of questions: crates/supra_permission/src/gate.rs.
pub mod Outcomes
pub mod Batches
use Prim.Native.String.{String}
use supra_harness.Prelude.{
  Bool, true, false, not, Option, none, some, List, [], ◌∷◌, Result, ok, err, find, if◌then◌else◌,
}
use mathlib.Core.Option
use supra_harness.Permission.Authority.{
  ToolClass, Invoker, Mode, Decision, run, prompt, refuse, permits, damped, decide, Reversibility,
}
use supra_harness.Permission.Rules.{
  Rule, RuleSource, RuleEffect, builtin, allow, deny, is_deny, resolve,
}
use supra_harness.Permission.Effect.{Effect, reversibility, is_structural, is_escape_hatch}

pub record Request : Type 0 where
  pub effect : Effect
  pub class : ToolClass
  pub invoker : Invoker
  pub summary : String

pub data AskReason : Type 0 where
  by_matrix by_escape_hatch : AskReason

pub data RefuseReason : Type 0 where
  by_rule : RuleSource → RefuseReason
  by_authority by_plan : RefuseReason
  not_answered : String → RefuseReason

pub data Outcome : Type 0 where
  runs : Outcome
  asks : Request → AskReason → Outcome
  refuses : RefuseReason → Outcome

-- `matches!(resolved, Some(effect))`
abbrev denied : Option RuleEffect → Bool
denied (some deny) = true
denied (some allow) = false
denied none = false

abbrev allowed : Option RuleEffect → Bool
allowed (some deny) = false
allowed (some allow) = true
allowed none = false

-- The first rule that denies, `Builtin` if there were none.
unfoldable pub denying_source : List Rule → RuleSource
denying_source rules = elim (find (λ rule. is_deny rule.effect) rules) [
  | none ↦ builtin
  | some rule ↦ rule.source
]

unfoldable pub effective : Request → Reversibility
unfolding reversibility is_structural damped
effective request =
    if is_structural request.effect
    then damped (reversibility request.effect)
    else reversibility request.effect

abbrev pub of_decision : Request → Decision → Outcome
of_decision request run = runs
of_decision request prompt = asks request by_matrix
of_decision request refuse = refuses by_plan

unfoldable pub gate : Request → Mode → List Rule → Outcome
unfolding denying_source effective decide
gate request mode rules =
    let resolved_rule = resolve rules in
    if denied resolved_rule
    then refuses (by_rule (denying_source rules))
    else if not (permits request.class request.invoker)
    then refuses by_authority
    else if is_escape_hatch request.effect
    then asks request by_escape_hatch
    else if allowed resolved_rule
    then runs
    else of_decision request (decide request.class request.invoker mode (effective request))

pub data PermissionError : Type 0 where
  denied_by : RuleSource → PermissionError
  empty_batch : PermissionError

-- The questions of a turn, in order; never empty when built by `collect`.
pub record Batch : Type 0 where
  pub items : List Request

unfoldable pub asked : List Outcome → List Request
asked [] = []
asked (asks request reason ∷ outcomes) = request ∷ asked outcomes
asked (runs ∷ outcomes) = asked outcomes
asked (refuses reason ∷ outcomes) = asked outcomes

unfoldable pub collect : List Outcome → Result PermissionError Batch
unfolding asked
collect outcomes = elim (asked outcomes) [
  | [] ↦ err empty_batch
  | request ∷ requests ↦ ok (record { items = request ∷ requests })
]

abbrev answered : Request → Bool → Outcome
answered request true = runs
answered request false = refuses (not_answered request.summary)

-- The zip of the items with the answers, which go on with `false` for ever.
unfoldable pub resolve_items : List Request → List Bool → List Outcome
resolve_items [] answers = []
resolve_items (request ∷ requests) [] = answered request false ∷ resolve_items requests []
resolve_items (request ∷ requests) (answer ∷ answers) =
    answered request answer ∷ resolve_items requests answers

unfoldable pub resolve_batch : Batch → List Bool → List Outcome
unfolding resolve_items
resolve_batch batch answers = resolve_items batch.items answers
