-- ===== src/Permission/Gate/Outcomes.antt =====
-- What the gate lets run, asks about and refuses.
use supra_harness.Prelude.{
  ℕ, ◌≡◌, ◌≢◌, ◌≤◌, ◌↔◌, ◌⊎◌, Bool, true, false, List, [], ◌∷◌, ◌++◌, any, arith,
}
use supra_harness.Permission.Authority.{
  Mode, run, permits, decide, mode_rank, mode_decide, mode_decide_mono,
}
use supra_harness.Permission.Rules.{Rule, deny, is_deny, resolve_exact}
use supra_harness.Permission.Effect.{is_escape_hatch}
use supra_harness.Permission.Gate.{
  Request, Outcome, runs, asks, refuses, by_rule, gate, effective, denying_source,
}

abbrev pub has_deny : List Rule → Bool
has_deny rules = any (λ rule. is_deny rule.effect) rules

-- A request runs without a question exactly when no rule denies it, its invoker may call the tool,
-- it does not disable a protection, and either some rule (then an allow) speaks for it or the mode
-- runs effects of its reversibility.
pub gate_runs :
    (request : Request) (mode : Mode) (rules : List Rule)
    → (gate request mode rules ≡ runs) ↔ (
        (has_deny rules ≡ false)
        × (permits request.class request.invoker ≡ true)
        × (is_escape_hatch request.effect ≡ false)
        × ((rules ≢ []) ⊎ (mode_decide mode (effective request) ≡ run)))
unfolding gate decide
gate_runs request mode rules = ground (arith, resolve_exact rules)

denying_source-append :
    (before : List Rule) (rule : Rule) (after : List Rule)
    → has_deny before ≡ false
    → rule.effect ≡ deny
    → (denying_source (before ++ rule ∷ after) ≡ rule.source)
      × (has_deny (before ++ rule ∷ after) ≡ true)
unfolding denying_source
denying_source-append [] rule after h d = ground arith
denying_source-append (r ∷ before) rule after h d =
    ground (arith, denying_source-append before rule after)

-- A deny refuses every request in every mode, whatever rules stand around it, and the refusal names
-- the source of the first rule that denies.
pub gate_denied :
    (request : Request) (mode : Mode) (before : List Rule) (rule : Rule) (after : List Rule)
    → has_deny before ≡ false
    → rule.effect ≡ deny
    → gate request mode (before ++ rule ∷ after) ≡ refuses (by_rule rule.source)
unfolding gate
gate_denied request mode before rule after h d =
    ground (arith, denying_source-append before rule after, resolve_exact (before ++ rule ∷ after))

-- What an outcome lets through: a refusal is the least.
abbrev pub outcome_rank : Outcome → ℕ
outcome_rank (refuses reason) = 0
outcome_rank (asks request reason) = 1
outcome_rank runs = 2

-- A more permissive mode never makes the gate stricter: plan, ask, auto, yolo in this order.
pub gate_mono :
    (request : Request) (m n : Mode) (rules : List Rule)
    → mode_rank m ≤ mode_rank n
    → outcome_rank (gate request m rules) ≤ outcome_rank (gate request n rules)
unfolding gate decide
gate_mono request m n rules h =
    ground (arith, mode_decide_mono m n (effective request) (effective request))
