-- ===== src/Examples/PermissionRuns.antt =====
-- Runs of crates/supra_types/src/permission.rs and of supra_permission.
use supra_harness.Prelude.{
  ◌≡◌, ◌≢◌, ◌↔◌, ◌⊎◌, refl, true, false, none, some, [], ◌∷◌, length, get_elem?,
}
use supra_harness.Permission.Authority.{agent, for_agent, ask, run, permits, mode_decide}
use supra_harness.Permission.Rules.{Rule, project, session, deny, allow}
use supra_harness.Permission.Effect.{force_push, is_escape_hatch}
use supra_harness.Permission.Gate.{
  Request, Batch, runs, refuses, not_answered, gate, effective, resolve_batch,
}
use supra_harness.Permission.Gate.Outcomes.{has_deny, gate_runs}
use supra_harness.Permission.Gate.Batches.{resolve_batch_exact}

abbrev push_request : Request
push_request = record {
  effect = force_push "main";
  class = for_agent;
  invoker = agent;
  summary = "push";
}

abbrev allow_session : Rule
allow_session = record { source = session; effect = allow }

abbrev deny_project : Rule
deny_project = record { source = project; effect = deny }

gate_runs_example : (gate push_request ask (allow_session ∷ []) ≡ runs) ↔ (
    (has_deny (allow_session ∷ []) ≡ false)
    × (permits for_agent agent ≡ true)
    × (is_escape_hatch (force_push "main") ≡ false)
    × (((allow_session ∷ []) ≢ []) ⊎ (mode_decide ask (effective push_request) ≡ run)))
gate_runs_example = gate_runs push_request ask (allow_session ∷ [])

abbrev two_questions : Batch
two_questions = record { items = push_request ∷ push_request ∷ [] }

-- The second of two questions is not answered.
resolve_batch_exact_example :
    (length (resolve_batch two_questions (true ∷ [])) ≡ 2)
    × (((get_elem? (resolve_batch two_questions (true ∷ [])) 1 ≡ some runs) × (none ≡ some true))
        ⊎ ((get_elem? (resolve_batch two_questions (true ∷ [])) 1
              ≡ some (refuses (not_answered "push")))
            × (none ≢ some true)))
resolve_batch_exact_example = resolve_batch_exact two_questions (true ∷ []) 1 push_request refl
