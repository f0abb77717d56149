-- ===== src/Examples/EphemeralRuns.antt =====
-- Edits of the ephemeral block in two orders: crates/supra_types/src/ephemeral.rs.
use supra_harness.Prelude.{◌≡◌, refl, none, List, [], ◌∷◌}
use supra_harness.Prelude.OrdMap.{insert, remove}
use supra_harness.Prelude.OrdMap
use supra_harness.Ephemeral.{
  EphemeralKey, timestamp, working_dir, git_branch, git_clean, context_percent, permission_mode,
  sandbox_tier, todo_state, cohort_size, new_block, set, get, clear, render,
}
use supra_harness.Ephemeral.Views.{
  Edit, was_set, was_cleared, edit, edit_all, edited, edits_refined,
}
use supra_harness.Ephemeral.Rendering.{rendered_by_values}

abbrev forward : List Edit
forward = was_set timestamp (49 ∷ []) ∷ was_set permission_mode (97 ∷ []) ∷ []

abbrev backward : List Edit
backward =
    was_set permission_mode (98 ∷ [])
    ∷ was_set cohort_size (51 ∷ [])
    ∷ was_set permission_mode (97 ∷ [])
    ∷ was_set timestamp (49 ∷ [])
    ∷ was_cleared cohort_size
    ∷ []

forward-backward :
    (key : EphemeralKey)
    → get (edit_all new_block forward) key ≡ get (edit_all new_block backward) key
unfolding edit_all edit new_block set get clear insert remove OrdMap.get
forward-backward timestamp = refl
forward-backward working_dir = refl
forward-backward git_branch = refl
forward-backward git_clean = refl
forward-backward context_percent = refl
forward-backward permission_mode = refl
forward-backward sandbox_tier = refl
forward-backward todo_state = refl
forward-backward cohort_size = refl

rendered_by_values_example :
    (edit_all new_block forward ≡ edit_all new_block backward)
    × (render (edit_all new_block forward) ≡ render (edit_all new_block backward))
rendered_by_values_example = rendered_by_values forward backward forward-backward

edits_refined_example :
    get (edit_all new_block backward) cohort_size ≡ edited (λ k. none) backward cohort_size
edits_refined_example = edits_refined backward cohort_size
