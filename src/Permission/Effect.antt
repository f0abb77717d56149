-- ===== src/Permission/Effect.antt =====
-- The catalogue of effects: crates/supra_permission/src/catalogue.rs.
use Prim.Native.String.{String}
use supra_harness.Prelude.{Bool, true, false}
use supra_harness.Permission.Authority.{Reversibility, r0, r1, r2, r3}

pub data RecoveryBasis : Type 0 where
  snapshot git_clean : RecoveryBasis

pub data Effect : Type 0 where
  read scratch_work blind_edit : Effect
  recoverable_edit structural_edit : RecoveryBasis → Effect
  outside_edit network_post force_push remove drop_data escape_hatch : String → Effect

unfoldable pub reversibility : Effect → Reversibility
reversibility read = r0
reversibility scratch_work = r0
reversibility (recoverable_edit basis) = r1
reversibility (structural_edit basis) = r1
reversibility blind_edit = r2
reversibility (outside_edit path) = r2
reversibility (network_post target) = r3
reversibility (force_push target) = r3
reversibility (remove target) = r3
reversibility (drop_data target) = r3
reversibility (escape_hatch what) = r3

unfoldable pub is_structural : Effect → Bool
is_structural (structural_edit basis) = true
is_structural _ = false

-- `matches!(effect, Effect::EscapeHatch { .. })`
abbrev pub is_escape_hatch : Effect → Bool
is_escape_hatch (escape_hatch what) = true
is_escape_hatch _ = false
