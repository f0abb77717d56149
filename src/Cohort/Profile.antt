-- ===== src/Cohort/Profile.antt =====
-- `TaskProfile` of crates/supra_cohort/src/profile.rs: how often a shape of task has failed.
use supra_harness.Prelude.{ℕ, ◌+◌, ◌≡◌, arith, leb, if◌then◌else◌}
use supra_harness.Cohort.Tier.{Tier, e0, e5}
use supra_harness.Cohort.Signals.{Signals}
use supra_harness.Cohort.Score.{AreaFlags, estimate}

pub record TaskProfile : Type 0 where
  pub repeat_failures : ℕ
  pub last_tier : Tier

unfoldable pub fresh : TaskProfile
fresh = record { repeat_failures = 0; last_tier = e0 }

unfoldable pub succeeded : TaskProfile → Tier → TaskProfile
succeeded p tier = record p { repeat_failures = 0; last_tier = tier }

-- Saturates at two failures.
unfoldable pub failed : TaskProfile → Tier → TaskProfile
failed p tier = record p {
  repeat_failures = if leb 2 p.repeat_failures then 2 else p.repeat_failures + 1;
  last_tier = tier;
}

-- Whatever a profile held before, after two failures in a row its counter is exactly two, and a task
-- with that counter is scored into the highest tier whatever the other evidence.
pub failed_twice :
    (p : TaskProfile) (t u : Tier) (s : Signals) (f : AreaFlags)
    → s.repeat_failures ≡ (failed (failed p t) u).repeat_failures
    → (estimate s f ≡ e5) × (s.repeat_failures ≡ 2)
unfolding failed estimate
failed_twice p t u s f h = ground arith
