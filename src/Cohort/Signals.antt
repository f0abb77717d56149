-- ===== src/Cohort/Signals.antt =====
-- The evidence that a task is scored by: crates/supra_cohort/src/signals.rs.
use supra_harness.Prelude.{ℕ, leb, ◌==◌, ◌||◌, ◌&&◌, if◌then◌else◌}
use supra_harness.Permission.Authority.{Reversibility, r0}

pub data BlastBand : Type 0 where
  isolated contained wide : BlastBand

abbrev pub blast_rank : BlastBand → ℕ
blast_rank isolated = 0
blast_rank contained = 1
blast_rank wide = 2

unfoldable pub blast_of : ℕ → BlastBand
blast_of dependents =
    if dependents == 0 || dependents == 1
    then isolated
    else if leb 2 dependents && leb dependents 10
    then contained
    else wide

pub data ChurnBand : Type 0 where
  calm active hot : ChurnBand

abbrev pub churn_rank : ChurnBand → ℕ
churn_rank calm = 0
churn_rank active = 1
churn_rank hot = 2

unfoldable pub churn_of : ℕ → ChurnBand
churn_of commits_90d =
    if commits_90d == 0
    then calm
    else if leb 1 commits_90d && leb commits_90d 5
    then active
    else hot

pub data AnchorBand : Type 0 where
  no_anchors few many : AnchorBand

abbrev pub anchor_rank : AnchorBand → ℕ
anchor_rank no_anchors = 0
anchor_rank few = 1
anchor_rank many = 2

unfoldable pub anchors_of : ℕ → AnchorBand
anchors_of anchors =
    if anchors == 0 then no_anchors else if leb 1 anchors && leb anchors 4 then few else many

pub record Signals : Type 0 where
  pub blast : BlastBand
  pub churn : ChurnBand
  pub anchors : AnchorBand
  pub reversibility : Reversibility
  pub active_findings : ℕ
  pub repeat_failures : ℕ

unfoldable pub minimal : Signals
minimal = record {
  blast = isolated;
  churn = calm;
  anchors = no_anchors;
  reversibility = r0;
  active_findings = 0;
  repeat_failures = 0;
}
