-- ===== src/Examples.antt =====
-- The theorems at concrete inputs, and runs of the definitions, by part of the program.
mod CohortRuns
mod PermissionRuns
mod SegmentRuns
mod PromptRuns
mod BoardRuns
mod BusRuns
mod TurnRuns
mod VectorRuns
mod ConfigRuns
mod EvictionRuns
mod LineageRuns
mod EphemeralRuns
mod HookRuns
mod ShellRuns
