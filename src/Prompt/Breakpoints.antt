-- ===== src/Prompt/Breakpoints.antt =====
-- Cache breakpoints over a prefix: crates/supra_prompt/src/breakpoints.rs.
pub mod Planning
pub mod Validation
use supra_harness.Prelude.{
  ℕ, zero, suc, ◌+◌, Bool, true, false, Option, none, some, List, [], ◌∷◌, Result, ok, err, ltb,
  leb, if◌then◌else◌, length, drop, take,
}
use supra_harness.Caching.{
  Breakpoint, bp1_tools, bp2_system, bp3_memory_index, bp4_previous_turn, all_breakpoints,
  lookback_blocks,
}
use supra_harness.Segment.{
  Segment, SegmentKind, tool_manifest, system_contract, memory_index, turn_of, lookback_positions,
}
use supra_harness.Prompt.Sealed.{Sealed}
use supra_harness.Prompt.Error.{
  PromptError, Region, tools, system, memory, region_order, invalid_snapshot,
}

pub record Plan : Type 0 where
  pub bp1_tools : ℕ
  pub bp2_system : ℕ
  pub bp3_memory : ℕ
  pub bp4_previous : ℕ

unfoldable pub offsets : Plan → List ℕ
offsets p = p.bp1_tools ∷ p.bp2_system ∷ p.bp3_memory ∷ p.bp4_previous ∷ []

-- The three offsets that the walk over the segments has found so far.
pub record Regions : Type 0 where
  pub bp1 : ℕ
  pub bp2 : ℕ
  pub bp3 : ℕ

-- The body of the loop, for the segment at `index`.
unfoldable pub place : ℕ → Regions → SegmentKind → Result PromptError Regions
place index r tool_manifest =
    if ltb 0 r.bp2
    then err (region_order tools system)
    else if ltb 0 r.bp3
    then err (region_order tools memory)
    else ok (record r { bp1 = index + 1 })
place index r system_contract =
    if ltb 0 r.bp3 then err (region_order system memory) else ok (record r { bp2 = index + 1 })
place index r (memory_index entry) = ok (record r { bp3 = index + 1 })
place index r (turn_of turn role) = ok r

unfoldable pub walk : ℕ → Regions → List Sealed → Result PromptError Regions
unfolding place
walk index r [] = ok r
walk index r (entry ∷ entries) = elim (place index r entry.value.kind) [
  | err e ↦ err e
  | ok r' ↦ walk (suc index) r' entries
]

unfoldable pub plan_breakpoints_at : List Sealed → ℕ → Result PromptError Plan
unfolding walk
plan_breakpoints_at segments previous_turn_end =
    if ltb (length segments) previous_turn_end
    then err invalid_snapshot
    else elim (walk 0 (record { bp1 = 0; bp2 = 0; bp3 = 0 }) segments) [
      | err e ↦ err e
      | ok r ↦
          if ltb previous_turn_end r.bp3
          then err invalid_snapshot
          else ok (record {
            bp1_tools = r.bp1;
            bp2_system = r.bp2;
            bp3_memory = r.bp3;
            bp4_previous = previous_turn_end;
          })
    ]

unfoldable pub plan_breakpoints : List Sealed → Result PromptError Plan
unfolding plan_breakpoints_at
plan_breakpoints segments = plan_breakpoints_at segments (length segments)

-- A breakpoint at fault, or the panic of a slice that begins past the end.
pub data Fault : Type 0 where
  at_breakpoint : Breakpoint → Fault
  slice_panic : Fault

unfoldable pub sum_positions : List Sealed → ℕ
sum_positions [] = 0
sum_positions (entry ∷ entries) = lookback_positions entry.value + sum_positions entries

-- One round of the loop of `check_lookback`.
unfoldable pub check_offset : List Sealed → ℕ → Breakpoint → Result Fault (Unit {0})
unfolding sum_positions
check_offset segments offset breakpoint =
    if ltb (length segments) offset
    then err slice_panic
    else if ltb lookback_blocks (sum_positions (drop offset segments))
    then err (at_breakpoint breakpoint)
    else ok tt

abbrev then_check : Result Fault (Unit {0}) → Result Fault (Unit {0}) → Result Fault (Unit {0})
then_check (ok u) next = next
then_check (err e) next = err e

unfoldable pub check_lookback : Plan → List Sealed → Result Fault (Unit {0})
unfolding check_offset
check_lookback p segments = then_check (check_offset segments p.bp1_tools bp1_tools) (
    then_check (check_offset segments p.bp2_system bp2_system) (
      then_check (check_offset segments p.bp3_memory bp3_memory_index)
        (check_offset segments p.bp4_previous bp4_previous_turn)))

unfoldable pub truncate_for_policy : List Breakpoint → ℕ → List Breakpoint
truncate_for_policy breakpoints max_breakpoints = take max_breakpoints breakpoints

-- The first of the three adjacent pairs whose offsets fall.
unfoldable pub find_reversal : Plan → Option (Breakpoint × Breakpoint)
find_reversal p =
    if ltb p.bp2_system p.bp1_tools
    then some (bp1_tools, bp2_system)
    else if ltb p.bp3_memory p.bp2_system
    then some (bp2_system, bp3_memory_index)
    else if ltb p.bp4_previous p.bp3_memory
    then some (bp3_memory_index, bp4_previous_turn)
    else none

unfoldable pub validate : Plan → List Sealed → Result Fault (Unit {0})
unfolding find_reversal check_lookback
validate p segments = elim (find_reversal p) [
  | some (breakpoint, next) ↦ err (at_breakpoint breakpoint)
  | none ↦ check_lookback p segments
]
