-- ===== src/Examples/PromptRuns.antt =====
-- Runs of supra_prompt and of the seals in crates/supra_types/src/segment.rs. The hash function is the
-- identity here: a hash is the stream that it is taken over.
use supra_harness.Prelude.{
  ◌≡◌, ◌≢◌, ◌≤◌, ◌<◌, ◌-◌, ◌^◌, ◌↔◌, ◌⊎◌, inl, refl, false, none, some, List, [], ◌∷◌, ok, err,
  length, drop, arith,
}
use supra_harness.Canonical.{Bytes}
use supra_harness.Caching.{bp1_tools, bp2_system, lookback_blocks}
use supra_harness.Segment.{Segment, tool_manifest, turn_of, assistant, text}
use supra_harness.Prompt.Error.{invalid_snapshot}
use supra_harness.Prompt.Sealed.{Sealed, seal}
use supra_harness.Prompt.Ledger.{
  PromptLedger, new, ids, mem, snapshot, seal_generation, from_snapshot, rewrite, hash_sequence,
}
use supra_harness.Prompt.Ledger.Snapshots.{IsRestorable, from_snapshot_iff}
use supra_harness.Prompt.Ledger.Appending.{append_all, resume_appended}
use supra_harness.Prompt.Ledger.Rewriting.{rewrite_not_restorable}
use supra_harness.Prompt.Ledger.Resealing.{append_after_seal}
use supra_harness.Prompt.Breakpoints.{
  Plan, plan_breakpoints_at, validate, at_breakpoint, slice_panic, sum_positions,
}
use supra_harness.Prompt.Breakpoints.Planning.{is_tools, is_system, is_memory, last_end, plan_exact}
use supra_harness.Prompt.Breakpoints.Validation.{validate_exact, validate_empty_region}

abbrev identity_digest : Bytes → Bytes
identity_digest b = b

abbrev tools_segment : Segment
tools_segment = record { id = 1; kind = tool_manifest; blocks = text (116 ∷ []) ∷ [] }

abbrev turn_segment : Segment
turn_segment = record { id = 2; kind = turn_of 9 assistant; blocks = text (117 ∷ []) ∷ [] }

-- A ledger with the tools and one turn, and the same after a seal.
abbrev two_entries : List Sealed
unfolding seal
two_entries = seal identity_digest 0 tools_segment ∷ seal identity_digest 1 turn_segment ∷ []

abbrev two_ledger : PromptLedger
two_ledger = record {
  entries = two_entries;
  next_seq = 2;
  generation = 0;
  latest_generation = none;
}

two_ledger-IsRestorable : IsRestorable identity_digest two_ledger
unfolding two_entries
two_ledger-IsRestorable = record {
  chained = (refl, refl, (refl, refl, tt));
  distinct = (refl, (refl, tt));
  counted = refl;
  sealed = refl;
}

from_snapshot_iff_example :
    (from_snapshot identity_digest (snapshot two_ledger) ≡ ok two_ledger)
    ↔ ((snapshot two_ledger ≡ snapshot two_ledger) × IsRestorable identity_digest two_ledger)
from_snapshot_iff_example = from_snapshot_iff identity_digest (snapshot two_ledger) two_ledger

-- The third append is refused: its id stands in the ledger.
resume_appended_example :
    from_snapshot identity_digest (
      snapshot (append_all identity_digest new (tools_segment ∷ turn_segment ∷ tools_segment ∷ [])))
    ≡ ok (append_all identity_digest new (tools_segment ∷ turn_segment ∷ tools_segment ∷ []))
resume_appended_example =
    resume_appended identity_digest (tools_segment ∷ turn_segment ∷ tools_segment ∷ [])

two_entries-nonempty : two_entries ≢ []
unfolding two_entries
two_entries-nonempty e = ground (arith, e)

rewrite_not_restorable_example :
    from_snapshot identity_digest (snapshot (rewrite identity_digest two_ledger).0)
    ≡ err invalid_snapshot
rewrite_not_restorable_example =
    rewrite_not_restorable identity_digest two_ledger two_ledger-IsRestorable two_entries-nonempty

-- The two entries under a seal.
abbrev sealed_ledger : PromptLedger
unfolding hash_sequence two_entries
sealed_ledger = record two_ledger {
  generation = 1;
  latest_generation = some (record {
    generation = 0;
    segments = ids two_entries;
    prefix_hash = hash_sequence identity_digest two_entries;
  });
}

sealed_ledger-IsRestorable : IsRestorable identity_digest sealed_ledger
unfolding sealed_ledger
sealed_ledger-IsRestorable = record {
  chained = two_ledger-IsRestorable.chained;
  distinct = two_ledger-IsRestorable.distinct;
  counted = refl;
  sealed = (omega arith, refl, refl, refl);
}

sealed_ledger_sealed : sealed_ledger.latest_generation ≢ none
unfolding sealed_ledger
sealed_ledger_sealed e = ground (arith, e)

abbrev next_segment : Segment
next_segment = record { id = 3; kind = turn_of 10 assistant; blocks = [] }

next_segment_unseen : mem next_segment.id (ids sealed_ledger.entries) ≡ false
unfolding sealed_ledger two_entries
next_segment_unseen = refl

sealed_ledger_room : sealed_ledger.generation < 2 ^ 64 - 1
unfolding sealed_ledger
sealed_ledger_room = omega arith

append_after_seal_example :
    let grown = append_all identity_digest sealed_ledger (next_segment ∷ []) in
    (from_snapshot identity_digest (snapshot grown) ≡ err invalid_snapshot)
    × (from_snapshot identity_digest (snapshot (seal_generation identity_digest grown).0)
        ≡ ok (seal_generation identity_digest grown).0)
append_after_seal_example =
    append_after_seal identity_digest sealed_ledger next_segment [] sealed_ledger-IsRestorable
      sealed_ledger_sealed next_segment_unseen sealed_ledger_room

-- Tools and a turn, no system contract.
two_plan : Plan
two_plan = record { bp1_tools = 1; bp2_system = 0; bp3_memory = 0; bp4_previous = 2 }

two_planned : plan_breakpoints_at two_entries 2 ≡ ok two_plan
unfolding plan_breakpoints_at two_entries two_plan
two_planned = refl

plan_exact_example :
    ((two_plan.bp1_tools ≡ last_end is_tools two_entries)
      × (two_plan.bp2_system ≡ last_end is_system two_entries)
      × (two_plan.bp3_memory ≡ last_end is_memory two_entries)
      × (two_plan.bp4_previous ≡ 2))
    × ((2 ≤ length two_entries) × (two_plan.bp3_memory ≤ 2))
    × ((two_plan.bp2_system ≡ 0) ⊎ (two_plan.bp1_tools < two_plan.bp2_system))
    × ((two_plan.bp3_memory ≡ 0)
        ⊎ ((two_plan.bp1_tools < two_plan.bp3_memory)
            × (two_plan.bp2_system < two_plan.bp3_memory)))
plan_exact_example = plan_exact two_entries 2 two_plan two_planned

validate_exact_example :
    ((validate two_plan two_entries ≡ ok tt) ↔ (
      (two_plan.bp1_tools ≤ two_plan.bp2_system)
      × (two_plan.bp2_system ≤ two_plan.bp3_memory)
      × (two_plan.bp3_memory ≤ two_plan.bp4_previous)
      × (sum_positions (drop two_plan.bp1_tools two_entries) ≤ lookback_blocks)))
    × (validate two_plan two_entries ≢ err slice_panic)
validate_exact_example = validate_exact two_entries 2 two_plan two_planned

tools_without_system :
    ((0 < last_end is_tools two_entries) × (last_end is_system two_entries ≡ 0))
    ⊎ ((0 < last_end is_system two_entries) × (last_end is_memory two_entries ≡ 0))
unfolding two_entries
tools_without_system = inl (omega arith, refl)

validate_empty_region_example :
    (validate two_plan two_entries ≡ err (at_breakpoint bp1_tools))
    ⊎ (validate two_plan two_entries ≡ err (at_breakpoint bp2_system))
validate_empty_region_example =
    validate_empty_region two_entries 2 two_plan two_planned tools_without_system
