-- ===== src/Examples/SegmentRuns.antt =====
-- Runs of crates/supra_types/src/{hash,segment,cache}.rs.
use supra_harness.Prelude.{ℕ, ◌≡◌, ◌↔◌, ◌⊎◌, refl, false, [], ◌∷◌, ok, arith}
use supra_harness.Canonical.{Bytes}
use supra_harness.Segment.{Segment, Block, text, tool_use, tool_result, turn_of, assistant, new}
use supra_harness.Segment.Traffic.{IsConsecutive, new_iff}
use supra_harness.Segment.Encoding.{Fits, write_segment_injective}

abbrev call : Block
call = tool_use (97 ∷ []) (98 ∷ []) (123 ∷ 125 ∷ [])

abbrev answer : Block
answer = tool_result (97 ∷ []) (99 ∷ []) false

abbrev turn_segment : Segment
turn_segment = record {
  id = 7;
  kind = turn_of 5 assistant;
  blocks = text (104 ∷ []) ∷ call ∷ answer ∷ text (105 ∷ []) ∷ [];
}

abbrev two_bytes : Bytes
two_bytes = 1 ∷ 2 ∷ []

abbrev call_tag : ℕ
call_tag = 3

write_segment_injective_example : turn_segment ≡ turn_segment
write_segment_injective_example =
    write_segment_injective (2 ∷ []) turn_segment turn_segment turn_segment-Fits turn_segment-Fits
      refl
  where
    turn_segment-Fits : Fits turn_segment
    turn_segment-Fits = record {
      id = omega arith;
      kind = omega arith;
      size = omega arith;
      blocks = (
        omega arith,
        ((omega arith, omega arith, omega arith), ((omega arith, omega arith), (omega arith, tt))),
      );
    }

new_iff_example : (new 7 (turn_of 5 assistant) turn_segment.blocks ≡ ok turn_segment) ↔ (
    (turn_segment ≡ turn_segment)
    × ((false ≡ false) ⊎ (turn_segment.blocks ≡ []))
    × IsConsecutive turn_segment.blocks)
new_iff_example = new_iff 7 (turn_of 5 assistant) turn_segment.blocks turn_segment
