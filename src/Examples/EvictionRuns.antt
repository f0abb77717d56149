-- ===== src/Examples/EvictionRuns.antt =====
-- A turn that is evicted and recalled: crates/supra_prompt/src/evict.rs.
use supra_harness.Prelude.{
  ℕ, zero, suc, ◌≡◌, ◌⊎◌, refl, false, true, not, none, some, List, [], ◌∷◌, ok, keep, any, length,
}
use supra_harness.Prelude.OrdMap.{get, insert}
use supra_harness.Canonical.{Bytes}
use supra_harness.Segment.{Block, text, thinking, Segment, turn_of, assistant}
use supra_harness.Segment
use supra_harness.Prompt.Eviction.{
  EvictedRow, Engine, evict_turn, store_turn, recall_turn, body_digest, render_body, disposition_of,
  is_tool_use, is_unsigned_thinking,
}
use supra_harness.Prompt.Eviction.Bodies.{evicted_valid}
use supra_harness.Prompt.Eviction.Recall.{Eviction, evict_all, recall_evicted}

abbrev zeros : ℕ → Bytes
zeros zero = []
zeros (suc n) = 0 ∷ zeros n

-- 32 bytes, of which the first is the length.
abbrev length_digest : Bytes → Bytes
length_digest bytes = length bytes ∷ zeros 31

abbrev quiet : Engine
quiet = record { begin_refused = false; commit_refused = false }

first_evicted :
    (evict_turn length_digest quiet [] 5 (1 ∷ 2 ∷ [])).1
    ≡ ok (body_digest length_digest (1 ∷ 2 ∷ []))
unfolding evict_turn store_turn get insert body_digest
first_evicted = refl

-- The same turn with another body, and another turn.
abbrev later_evictions : List Eviction
later_evictions =
    record { engine = quiet; turn = 5; body = 9 ∷ [] }
    ∷ record { engine = quiet; turn = 6; body = 1 ∷ 2 ∷ [] }
    ∷ []

recall_evicted_example :
    (stored : Bytes) × (recall_turn length_digest
        (evict_all length_digest
          (evict_turn length_digest quiet [] 5 (1 ∷ 2 ∷ [])).0
          later_evictions)
        5
      ≡ ok stored)
    × (body_digest length_digest stored ≡ body_digest length_digest (1 ∷ 2 ∷ []))
    × (((old : EvictedRow) × (get 5 [] ≡ some old)) ⊎ (stored ≡ 1 ∷ 2 ∷ []))
recall_evicted_example =
    recall_evicted length_digest (λ bytes. refl) quiet [] 5 (1 ∷ 2 ∷ [])
      (body_digest length_digest (1 ∷ 2 ∷ [])) later_evictions first_evicted

abbrev prose_turn : List Block
prose_turn = thinking (104 ∷ []) none ∷ thinking (105 ∷ []) (some (115 ∷ [])) ∷ text (106 ∷ []) ∷ []

abbrev prose_segment : Segment
prose_segment = record { id = 1; kind = turn_of 5 assistant; blocks = prose_turn }

prose_valid : Segment.new 1 (turn_of 5 assistant) prose_turn ≡ ok prose_segment
unfolding Segment.new Segment.first_interleaving Segment.interleaving_from Segment.is_tool_traffic
prose_valid = refl

evicted_valid_example :
    (Segment.new 1 (turn_of 5 assistant) (render_body prose_turn (disposition_of prose_turn))
      ≡ ok (record {
        id = 1;
        kind = turn_of 5 assistant;
        blocks = render_body prose_turn (disposition_of prose_turn);
      }))
    × (((any is_tool_use prose_turn ≡ true)
          × (render_body prose_turn (disposition_of prose_turn) ≡ prose_turn))
        ⊎ ((any is_tool_use prose_turn ≡ false)
            × (render_body prose_turn (disposition_of prose_turn)
                ≡ keep (λ block. not (is_unsigned_thinking block)) prose_turn)))
evicted_valid_example =
    evicted_valid 1 (turn_of 5 assistant) prose_turn prose_segment refl prose_valid
