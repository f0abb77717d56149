-- ===== src/Prompt/Eviction/Bodies.antt =====
-- The bodies that eviction writes: `render_body` of crates/supra_prompt/src/evict.rs.
use supra_harness.Prelude.{
  ℕ, suc, ◌≡◌, ◌⊎◌, refl, inl, inr, Bool, Bool-cases, true, false, not, ◌||◌, none, some,
  Option-cases, List, [], ◌∷◌, ok, keep, any, arith,
}
use supra_harness.Segment.{
  Block, text, thinking, tool_use, tool_result, is_tool_traffic, interleaving_from,
  first_interleaving, Segment, SegmentKind, is_memory_index,
}
use supra_harness.Segment
use supra_harness.Prompt.Eviction.{
  ThinkingDisposition, keep_thinking, drop_thinking, is_tool_use, is_unsigned_thinking,
  disposition_of, render_body,
}

-- A run of tool traffic that goes on, or that is the first, is easier to keep in one piece.
interleaving-lenient :
    (i j : ℕ) (seen seen' inside inside' : Bool) (blocks : List Block)
    → (not seen || seen') ≡ true
    → (not inside' || inside) ≡ true
    → interleaving_from i seen' inside' blocks ≡ none
    → interleaving_from j seen inside blocks ≡ none
unfolding interleaving_from
interleaving-lenient i j seen seen' inside inside' [] s t h = refl
interleaving-lenient i j seen seen' inside inside' (block ∷ blocks) s t h = ground (
  arith,
  interleaving-lenient (suc i) (suc j) (seen || not inside) (seen' || not inside') true true blocks,
  interleaving-lenient (suc i) (suc j) seen seen' false false blocks,
)

-- Leaving out blocks that are no tool traffic keeps what is left in one run.
interleaving-keep :
    (i j : ℕ) (seen inside : Bool) (blocks : List Block)
    → interleaving_from i seen inside blocks ≡ none
    → interleaving_from j seen inside (keep (λ block. not (is_unsigned_thinking block)) blocks)
      ≡ none
unfolding interleaving_from is_tool_traffic
interleaving-keep i j seen inside [] h = refl
interleaving-keep i j seen inside (text t ∷ blocks) h =
    interleaving-keep (suc i) (suc j) seen false blocks h
interleaving-keep i j seen inside (thinking t (some signature) ∷ blocks) h =
    interleaving-keep (suc i) (suc j) seen false blocks h
interleaving-keep i j seen inside (thinking t none ∷ blocks) h =
    interleaving-keep (suc i) j seen inside blocks
      (interleaving-lenient (suc i) (suc i) seen seen inside false blocks (ground arith) refl h)
interleaving-keep i j seen inside (tool_use call_id name input ∷ blocks) h =
    ground (arith, interleaving-keep (suc i) (suc j) (seen || not inside) true blocks)
interleaving-keep i j seen inside (tool_result call_id content is_error ∷ blocks) h =
    ground (arith, interleaving-keep (suc i) (suc j) (seen || not inside) true blocks)

first_interleaving-render_body :
    (blocks : List Block) (d : ThinkingDisposition)
    → first_interleaving blocks ≡ none
    → first_interleaving (render_body blocks d) ≡ none
unfolding first_interleaving render_body
first_interleaving-render_body blocks keep_thinking h = h
first_interleaving-render_body blocks drop_thinking h = interleaving-keep 0 0 false false blocks h

new-contiguous :
    (id : ℕ) (kind : SegmentKind) (blocks : List Block) (segment : Segment)
    → Segment.new id kind blocks ≡ ok segment
    → first_interleaving blocks ≡ none
unfolding Segment.new
new-contiguous id kind blocks segment h = elim (Option-cases (first_interleaving blocks)) [
  | inl fine ↦ fine
  | inr (at, mixed) ↦ absurd (ground (arith, h, mixed))
]

new_plain :
    (id : ℕ) (kind : SegmentKind) (blocks : List Block)
    → is_memory_index kind ≡ false
    → first_interleaving blocks ≡ none
    → Segment.new id kind blocks ≡ ok (record { id = id; kind = kind; blocks = blocks })
unfolding Segment.new
new_plain id kind blocks k f = rw (k, f, Segment.new) refl

kept_or_dropped :
    (blocks : List Block)
    → ((any is_tool_use blocks ≡ true) × (render_body blocks (disposition_of blocks) ≡ blocks))
      ⊎ ((any is_tool_use blocks ≡ false)
          × (render_body blocks (disposition_of blocks)
              ≡ keep (λ block. not (is_unsigned_thinking block)) blocks))
unfolding disposition_of render_body
kept_or_dropped blocks = elim (Bool-cases (any is_tool_use blocks)) [
  | inl used ↦ inl (used, rw (used, disposition_of) refl)
  | inr prose ↦ inr (prose, rw (prose, disposition_of) refl)
]

-- The blocks of a valid segment that is no memory index are, once rendered for eviction, those of a valid
-- segment of the same id and kind. If one of them is a tool use they are all kept; if none is, exactly
-- the thinking blocks without a signature are gone, and the others keep their order.
pub evicted_valid :
    (id : ℕ) (kind : SegmentKind) (blocks : List Block) (segment : Segment)
    → is_memory_index kind ≡ false
    → Segment.new id kind blocks ≡ ok segment
    → (Segment.new id kind (render_body blocks (disposition_of blocks))
        ≡ ok (record { id = id; kind = kind; blocks = render_body blocks (disposition_of blocks) }))
      × (((any is_tool_use blocks ≡ true) × (render_body blocks (disposition_of blocks) ≡ blocks))
          ⊎ ((any is_tool_use blocks ≡ false)
              × (render_body blocks (disposition_of blocks)
                  ≡ keep (λ block. not (is_unsigned_thinking block)) blocks)))
evicted_valid id kind blocks segment k h = (
  new_plain id kind (render_body blocks (disposition_of blocks)) k (
      first_interleaving-render_body blocks (disposition_of blocks)
        (new-contiguous id kind blocks segment h)),
  kept_or_dropped blocks,
)
