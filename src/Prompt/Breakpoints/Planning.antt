-- ===== src/Prompt/Breakpoints/Planning.antt =====
-- What a plan says of the segments it was made over.
use supra_harness.Prelude.{
  ℕ, suc, ◌+◌, ◌≤◌, ◌<◌, ◌≡◌, ◌⊎◌, inl, inr, Bool, true, false, List, [], ◌∷◌, ok, ltb, length,
  arith, if◌then◌else◌, Result-cases,
}
use supra_harness.Segment.{SegmentKind, tool_manifest, system_contract, memory_index, turn_of}
use supra_harness.Prompt.Sealed.{Sealed}
use supra_harness.Prompt.Breakpoints.{Plan, Regions, place, walk, plan_breakpoints_at}

abbrev pub is_tools : SegmentKind → Bool
is_tools tool_manifest = true
is_tools system_contract = false
is_tools (memory_index entry) = false
is_tools (turn_of turn role) = false

abbrev pub is_system : SegmentKind → Bool
is_system tool_manifest = false
is_system system_contract = true
is_system (memory_index entry) = false
is_system (turn_of turn role) = false

abbrev pub is_memory : SegmentKind → Bool
is_memory tool_manifest = false
is_memory system_contract = false
is_memory (memory_index entry) = true
is_memory (turn_of turn role) = false

-- One past the last segment of a kind, 0 if there is none.
abbrev pub last_end : (SegmentKind → Bool) → List Sealed → ℕ
last_end p [] = 0
last_end p (e ∷ es) =
    let rest = last_end p es in if ltb 0 rest then suc rest else if p e.value.kind then 1 else 0

-- A `found` offset, or what the rest of the walk puts over it.
abbrev over : ℕ → ℕ → ℕ → ℕ
over index found rest = if ltb 0 rest then index + rest else found

place_step :
    (index : ℕ) (r r' : Regions) (e : Sealed) (es : List Sealed) {q : Regions}
    → (q.bp1 ≡ over (suc index) r'.bp1 (last_end is_tools es))
      × (q.bp2 ≡ over (suc index) r'.bp2 (last_end is_system es))
      × (q.bp3 ≡ over (suc index) r'.bp3 (last_end is_memory es))
    → place index r e.value.kind ≡ ok r'
    → (q.bp1 ≡ over index r.bp1 (last_end is_tools (e ∷ es)))
      × (q.bp2 ≡ over index r.bp2 (last_end is_system (e ∷ es)))
      × (q.bp3 ≡ over index r.bp3 (last_end is_memory (e ∷ es)))
unfolding place
place_step index r r' e es h made = (ground arith, ground arith, ground arith)

walk_exact :
    (index : ℕ) (r : Regions) (es : List Sealed) (q : Regions)
    → walk index r es ≡ ok q
    → (q.bp1 ≡ over index r.bp1 (last_end is_tools es))
      × (q.bp2 ≡ over index r.bp2 (last_end is_system es))
      × (q.bp3 ≡ over index r.bp3 (last_end is_memory es))
unfolding walk
walk_exact index r [] q h = ground arith
walk_exact index r (e ∷ es) q h = elim (Result-cases (place index r e.value.kind)) [
  | inl (r', e') ↦
      place_step index r r' e es (walk_exact (suc index) r' es q (ground (arith, e'))) e'
  | inr (x, e') ↦ absurd (ground (arith, e'))
]

-- The regions are in order: what stands behind the tools and the system is above them.
record InOrder (r : Regions) : Type 0 where
  system_after : (r.bp2 ≡ 0) ⊎ (r.bp1 < r.bp2)
  memory_after : (r.bp3 ≡ 0) ⊎ ((r.bp1 < r.bp3) × (r.bp2 < r.bp3))

record Within (index : ℕ) (r : Regions) : Type 0 where
  first : r.bp1 ≤ index
  second : r.bp2 ≤ index
  third : r.bp3 ≤ index

place-InOrder :
    (index : ℕ) (r r' : Regions) (k : SegmentKind)
    → InOrder r × Within index r
    → place index r k ≡ ok r'
    → InOrder r' × Within (suc index) r'
unfolding place
place-InOrder index r r' k h e = ground arith

walk-InOrder :
    (index : ℕ) (r : Regions) (es : List Sealed) (q : Regions)
    → InOrder r × Within index r
    → walk index r es ≡ ok q
    → InOrder q
unfolding walk
walk-InOrder index r [] q h e = ground arith
walk-InOrder index r (x ∷ es) q h e = elim (Result-cases (place index r x.value.kind)) [
  | inl (r', e') ↦
      walk-InOrder (suc index) r' es q (place-InOrder index r r' x.value.kind h e')
        (ground (arith, e'))
  | inr (y, e') ↦ absurd (ground (arith, e'))
]

-- A plan is exact and ordered: each of its first three offsets is one past the last segment of its
-- region, or 0 if the region is empty; the fourth is the boundary that was asked for, within the
-- sequence and not before the memory index; and a region that is not empty ends above the regions
-- before it.
pub plan_exact :
    (segments : List Sealed) (boundary : ℕ) (p : Plan)
    → plan_breakpoints_at segments boundary ≡ ok p
    → ((p.bp1_tools ≡ last_end is_tools segments)
        × (p.bp2_system ≡ last_end is_system segments)
        × (p.bp3_memory ≡ last_end is_memory segments)
        × (p.bp4_previous ≡ boundary))
      × ((boundary ≤ length segments) × (p.bp3_memory ≤ boundary))
      × ((p.bp2_system ≡ 0) ⊎ (p.bp1_tools < p.bp2_system))
      × ((p.bp3_memory ≡ 0) ⊎ ((p.bp1_tools < p.bp3_memory) × (p.bp2_system < p.bp3_memory)))
unfolding plan_breakpoints_at
plan_exact segments boundary p h = elim (Result-cases (walk 0 start segments)) [
  | inl (q, e) ↦
      let exact = walk_exact 0 start segments q e in
      let order = walk-InOrder 0 start segments q (ground arith, ground arith) e in
      let made : (boundary ≤ length segments)
          × (q.bp3 ≤ boundary)
          × (p ≡ record {
            bp1_tools = q.bp1;
            bp2_system = q.bp2;
            bp3_memory = q.bp3;
            bp4_previous = boundary;
          }) =
        ground (arith, e) in
      rw made.2 (ground (arith, exact), (made.0, made.1), order.system_after, order.memory_after)
  | inr (x, e) ↦ absurd (ground (arith, e))
]
  where
    start : Regions
    start = record { bp1 = 0; bp2 = 0; bp3 = 0 }
