-- ===== src/Segment/Traffic.antt =====
-- Which block sequences a segment accepts, and how many lookback positions it takes.
use supra_harness.Prelude.{
  ℕ, suc, ◌+◌, ◌≡◌, ◌↔◌, ◌⊎◌, Bool, true, false, not, none, List, [], ◌∷◌, ◌++◌, ok, length, all,
  ltb, ap, Bool-cases, inl, inr, refl, arith, if◌then◌else◌,
}
use supra_harness.Segment.{
  Block, SegmentKind, Segment, is_tool_traffic, is_memory_index, interleaving_from,
  first_interleaving, new, positions_from, lookback_positions,
}

abbrev pub is_prose : Block → Bool
is_prose block = not (is_tool_traffic block)

-- The tool traffic is consecutive: prose, then tool traffic, then prose, each of them maybe empty.
pub data IsConsecutive (blocks : List Block) : Type 0 where
  split :
      (before run after : List Block)
      → blocks ≡ before ++ (run ++ after)
      → all is_prose before ≡ true
      → all is_tool_traffic run ≡ true
      → all is_prose after ≡ true
      → IsConsecutive blocks

after_run :
    (i : ℕ) (bs : List Block) → interleaving_from i true false bs ≡ none → all is_prose bs ≡ true
unfolding interleaving_from
after_run i [] h = refl
after_run i (b ∷ bs) h = ground (arith, after_run (suc i) bs)

-- The rest of a run, then prose.
record RunThenProse (bs : List Block) : Type 0 where
  run : List Block
  after : List Block
  parts : bs ≡ run ++ after
  traffic : all is_tool_traffic run ≡ true
  prose : all is_prose after ≡ true

inside_run : (i : ℕ) (bs : List Block) → interleaving_from i true true bs ≡ none → RunThenProse bs
unfolding interleaving_from
inside_run i [] h = record { run = []; after = []; parts = refl; traffic = refl; prose = refl }
inside_run i (b ∷ bs) h = elim (Bool-cases (is_tool_traffic b)) [
  | inl tool ↦
      let rest = inside_run (suc i) bs (ground arith) in
      record {
        run = b ∷ rest.run;
        after = rest.after;
        parts = ap (λ l. b ∷ l) rest.parts;
        traffic = ground (arith, rest.traffic);
        prose = rest.prose;
      }
  | inr other ↦ record {
    run = [];
    after = b ∷ bs;
    parts = refl;
    traffic = refl;
    prose = ground (arith, after_run (suc i) bs);
  }
]

to_IsConsecutive :
    (i : ℕ) (bs : List Block) → interleaving_from i false false bs ≡ none → IsConsecutive bs
unfolding interleaving_from
to_IsConsecutive i [] h = split [] [] [] refl refl refl refl
to_IsConsecutive i (b ∷ bs) h = elim (Bool-cases (is_tool_traffic b)) [
  | inl tool ↦
      let rest = inside_run (suc i) bs (ground arith) in
      split [] (b ∷ rest.run) rest.after (ap (λ l. b ∷ l) rest.parts) refl
        (ground (arith, rest.traffic)) rest.prose
  | inr other ↦ extend (to_IsConsecutive (suc i) bs (ground arith)) (ground arith)
]
  where
    extend : IsConsecutive bs → is_prose b ≡ true → IsConsecutive (b ∷ bs)
    extend (split before run after e p t q) prose =
        split (b ∷ before) run after (ap (λ l. b ∷ l) e) (ground arith) t q

prose_only :
    (i : ℕ) (seen : Bool) (bs : List Block)
    → all is_prose bs ≡ true
    → interleaving_from i seen false bs ≡ none
unfolding interleaving_from
prose_only i seen [] h = refl
prose_only i seen (b ∷ bs) h = ground (arith, prose_only (suc i) seen bs)

run_then_prose :
    (i : ℕ) (run after : List Block)
    → all is_tool_traffic run ≡ true
    → all is_prose after ≡ true
    → interleaving_from i true true (run ++ after) ≡ none
unfolding interleaving_from
run_then_prose i [] [] t p = refl
run_then_prose i [] (b ∷ after) t p = ground (arith, prose_only (suc i) true after)
run_then_prose i (b ∷ run) after t p = ground (arith, run_then_prose (suc i) run after)

consecutive_none :
    (i : ℕ) (before run after : List Block)
    → all is_prose before ≡ true
    → all is_tool_traffic run ≡ true
    → all is_prose after ≡ true
    → interleaving_from i false false (before ++ (run ++ after)) ≡ none
unfolding interleaving_from
consecutive_none i [] [] after b t p = prose_only i false after p
consecutive_none i [] (x ∷ run) after b t p = ground (arith, run_then_prose (suc i) run after)
consecutive_none i (x ∷ before) run after b t p =
    ground (arith, consecutive_none (suc i) before run after)

first_interleaving_iff : (bs : List Block) → (first_interleaving bs ≡ none) ↔ IsConsecutive bs
unfolding first_interleaving
first_interleaving_iff bs = (to_IsConsecutive 0 bs, from)
  where
    from : IsConsecutive bs → first_interleaving bs ≡ none
    from (split before run after e b t p) = rw e (consecutive_none 0 before run after b t p)

-- A segment is made exactly of consecutive tool traffic, and of no blocks at all if it is a memory
-- index; it holds what it was given.
pub new_iff :
    (id : ℕ) (kind : SegmentKind) (blocks : List Block) (segment : Segment)
    → (new id kind blocks ≡ ok segment) ↔ (
        (segment ≡ record { id = id; kind = kind; blocks = blocks })
        × ((is_memory_index kind ≡ false) ⊎ (blocks ≡ []))
        × IsConsecutive blocks)
unfolding new
new_iff id kind blocks segment = (
  λ made. (ground arith, ground arith, (first_interleaving_iff blocks).0 (ground arith)),
  λ (e, index, consecutive).
      let none_found = (first_interleaving_iff blocks).1 consecutive in ground (arith, none_found),
)

positions_prose :
    (n : ℕ) (r : Bool) (bs : List Block)
    → all is_prose bs ≡ true
    → positions_from n r bs ≡ n + length bs
unfolding positions_from
positions_prose n r [] h = omega arith
positions_prose n r (b ∷ bs) h = ground (arith, positions_prose (n + 1) false bs)

positions_run :
    (n : ℕ) (run after : List Block)
    → all is_tool_traffic run ≡ true
    → all is_prose after ≡ true
    → positions_from n true (run ++ after) ≡ n + length after
unfolding positions_from
positions_run n [] after t p = positions_prose n true after p
positions_run n (b ∷ run) after t p = ground (arith, positions_run n run after)

-- A whole run of tool traffic is one position in the lookback window, and each other block is one:
-- splitting prose, run and prose, the positions are the prose blocks and one more if the run is not
-- empty, so the number of tool calls does not matter.
pub positions_exact :
    (segment : Segment) (before run after : List Block)
    → segment.blocks ≡ before ++ (run ++ after)
    → all is_prose before ≡ true
    → all is_tool_traffic run ≡ true
    → all is_prose after ≡ true
    → lookback_positions segment
      ≡ length before + (if ltb 0 (length run) then 1 else 0) + length after
unfolding lookback_positions
positions_exact segment before run after e b t p = rw e (ground (arith, go 0 before b))
  where
    start :
        (n : ℕ) (run : List Block)
        → all is_tool_traffic run ≡ true
        → positions_from n false (run ++ after)
          ≡ n + (if ltb 0 (length run) then 1 else 0) + length after
    start n [] t = ground (arith, positions_prose n false after p)
    start n (x ∷ run) t = ground (arith, positions_run (n + 1) run after)

    go :
        (n : ℕ) (before : List Block)
        → all is_prose before ≡ true
        → positions_from n false (before ++ (run ++ after))
          ≡ n + length before + (if ltb 0 (length run) then 1 else 0) + length after
    go n [] b = ground (arith, start n run t)
    go n (x ∷ before) b = ground (arith, go (n + 1) before)
