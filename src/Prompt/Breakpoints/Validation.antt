-- ===== src/Prompt/Breakpoints/Validation.antt =====
-- When a plan passes validation.
use supra_harness.Prelude.{
  ◌⊎◌, inl, inr, ℕ, zero, suc, refl, ◌≤◌, ◌<◌, ◌≡◌, ◌≢◌, ◌↔◌, List, [], ◌∷◌, ok, err, drop, arith,
}
use supra_harness.Caching.{bp1_tools, bp2_system, lookback_blocks}
use supra_harness.Prompt.Sealed.{Sealed}
use supra_harness.Prompt.Breakpoints.{
  Plan, at_breakpoint, slice_panic, plan_breakpoints_at, sum_positions, validate,
}
use supra_harness.Prompt.Breakpoints.Planning.{plan_exact, last_end, is_tools, is_system, is_memory}

drop_nil : (n : ℕ) → drop {A = Sealed} n [] ≡ []
drop_nil zero = refl
drop_nil (suc n) = refl

sum_positions-drop-le :
    (a b : ℕ) (es : List Sealed) → a ≤ b → sum_positions (drop b es) ≤ sum_positions (drop a es)
unfolding sum_positions
sum_positions-drop-le a b [] h = rw (drop_nil a, drop_nil b) (omega arith)
sum_positions-drop-le zero zero (e ∷ es) h = omega arith
sum_positions-drop-le zero (suc b) (e ∷ es) h =
    omega (arith, sum_positions-drop-le zero b es (omega arith))
sum_positions-drop-le (suc a) zero (e ∷ es) h = absurd (omega arith)
sum_positions-drop-le (suc a) (suc b) (e ∷ es) h = sum_positions-drop-le a b es (omega arith)

-- A plan passes exactly when its four offsets never fall and at most twenty lookback positions stand
-- behind the first of them; the later breakpoints are nearer to the end, so they are in the window
-- too. A plan over the segments that it was made for never slices out of bounds.
pub validate_exact :
    (segments : List Sealed) (boundary : ℕ) (p : Plan)
    → plan_breakpoints_at segments boundary ≡ ok p
    → ((validate p segments ≡ ok tt) ↔ (
        (p.bp1_tools ≤ p.bp2_system)
        × (p.bp2_system ≤ p.bp3_memory)
        × (p.bp3_memory ≤ p.bp4_previous)
        × (sum_positions (drop p.bp1_tools segments) ≤ lookback_blocks)))
      × (validate p segments ≢ err slice_panic)
unfolding validate
validate_exact segments boundary p h =
    let exact = plan_exact segments boundary p h in
    let first = sum_positions-drop-le p.bp1_tools p.bp2_system segments in
    let second = sum_positions-drop-le p.bp2_system p.bp3_memory segments in
    let third = sum_positions-drop-le p.bp3_memory p.bp4_previous segments in
    (
      (λ passed. ground arith, λ (a, b, c, fits). ground (arith, first a, second b, third c)),
      λ panicked. ground (arith, exact),
    )

-- Validation refuses every plan that has tools but no system contract, or a system contract but no
-- memory index, although planning accepts such a sequence: the empty region's offset is 0.
pub validate_empty_region :
    (segments : List Sealed) (boundary : ℕ) (p : Plan)
    → plan_breakpoints_at segments boundary ≡ ok p
    → ((0 < last_end is_tools segments) × (last_end is_system segments ≡ 0))
      ⊎ ((0 < last_end is_system segments) × (last_end is_memory segments ≡ 0))
    → (validate p segments ≡ err (at_breakpoint bp1_tools))
      ⊎ (validate p segments ≡ err (at_breakpoint bp2_system))
unfolding validate
validate_empty_region segments boundary p h (inl (tools, system)) =
    let exact = plan_exact segments boundary p h in inl (ground (arith, exact))
validate_empty_region segments boundary p h (inr (system, memory)) =
    let exact = plan_exact segments boundary p h in ground (arith, exact)
