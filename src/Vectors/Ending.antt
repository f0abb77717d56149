-- ===== src/Vectors/Ending.antt =====
-- The loop of `put` ends with room: crates/supra_vector/src/cache.rs.
use supra_harness.Prelude.{
  ℕ, zero, suc, ◌+◌, ◌≤◌, ◌≡◌, refl, sym, subst, ◌∙◌, ap, inl, inr, Bool-cases, true, false, List,
  [], length, ltb, arith,
}
use supra_harness.Vectors.Cache.{ExactCache, bytes_of, new_cache, evict_one, forget_slot, make_room}
use supra_harness.Vectors.Recency.{Request}
use supra_harness.Vectors.Requests.{after}
use supra_harness.Vectors.Entries.{drop_slot}
use supra_harness.Vectors.Storing.{drop_slot-at_slot}
use supra_harness.Vectors.Room.{make_room-Roomy, make_room-stop, make_room-turn, forget_slot-budget}
use supra_harness.Vectors.Agreement.{length-order_of, forget_slot-Represents}
use supra_harness.Vectors.Refinement.{run-Agrees, new_cache-Agrees}

turns_zero : (extra : ℕ) → 0 + extra ≡ extra
turns_zero extra = omega arith

turns_suc : (fuel extra : ℕ) → suc fuel + extra ≡ suc (fuel + extra)
turns_suc fuel extra = omega arith

module _ {F : Type 0} where
  make_room-still :
      (fuel bytes : ℕ) (cache : ExactCache F)
      → ltb cache.budget_bytes (cache.used_bytes + bytes) ≡ false
      → make_room fuel bytes cache ≡ cache
  unfolding make_room
  make_room-still zero bytes cache h = refl
  make_room-still (suc fuel) bytes cache h = make_room-stop fuel bytes cache h

  make_room-stuck :
      (fuel bytes : ℕ) (cache : ExactCache F)
      → ltb cache.budget_bytes (cache.used_bytes + bytes) ≡ true
      → (evict_one cache).1 ≡ false
      → make_room (suc fuel) bytes cache ≡ (evict_one cache).0
  unfolding make_room
  make_room-stuck fuel bytes cache h e = rw (h, make_room, e) refl

  -- Once there is room, more turns change nothing.
  make_room-settled :
      (fuel extra bytes : ℕ) (cache : ExactCache F)
      → (make_room fuel bytes cache).used_bytes + bytes ≤ (make_room fuel bytes cache).budget_bytes
      → make_room (fuel + extra) bytes cache ≡ make_room fuel bytes cache
  unfolding make_room
  make_room-settled zero extra bytes cache h =
      ap (λ n. make_room n bytes cache) (turns_zero extra)
      ∙ make_room-still extra bytes cache (ground (arith, h))
  make_room-settled (suc fuel) extra bytes cache h =
      ap (λ n. make_room n bytes cache) (turns_suc fuel extra)
      ∙ elim (Bool-cases (ltb cache.budget_bytes (cache.used_bytes + bytes))) [
        | inr fits ↦
            make_room-stop (fuel + extra) bytes cache fits
            ∙ sym (make_room-stop fuel bytes cache fits)
        | inl over ↦ elim (Bool-cases (evict_one cache).1) [
          | inr stuck ↦
              make_room-stuck (fuel + extra) bytes cache over stuck
              ∙ sym (make_room-stuck fuel bytes cache over stuck)
          | inl turned ↦
              make_room-turn (fuel + extra) bytes cache over turned
              ∙ make_room-settled fuel extra bytes (evict_one cache).0 (
                  subst (λ (c : ExactCache F). c.used_bytes + bytes ≤ c.budget_bytes)
                    (make_room-turn fuel bytes cache over turned) h)
              ∙ sym (make_room-turn fuel bytes cache over turned)
        ]
      ]

  -- For a vector within the budget the loop of `put` ends after at most as many turns as there are entries,
  -- with room for the vector, after any session; further turns would change nothing.
  pub put_makes_room :
      (budget : ℕ) (qs : List (Request F)) (slot : ℕ) (v : List F) (extra : ℕ)
      → bytes_of v ≤ budget
      → (let cache = forget_slot (after qs (new_cache budget)) slot in
          ((make_room (length cache.order) (bytes_of v) cache).used_bytes + bytes_of v ≤ budget)
          × (make_room (length cache.order + extra) (bytes_of v) cache
              ≡ make_room (length cache.order) (bytes_of v) cache))
  put_makes_room budget qs slot v extra small =
      let before = after qs (new_cache budget) in
      let cache = forget_slot before slot in
      let a = (run-Agrees budget qs (new_cache budget) [] (new_cache-Agrees budget)).0 in
      let gone = forget_slot-Represents before a.entries slot a.stands in
      let same : cache.budget_bytes ≡ budget = forget_slot-budget before slot ∙ a.budget_kept in
      let (left, room) =
        make_room-Roomy (length cache.order) (bytes_of v) slot cache (drop_slot slot a.entries) gone
          (drop_slot-at_slot 0 before.tick slot a.entries a.stands.ascending)
          (omega (arith, same, small))
          (ground (arith, gone.in_order, length-order_of (drop_slot slot a.entries))) in
      (
        omega (arith, room.fits, room.budget, same),
        make_room-settled (length cache.order) extra (bytes_of v) cache room.fits,
      )
