-- ===== src/Vectors/Room.antt =====
-- The loop of `put` and its two ends, crates/supra_vector/src/cache.rs.
use supra_harness.Prelude.{
  ℕ, zero, suc, ◌+◌, ◌≤◌, ◌<◌, ◌≡◌, refl, sym, ap, inl, inr, Bool-cases, true, false, none,
  Option-cases, List, [], ◌∷◌, length, ltb, arith, ◌∙◌,
}
use supra_harness.Prelude.OrdMap.{get}
use supra_harness.Vectors.Cache.{ExactCache, forget_slot, evict_one, make_room}
use supra_harness.Vectors.Recency.{total_bytes, drop_oldest}
use supra_harness.Vectors.Entries.{Entry, at_slot, recent_of}
use supra_harness.Vectors.Represents.{Represents}
use supra_harness.Vectors.Storing.{evict_one-Represents}

module _ {F : Type 0} where
  pub make_room-stop :
      (fuel bytes : ℕ) (cache : ExactCache F)
      → ltb cache.budget_bytes (cache.used_bytes + bytes) ≡ false
      → make_room (suc fuel) bytes cache ≡ cache
  unfolding make_room
  make_room-stop fuel bytes cache h = rw (h, make_room) refl

  pub make_room-turn :
      (fuel bytes : ℕ) (cache : ExactCache F)
      → ltb cache.budget_bytes (cache.used_bytes + bytes) ≡ true
      → (evict_one cache).1 ≡ true
      → make_room (suc fuel) bytes cache ≡ make_room fuel bytes (evict_one cache).0
  unfolding make_room
  make_room-turn fuel bytes cache h e = rw (h, make_room, e) refl

  drop_oldest-stop :
      (budget bytes : ℕ) (l : List (ℕ × List F))
      → total_bytes l + bytes ≤ budget
      → drop_oldest budget bytes l ≡ l
  unfolding drop_oldest
  drop_oldest-stop budget bytes [] h = refl
  drop_oldest-stop budget bytes ((s, v) ∷ l) h = ground arith

  drop_oldest-turn :
      (budget bytes : ℕ) (e : Entry F) (es : List (Entry F))
      → budget < total_bytes (recent_of (e ∷ es)) + bytes
      → drop_oldest budget bytes (recent_of (e ∷ es)) ≡ drop_oldest budget bytes (recent_of es)
  unfolding drop_oldest recent_of
  drop_oldest-turn budget bytes e es h = ground arith

  at_slot-tail :
      (slot : ℕ) (e : Entry F) (es : List (Entry F))
      → at_slot slot (e ∷ es) ≡ none
      → at_slot slot es ≡ none
  unfolding at_slot
  at_slot-tail slot e es h = ground arith

  pub forget_slot-budget :
      (cache : ExactCache F) (slot : ℕ) → (forget_slot cache slot).budget_bytes ≡ cache.budget_bytes
  unfolding forget_slot
  forget_slot-budget cache slot = elim (Option-cases (get slot cache.vectors)) [
    | inl e ↦ rw (e, forget_slot) refl
    | inr (c, e) ↦ rw (e, forget_slot) refl
  ]

  used-empty : (cache : ExactCache F) → Represents cache [] → cache.used_bytes ≡ 0
  unfolding total_bytes recent_of
  used-empty cache r = r.used

  evict_one-budget : (cache : ExactCache F) → (evict_one cache).0.budget_bytes ≡ cache.budget_bytes
  unfolding evict_one
  evict_one-budget cache = ground arith

  -- The cache after the loop, with the entries that are left.
  pub record Roomy (bytes slot : ℕ) (before after : ExactCache F) (es left : List (Entry F))
      : Type 0 where
    pub stands : Represents after left
    pub oldest : recent_of left ≡ drop_oldest before.budget_bytes bytes (recent_of es)
    pub fits : after.used_bytes + bytes ≤ after.budget_bytes
    pub budget : after.budget_bytes ≡ before.budget_bytes
    pub absent : at_slot slot left ≡ none

  make_room-kept :
      (bytes slot : ℕ) (cache : ExactCache F) (es : List (Entry F))
      → Represents cache es
      → at_slot slot es ≡ none
      → cache.used_bytes + bytes ≤ cache.budget_bytes
      → Roomy bytes slot cache cache es es
  make_room-kept bytes slot cache es r new fits = record {
    stands = r;
    oldest =
        sym
          (drop_oldest-stop cache.budget_bytes bytes (recent_of es) (omega (arith, r.used, fits)));
    fits = fits;
    budget = refl;
    absent = new;
  }

  turn-over :
      (cache : ExactCache F) (e : Entry F) (es : List (Entry F)) (bytes : ℕ)
      → Represents cache (e ∷ es)
      → ltb cache.budget_bytes (cache.used_bytes + bytes) ≡ true
      → cache.budget_bytes < total_bytes (recent_of (e ∷ es)) + bytes
  turn-over cache e es bytes r over = ground (arith, r.used)

  -- A turn for each entry is enough for the bytes to fit.
  pub make_room-Roomy :
      (fuel bytes slot : ℕ) (cache : ExactCache F) (es : List (Entry F))
      → Represents cache es
      → at_slot slot es ≡ none
      → bytes ≤ cache.budget_bytes
      → length es ≤ fuel
      → (left : List (Entry F)) × Roomy bytes slot cache (make_room fuel bytes cache) es left
  unfolding make_room
  make_room-Roomy zero bytes slot cache [] r new h f =
      ([], make_room-kept bytes slot cache [] r new (omega (arith, used-empty cache r)))
  make_room-Roomy zero bytes slot cache (e ∷ es) r new h f = absurd (omega arith)
  make_room-Roomy (suc fuel) bytes slot cache [] r new h f =
      let fits : cache.used_bytes + bytes ≤ cache.budget_bytes =
        omega (arith, used-empty cache r) in
      rw (make_room-stop fuel bytes cache (ground arith))
        ([], make_room-kept bytes slot cache [] r new fits)
  make_room-Roomy (suc fuel) bytes slot cache (e ∷ es) r new h f =
      elim (Bool-cases (ltb cache.budget_bytes (cache.used_bytes + bytes))) [
        | inl over ↦
            let (next, turned) = evict_one-Represents cache e es r in
            let same : (evict_one cache).0.budget_bytes ≡ cache.budget_bytes =
              evict_one-budget cache in
            let (left, room) =
              make_room-Roomy fuel bytes slot (evict_one cache).0 es next
                (at_slot-tail slot e es new) (omega (arith, h, same)) (omega (arith, f)) in
            rw (make_room-turn fuel bytes cache over turned) (
              left,
              record {
                stands = room.stands;
                oldest =
                    room.oldest
                    ∙ ap (λ b. drop_oldest b bytes (recent_of es)) same
                    ∙ sym (
                        drop_oldest-turn cache.budget_bytes bytes e es
                          (turn-over cache e es bytes r over));
                fits = room.fits;
                budget = room.budget ∙ same;
                absent = room.absent;
              },
            )
        | inr fits ↦
            rw (make_room-stop fuel bytes cache fits)
              (e ∷ es, make_room-kept bytes slot cache (e ∷ es) r new (ground arith))
      ]
