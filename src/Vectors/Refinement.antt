-- ===== src/Vectors/Refinement.antt =====
-- The cache of crates/supra_vector/src/cache.rs against the specification, request by request and
-- over a whole session.
use supra_harness.Prelude.{
  ℕ, ◌+◌, ◌≤◌, ◌≡◌, refl, sym, ap, inl, inr, none, some, Option-cases, List, [], ◌∷◌, ◌++◌, length,
  ◌∙◌,
}
use supra_harness.Prelude.OrdMap.{get}
use supra_harness.Vectors.Cache.{
  Cached, ExactCache, new_cache, look_up, forget_slot, invalidate, clear, len,
}
use supra_harness.Vectors.Recency.{
  find_slot, without_slot, total_bytes, Request, looked_up, stored, invalidated, cleared, found,
  is_found, lru_step,
}
use supra_harness.Vectors.Entries.{
  entry, drop_slot, recent_of, recent_of-drop_slot, recent_of-append,
}
use supra_harness.Vectors.Represents.{forget_slot-absent, new_cache-Represents, clear-Represents}
use supra_harness.Vectors.Storing.{look_up-hit, look_up-miss}
use supra_harness.Vectors.Room.{forget_slot-budget}
use supra_harness.Vectors.Requests.{step, answers, after, lru_answers, lru_after}
use supra_harness.Vectors.Agreement.{
  Agrees, length-order_of, length-recent_of, forget_slot-Represents, stored-Agrees,
  find_slot-Agrees,
}

module _ {F : Type 0} where
  look_up-hit_lem :
      (cache : ExactCache F) (slot : ℕ) (c : Cached F)
      → get slot cache.vectors ≡ some c
      → ((look_up cache slot).1 ≡ some c.vector)
        × ((look_up cache slot).0.budget_bytes ≡ cache.budget_bytes)
  unfolding look_up
  look_up-hit_lem cache slot c h = rw (h, look_up) (refl, refl)

  look_up-miss_lem :
      (cache : ExactCache F) (slot : ℕ)
      → get slot cache.vectors ≡ none
      → ((look_up cache slot).1 ≡ none) × ((look_up cache slot).0.budget_bytes ≡ cache.budget_bytes)
  unfolding look_up
  look_up-miss_lem cache slot h = rw (h, look_up) (refl, refl)

  lru_step-hit :
      (budget slot : ℕ) (l : List (ℕ × List F)) (v : List F)
      → find_slot slot l ≡ some v
      → lru_step budget (looked_up slot) l ≡ (without_slot slot l ++ (slot, v) ∷ [], found (some v))
  unfolding lru_step
  lru_step-hit budget slot l v h = rw (h, lru_step) refl

  lru_step-miss :
      (budget slot : ℕ) (l : List (ℕ × List F))
      → find_slot slot l ≡ none
      → lru_step budget (looked_up slot) l ≡ (l, found none)
  unfolding lru_step
  lru_step-miss budget slot l h = rw (h, lru_step) refl

  -- One request: the answers are equal and the cache agrees with the specification afterwards.
  abbrev Follows : ℕ → Request F → ExactCache F → List (ℕ × List F) → Type 0
  Follows budget q cache l =
      Agrees budget (step q cache).0 (lru_step budget q l).0
      × ((step q cache).1 ≡ (lru_step budget q l).1)

  looked_up-Follows :
      (budget slot : ℕ) (cache : ExactCache F) (l : List (ℕ × List F))
      → Agrees budget cache l
      → Follows budget (looked_up slot) cache l
  unfolding step
  looked_up-Follows budget slot cache l a = elim (Option-cases (get slot cache.vectors)) [
    | inl absent ↦
        let (answer, budget_kept) = look_up-miss_lem cache slot absent in
        rw (lru_step-miss budget slot l (rw absent at (find_slot-Agrees budget slot cache l a))) (
          record {
            entries = a.entries;
            stands = look_up-miss cache a.entries slot a.stands absent;
            recent = a.recent;
            budget_kept = budget_kept ∙ a.budget_kept;
          },
          ap found answer,
        )
    | inr (c, there) ↦
        let (answer, budget_kept) = look_up-hit_lem cache slot c there in
        rw
          (lru_step-hit budget slot l c.vector
            (rw there at (find_slot-Agrees budget slot cache l a)))
          (
            record {
              entries = drop_slot slot a.entries ++ entry (cache.tick + 1) slot c.vector ∷ [];
              stands = look_up-hit cache a.entries slot c a.stands there;
              recent =
                  recent_of-append (cache.tick + 1) slot c.vector (drop_slot slot a.entries)
                  ∙ ap (λ x. x ++ (slot, c.vector) ∷ [])
                      (recent_of-drop_slot slot a.entries ∙ ap (without_slot slot) a.recent);
              budget_kept = budget_kept ∙ a.budget_kept;
            },
            ap found answer,
          )
  ]

  invalidate_lem :
      (cache : ExactCache F) (slot : ℕ)
      → invalidate cache slot ≡ (
        forget_slot cache slot,
        is_found (elim (get slot cache.vectors) [ none ↦ none | some c ↦ some c.vector ]),
      )
  unfolding invalidate
  invalidate_lem cache slot = elim (Option-cases (get slot cache.vectors)) [
    | inl absent ↦ rw (forget_slot-absent cache slot absent) (rw (absent, invalidate) refl)
    | inr (c, there) ↦ rw (there, invalidate) refl
  ]

  invalidated-Follows :
      (budget slot : ℕ) (cache : ExactCache F) (l : List (ℕ × List F))
      → Agrees budget cache l
      → Follows budget (invalidated slot) cache l
  unfolding step lru_step
  invalidated-Follows budget slot cache l a =
      rw (invalidate_lem cache slot, find_slot-Agrees budget slot cache l a)
        (
          record {
            entries = drop_slot slot a.entries;
            stands = forget_slot-Represents cache a.entries slot a.stands;
            recent = recent_of-drop_slot slot a.entries ∙ ap (without_slot slot) a.recent;
            budget_kept = forget_slot-budget cache slot ∙ a.budget_kept;
          },
          refl,
        )

  pub step-Follows :
      (budget : ℕ) (q : Request F) (cache : ExactCache F) (l : List (ℕ × List F))
      → Agrees budget cache l
      → Follows budget q cache l
  unfolding step lru_step clear recent_of
  step-Follows budget (looked_up slot) cache l a = looked_up-Follows budget slot cache l a
  step-Follows budget (stored slot v) cache l a = (stored-Agrees budget slot v cache l a, refl)
  step-Follows budget (invalidated slot) cache l a = invalidated-Follows budget slot cache l a
  step-Follows budget cleared cache l a = (
    record {
      entries = [];
      stands = clear-Represents cache a.entries a.stands;
      recent = refl;
      budget_kept = a.budget_kept;
    },
    refl,
  )

  pub new_cache-Agrees : (budget : ℕ) → Agrees budget (new_cache {F = F} budget) []
  unfolding new_cache recent_of
  new_cache-Agrees budget = record {
    entries = [];
    stands = new_cache-Represents budget;
    recent = refl;
    budget_kept = refl;
  }

  pub run-Agrees :
      (budget : ℕ) (qs : List (Request F)) (cache : ExactCache F) (l : List (ℕ × List F))
      → Agrees budget cache l
      → Agrees budget (after qs cache) (lru_after budget qs l)
        × (answers qs cache ≡ lru_answers budget qs l)
  unfolding after answers lru_after lru_answers
  run-Agrees budget [] cache l a = (a, refl)
  run-Agrees budget (q ∷ qs) cache l a =
      let (next, same) = step-Follows budget q cache l a in
      let (agrees, rest) = run-Agrees budget qs (step q cache).0 (lru_step budget q l).0 next in
      (agrees, rw (same, rest) refl)

  -- Every answer of a session is that of the least-recently-used list with the same budget: a read
  -- finds the vector that was last stored, unless it was invalidated, cleared or dropped to make
  -- room, and what is dropped is always the entry whose last use is the oldest.
  pub lru_refined :
      (budget : ℕ) (qs : List (Request F))
      → answers qs (new_cache budget) ≡ lru_answers budget qs []
  lru_refined budget qs = (run-Agrees budget qs (new_cache budget) [] (new_cache-Agrees budget)).1

  -- After any session the bytes counted are those of the vectors that are held, they are within the
  -- budget, and there are as many entries in the map as in the order of use.
  pub cache_bounded :
      (budget : ℕ) (qs : List (Request F))
      → ((after qs (new_cache budget)).used_bytes ≤ budget)
        × ((after qs (new_cache budget)).used_bytes ≡ total_bytes (lru_after budget qs []))
        × (len (after qs (new_cache budget)) ≡ length (lru_after budget qs []))
        × (length (after qs (new_cache budget)).order ≡ length (lru_after budget qs []))
  cache_bounded budget qs =
      let a = (run-Agrees budget qs (new_cache budget) [] (new_cache-Agrees budget)).0 in
      let n = sym (length-recent_of a.entries) ∙ ap length a.recent in
      (
        rw (a.budget_kept) at a.stands.within,
        a.stands.used ∙ ap total_bytes a.recent,
        a.stands.counted ∙ n,
        ap length a.stands.in_order ∙ length-order_of a.entries ∙ n,
      )
