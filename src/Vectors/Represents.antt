-- ===== src/Vectors/Represents.antt =====
-- The operations of crates/supra_vector/src/cache.rs on the entries in order of use.
use supra_harness.Prelude.{
  ℕ, ◌≤◌, ◌≡◌, refl, sym, ap, none, some, List, [], length, ◌==◌, if◌then◌else◌, arith, ◌∙◌,
}
use supra_harness.Prelude.OrdMap.{get, IsSorted, get-remove, remove-IsSorted, length-remove_old}
use supra_harness.Vectors.Cache.{Cached, ExactCache, new_cache, forget_slot, clear}
use supra_harness.Vectors.Recency.{total_bytes}
use supra_harness.Vectors.Entries.{
  Entry, at_slot, drop_slot, order_of, recent_of, Ordered, at_slot-drop_slot, Ordered-drop_slot,
  remove-order_of, total_bytes-drop_slot, length-drop_slot,
}

pub record Represents {F : Type 0} (cache : ExactCache F) (es : List (Entry F)) : Type 0 where
  pub in_order : cache.order ≡ order_of es
  pub ascending : Ordered 0 cache.tick es
  pub sorted : IsSorted cache.vectors
  pub held : (slot : ℕ) → get slot cache.vectors ≡ at_slot slot es
  pub counted : length cache.vectors ≡ length es
  pub used : cache.used_bytes ≡ total_bytes (recent_of es)
  pub within : cache.used_bytes ≤ cache.budget_bytes

module _ {F : Type 0} where
  pub new_cache-Represents : (budget : ℕ) → Represents (new_cache {F = F} budget) []
  unfolding new_cache at_slot get order_of recent_of total_bytes
  new_cache-Represents budget = record {
    in_order = refl;
    ascending = tt;
    sorted = tt;
    held = λ slot. refl;
    counted = refl;
    used = refl;
    within = omega arith;
  }

  pub clear-Represents :
      (cache : ExactCache F) (es : List (Entry F))
      → Represents cache es
      → Represents (clear cache) []
  unfolding clear at_slot get order_of recent_of total_bytes
  clear-Represents cache es r = record {
    in_order = refl;
    ascending = tt;
    sorted = tt;
    held = λ slot. refl;
    counted = refl;
    used = refl;
    within = omega arith;
  }

  -- A slot that is held leaves the map, the order and the count of bytes.
  pub forget_slot-held :
      (cache : ExactCache F) (es : List (Entry F)) (slot : ℕ) (c : Cached F)
      → Represents cache es
      → get slot cache.vectors ≡ some c
      → Represents (forget_slot cache slot) (drop_slot slot es)
  unfolding forget_slot
  forget_slot-held cache es slot c r h =
      let at : at_slot slot es ≡ some c = sym (r.held slot) ∙ h in
      rw (h, forget_slot)
        (record {
          in_order = rw (r.in_order) (remove-order_of 0 cache.tick slot es c r.ascending at);
          ascending = Ordered-drop_slot 0 cache.tick slot es r.ascending;
          sorted = remove-IsSorted slot cache.vectors r.sorted;
          held = λ s.
              get-remove slot s cache.vectors r.sorted
              ∙ ap (λ x. if slot == s then none else x) (r.held s)
              ∙ sym (at_slot-drop_slot 0 cache.tick slot s es r.ascending);
          counted = ground (
            arith,
            length-remove_old slot c cache.vectors,
            length-drop_slot slot es c,
            r.counted,
          );
          used = ground (arith, total_bytes-drop_slot slot es c at, r.used);
          within = ground (arith, r.within);
        })

  pub forget_slot-absent :
      (cache : ExactCache F) (slot : ℕ)
      → get slot cache.vectors ≡ none
      → forget_slot cache slot ≡ cache
  unfolding forget_slot
  forget_slot-absent cache slot h = rw (h, forget_slot) refl
