-- ===== src/Vectors/Agreement.antt =====
-- The agreement of the cache of crates/supra_vector/src/cache.rs with the specification, and the
-- writes that keep it.
use supra_harness.Prelude.{
  ℕ, suc, ◌+◌, ◌≡◌, refl, sym, ap, inl, inr, Bool-cases, true, false, none, some, Option-cases,
  List, [], ◌∷◌, ◌++◌, length, ltb, arith, ◌∙◌,
}
use supra_harness.Prelude.OrdMap.{get}
use supra_harness.Vectors.Cache.{ExactCache, bytes_of, forget_slot, make_room, retain, put}
use supra_harness.Vectors.Recency.{find_slot, without_slot, drop_oldest, stored, lru_step}
use supra_harness.Vectors.Entries.{
  Entry, entry, drop_slot, order_of, recent_of, recent_of-drop_slot, recent_of-append,
  drop_slot-absent, find_slot-at_slot,
}
use supra_harness.Vectors.Represents.{Represents, forget_slot-held, forget_slot-absent}
use supra_harness.Vectors.Storing.{retain-Represents, drop_slot-at_slot}
use supra_harness.Vectors.Room.{make_room-Roomy, forget_slot-budget}

-- The cache holds what the specification holds, within the same budget.
pub record Agrees {F : Type 0} (budget : ℕ) (cache : ExactCache F) (l : List (ℕ × List F))
    : Type 0 where
  pub entries : List (Entry F)
  pub stands : Represents cache entries
  pub recent : recent_of entries ≡ l
  pub budget_kept : cache.budget_bytes ≡ budget

module _ {F : Type 0} where
  pub length-order_of : (es : List (Entry F)) → length (order_of es) ≡ length es
  unfolding order_of
  length-order_of [] = refl
  length-order_of (e ∷ es) = ap suc (length-order_of es)

  pub length-recent_of : (es : List (Entry F)) → length (recent_of es) ≡ length es
  unfolding recent_of
  length-recent_of [] = refl
  length-recent_of (e ∷ es) = ap suc (length-recent_of es)

  pub forget_slot-Represents :
      (cache : ExactCache F) (es : List (Entry F)) (slot : ℕ)
      → Represents cache es
      → Represents (forget_slot cache slot) (drop_slot slot es)
  forget_slot-Represents cache es slot r = elim (Option-cases (get slot cache.vectors)) [
    | inl absent ↦
        rw
          (
            forget_slot-absent cache slot absent,
            drop_slot-absent slot es (sym (r.held slot) ∙ absent),
          )
          r
    | inr (c, there) ↦ forget_slot-held cache es slot c r there
  ]

  put-oversized :
      (cache : ExactCache F) (slot : ℕ) (v : List F)
      → ltb cache.budget_bytes (bytes_of v) ≡ true
      → put cache slot v ≡ cache
  unfolding put
  put-oversized cache slot v h = rw h refl

  put-fitting :
      (cache : ExactCache F) (slot : ℕ) (v : List F)
      → ltb cache.budget_bytes (bytes_of v) ≡ false
      → put cache slot v
        ≡ retain
            (make_room
              (length (forget_slot cache slot).order)
              (bytes_of v)
              (forget_slot cache slot))
            slot
            v
  unfolding put
  put-fitting cache slot v h = rw h refl

  retain-budget :
      (cache : ExactCache F) (slot : ℕ) (v : List F)
      → (retain cache slot v).budget_bytes ≡ cache.budget_bytes
  unfolding retain
  retain-budget cache slot v = refl

  put-Agrees :
      (budget slot : ℕ) (v : List F) (cache : ExactCache F) (l : List (ℕ × List F))
      → Agrees budget cache l
      → ltb budget (bytes_of v) ≡ false
      → Agrees budget
          (put cache slot v)
          (drop_oldest budget (bytes_of v) (without_slot slot l) ++ (slot, v) ∷ [])
  put-Agrees budget slot v cache l a small =
      let small' : ltb cache.budget_bytes (bytes_of v) ≡ false = rw (a.budget_kept) small in
      let gone = forget_slot-Represents cache a.entries slot a.stands in
      let same = forget_slot-budget cache slot ∙ a.budget_kept in
      let (left, room) =
        make_room-Roomy (length (forget_slot cache slot).order) (bytes_of v) slot
          (forget_slot cache slot) (drop_slot slot a.entries) gone
          (drop_slot-at_slot 0 cache.tick slot a.entries a.stands.ascending)
          (ground (arith, same, small))
          (ground (arith, gone.in_order, length-order_of (drop_slot slot a.entries))) in
      rw (put-fitting cache slot v small') (record {
        entries =
            left
            ++ entry
                ((make_room (length (forget_slot cache slot).order) (bytes_of v)
                    (forget_slot cache slot)).tick
                  + 1)
                slot v
              ∷ [];
        stands = retain-Represents _ left slot v room.stands room.absent room.fits;
        recent =
            recent_of-append _ slot v left
            ∙ ap (λ x. x ++ (slot, v) ∷ [])
                (room.oldest
                  ∙ ap (λ b. drop_oldest b (bytes_of v) (recent_of (drop_slot slot a.entries))) same
                  ∙ ap (drop_oldest budget (bytes_of v))
                      (recent_of-drop_slot slot a.entries ∙ ap (without_slot slot) a.recent));
        budget_kept = retain-budget _ slot v ∙ room.budget ∙ same;
      })

  pub stored-Agrees :
      (budget slot : ℕ) (v : List F) (cache : ExactCache F) (l : List (ℕ × List F))
      → Agrees budget cache l
      → Agrees budget (put cache slot v) (lru_step budget (stored slot v) l).0
  unfolding lru_step
  stored-Agrees budget slot v cache l a = elim (Bool-cases (ltb budget (bytes_of v))) [
    | inl big ↦
        rw (big, put-oversized cache slot v (ap (λ b. ltb b (bytes_of v)) a.budget_kept ∙ big)) a
    | inr small ↦ rw small (put-Agrees budget slot v cache l a small)
  ]

  -- What is found in the map is what the specification finds.
  pub find_slot-Agrees :
      (budget slot : ℕ) (cache : ExactCache F) (l : List (ℕ × List F))
      → Agrees budget cache l
      → find_slot slot l ≡ elim (get slot cache.vectors) [ none ↦ none | some c ↦ some c.vector ]
  find_slot-Agrees budget slot cache l a =
      rw (sym a.recent, a.stands.held slot) (find_slot-at_slot slot a.entries)
