-- ===== src/Vectors/Recency.antt =====
-- The specification of the cache of crates/supra_vector/src/cache.rs: the entries in order of use,
-- the least recent first, and the requests that a session makes of it.
use supra_harness.Prelude.{
  ℕ, ◌+◌, Bool, true, false, Option, none, some, List, [], ◌∷◌, ◌++◌, ltb, ◌==◌, if◌then◌else◌,
}
use supra_harness.Vectors.Cache.{bytes_of}

module _ {F : Type 0} where
  unfoldable pub find_slot : ℕ → List (ℕ × List F) → Option (List F)
  find_slot slot [] = none
  find_slot slot ((s, v) ∷ l) = if s == slot then some v else find_slot slot l

  unfoldable pub without_slot : ℕ → List (ℕ × List F) → List (ℕ × List F)
  without_slot slot [] = []
  without_slot slot ((s, v) ∷ l) = if s == slot then l else (s, v) ∷ without_slot slot l

  unfoldable pub total_bytes : List (ℕ × List F) → ℕ
  total_bytes [] = 0
  total_bytes ((s, v) ∷ l) = bytes_of v + total_bytes l

  -- The least recent entries go until the rest and the new bytes fit the budget.
  unfoldable pub drop_oldest : ℕ → ℕ → List (ℕ × List F) → List (ℕ × List F)
  drop_oldest budget bytes [] = []
  drop_oldest budget bytes ((s, v) ∷ l) =
      let rest = drop_oldest budget bytes l in
      if ltb budget (total_bytes ((s, v) ∷ l) + bytes) then rest else (s, v) ∷ l

pub data Request (F : Type 0) : Type 0 where
  looked_up : ℕ → Request F
  stored : ℕ → List F → Request F
  invalidated : ℕ → Request F
  cleared : Request F

pub data Answer (F : Type 0) : Type 0 where
  found : Option (List F) → Answer F
  was_there : Bool → Answer F
  done : Answer F

module _ {F : Type 0} where
  abbrev pub is_found : Option (List F) → Bool
  is_found none = false
  is_found (some v) = true

  -- What a least-recently-used cache of `budget` bytes answers, and what it then holds.
  unfoldable pub lru_step : ℕ → Request F → List (ℕ × List F) → List (ℕ × List F) × Answer F
  lru_step budget (looked_up slot) l = elim (find_slot slot l) [
    | none ↦ (l, found none)
    | some v ↦ (without_slot slot l ++ (slot, v) ∷ [], found (some v))
  ]
  lru_step budget (stored slot v) l = (
    (if ltb budget (bytes_of v)
        then l
        else drop_oldest budget (bytes_of v) (without_slot slot l) ++ (slot, v) ∷ []),
    done,
  )
  lru_step budget (invalidated slot) l =
      (without_slot slot l, was_there (is_found (find_slot slot l)))
  lru_step budget cleared l = ([], done)
