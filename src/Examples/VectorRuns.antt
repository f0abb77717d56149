-- ===== src/Examples/VectorRuns.antt =====
-- A session with the vector cache of crates/supra_vector/src/cache.rs: a budget of two vectors of two
-- elements each.
use supra_harness.Prelude.{arith, ◌+◌, ℕ, ◌≡◌, ◌≤◌, refl, some, none, true, List, [], ◌∷◌, length}
use supra_harness.Prelude.OrdMap.{get, insert, remove}
use supra_harness.Vectors.Cache.{
  new_cache, look_up, put, make_room, evict_one, retain, forget_slot, invalidate, len,
}
use supra_harness.Vectors.Recency.{
  Request, looked_up, stored, invalidated, found, was_there, done, total_bytes,
}
use supra_harness.Vectors.Requests.{step, answers, after, lru_answers, lru_after}
use supra_harness.Vectors.Ending.{put_makes_room}
use supra_harness.Vectors.Refinement.{lru_refined, cache_bounded}

-- Slot 1 is read before slot 3 is stored, so that slot 2 is the one that goes; the vector of five
-- elements is larger than the budget and is not retained.
abbrev session : List (Request ℕ)
session =
    stored 1 (7 ∷ 8 ∷ [])
    ∷ stored 2 (5 ∷ 6 ∷ [])
    ∷ looked_up 1
    ∷ stored 3 (1 ∷ 2 ∷ [])
    ∷ looked_up 2
    ∷ looked_up 1
    ∷ invalidated 3
    ∷ stored 4 (1 ∷ 2 ∷ 3 ∷ 4 ∷ 5 ∷ [])
    ∷ []

session_answers :
    answers session (new_cache 16)
    ≡ done
      ∷ done
      ∷ found (some (7 ∷ 8 ∷ []))
      ∷ done
      ∷ found none
      ∷ found (some (7 ∷ 8 ∷ []))
      ∷ was_there true
      ∷ done
      ∷ []
unfolding answers step new_cache look_up put make_room evict_one retain forget_slot invalidate get
    insert remove
session_answers = refl

lru_refined_example : answers session (new_cache 16) ≡ lru_answers 16 session []
lru_refined_example = lru_refined 16 session

cache_bounded_example :
    ((after session (new_cache 16)).used_bytes ≤ 16)
    × ((after session (new_cache 16)).used_bytes ≡ total_bytes (lru_after 16 session []))
    × (len (after session (new_cache 16)) ≡ length (lru_after 16 session []))
    × (length (after session (new_cache 16)).order ≡ length (lru_after 16 session []))
cache_bounded_example = cache_bounded 16 session

put_makes_room_example :
    (let cache = forget_slot (after session (new_cache 16)) 9 in
      ((make_room (length cache.order) 8 cache).used_bytes + 8 ≤ 16)
      × (make_room (length cache.order + 3) 8 cache ≡ make_room (length cache.order) 8 cache))
put_makes_room_example = put_makes_room 16 session 9 (1 ∷ 2 ∷ []) 3 (omega arith)
