-- ===== src/Vectors/Requests.antt =====
-- Sessions of requests, to the cache of crates/supra_vector/src/cache.rs and to the specification.
use supra_harness.Prelude.{ℕ, List, [], ◌∷◌}
use supra_harness.Vectors.Cache.{ExactCache, look_up, put, invalidate, clear}
use supra_harness.Vectors.Recency.{
  Request, looked_up, stored, invalidated, cleared, Answer, found, was_there, done, lru_step,
}

module _ {F : Type 0} where
  unfoldable pub step : Request F → ExactCache F → ExactCache F × Answer F
  step (looked_up slot) cache = let (next, vector) = look_up cache slot in (next, found vector)
  step (stored slot vector) cache = (put cache slot vector, done)
  step (invalidated slot) cache =
      let (next, there) = invalidate cache slot in (next, was_there there)
  step cleared cache = (clear cache, done)

  unfoldable pub answers : List (Request F) → ExactCache F → List (Answer F)
  answers [] cache = []
  answers (q ∷ qs) cache = (step q cache).1 ∷ answers qs (step q cache).0

  unfoldable pub after : List (Request F) → ExactCache F → ExactCache F
  after [] cache = cache
  after (q ∷ qs) cache = after qs (step q cache).0

  unfoldable pub lru_answers : ℕ → List (Request F) → List (ℕ × List F) → List (Answer F)
  lru_answers budget [] l = []
  lru_answers budget (q ∷ qs) l =
      (lru_step budget q l).1 ∷ lru_answers budget qs (lru_step budget q l).0

  unfoldable pub lru_after : ℕ → List (Request F) → List (ℕ × List F) → List (ℕ × List F)
  lru_after budget [] l = l
  lru_after budget (q ∷ qs) l = lru_after budget qs (lru_step budget q l).0
