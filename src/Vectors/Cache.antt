-- ===== src/Vectors/Cache.antt =====
-- `ExactCache` of crates/supra_vector/src/cache.rs. The type of a vector's element is a parameter.
-- The map of the vectors is kept in the order of its keys, an order that no operation reads.
use supra_harness.Prelude.{
  ℕ, zero, suc, ◌+◌, ◌-◌, ◌*◌, Bool, true, false, Option, none, some, List, [], ◌∷◌, length, ltb,
  ◌==◌, if◌then◌else◌,
}
use supra_harness.Prelude.OrdMap.{OrdMap, get, insert, remove}

abbrev pub default_cache_bytes : ℕ
default_cache_bytes = 16 * 1024 * 1024

pub record Cached (F : Type 0) : Type 0 where
  pub vector : List F
  pub tick : ℕ

pub record ExactCache (F : Type 0) : Type 0 where
  pub budget_bytes : ℕ
  pub used_bytes : ℕ
  pub tick : ℕ
  pub vectors : OrdMap (Cached F)
  pub order : OrdMap ℕ
  pub hits : ℕ
  pub misses : ℕ
  pub evictions : ℕ

pub record CacheStats : Type 0 where
  pub hits : ℕ
  pub misses : ℕ
  pub evictions : ℕ

module _ {F : Type 0} where
  -- `vector.len() * size_of::<f32>()`
  abbrev pub bytes_of : List F → ℕ
  bytes_of vector = length vector * 4

  abbrev pub cached : List F → ℕ → Cached F
  cached vector tick = record { vector = vector; tick = tick }

  unfoldable pub new_cache : ℕ → ExactCache F
  new_cache budget_bytes = record {
    budget_bytes = budget_bytes;
    used_bytes = 0;
    tick = 0;
    vectors = [];
    order = [];
    hits = 0;
    misses = 0;
    evictions = 0;
  }

  unfoldable pub look_up : ExactCache F → ℕ → ExactCache F × Option (List F)
  look_up cache slot = elim (get slot cache.vectors) [
    | none ↦ (record cache { misses = cache.misses + 1 }, none)
    | some entry ↦
        let tick = cache.tick + 1 in
        (
          record cache {
            tick = tick;
            order = insert tick slot (remove entry.tick cache.order);
            vectors = insert slot (cached entry.vector tick) cache.vectors;
            hits = cache.hits + 1;
          },
          some entry.vector,
        )
  ]

  -- The removal of a slot, with its place in the order and its bytes.
  unfoldable pub forget_slot : ExactCache F → ℕ → ExactCache F
  forget_slot cache slot = elim (get slot cache.vectors) [
    | none ↦ cache
    | some entry ↦ record cache {
      vectors = remove slot cache.vectors;
      order = remove entry.tick cache.order;
      used_bytes = cache.used_bytes - bytes_of entry.vector;
    }
  ]

  unfoldable pub evict_one : ExactCache F → ExactCache F × Bool
  evict_one cache = elim cache.order [
    | [] ↦ (cache, false)
    | (tick, slot) ∷ _ ↦
        let used : ℕ = elim (get slot cache.vectors) [
          | none ↦ cache.used_bytes
          | some entry ↦ cache.used_bytes - bytes_of entry.vector
        ] in
        (
          record cache {
            order = remove tick cache.order;
            vectors = remove slot cache.vectors;
            used_bytes = used;
            evictions = cache.evictions + 1;
          },
          true,
        )
  ]

  -- The loop of `put`. Each turn takes an entry out of the order, so that its length is fuel enough.
  unfoldable pub make_room : ℕ → ℕ → ExactCache F → ExactCache F
  make_room zero bytes cache = cache
  make_room (suc fuel) bytes cache = elim (ltb cache.budget_bytes (cache.used_bytes + bytes)) [
    | false ↦ cache
    | true ↦
        let (next, evicted) = evict_one cache in
        elim evicted [ false ↦ next | true ↦ make_room fuel bytes next ]
  ]

  -- The end of `put`: the vector as the most recent one.
  unfoldable pub retain : ExactCache F → ℕ → List F → ExactCache F
  retain cache slot vector =
      let tick = cache.tick + 1 in
      record cache {
        tick = tick;
        order = insert tick slot cache.order;
        used_bytes = cache.used_bytes + bytes_of vector;
        vectors = insert slot (cached vector tick) cache.vectors;
      }

  unfoldable pub put : ExactCache F → ℕ → List F → ExactCache F
  put cache slot vector =
      if ltb cache.budget_bytes (bytes_of vector)
      then cache
      else (let without = forget_slot cache slot in
          retain (make_room (length without.order) (bytes_of vector) without) slot vector)

  unfoldable pub invalidate : ExactCache F → ℕ → ExactCache F × Bool
  invalidate cache slot = elim (get slot cache.vectors) [
    | none ↦ (cache, false)
    | some entry ↦ (forget_slot cache slot, true)
  ]

  unfoldable pub clear : ExactCache F → ExactCache F
  clear cache = record cache { vectors = []; order = []; used_bytes = 0 }

  abbrev pub len : ExactCache F → ℕ
  len cache = length cache.vectors

  abbrev pub is_empty : ExactCache F → Bool
  is_empty cache = len cache == 0

  abbrev pub stats : ExactCache F → CacheStats
  stats cache = record { hits = cache.hits; misses = cache.misses; evictions = cache.evictions }
