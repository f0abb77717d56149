-- ===== src/Vectors/Entries.antt =====
-- The entries of the cache of crates/supra_vector/src/cache.rs in order of use, each with the tick
-- of its last use, and the lists of the specification that they stand for.
use supra_harness.Prelude.{
  ℕ, suc, ◌+◌, ◌≤◌, ◌<◌, ◌≡◌, refl, inl, inr, Option, Option-cases, none, some, List, [], ◌∷◌, ◌++◌,
  length, ◌==◌, if◌then◌else◌, arith,
}
use supra_harness.Prelude.OrdMap.{OrdMap, insert, remove}
use supra_harness.Vectors.Cache.{Cached, bytes_of, cached}
use supra_harness.Vectors.Recency.{find_slot, without_slot, total_bytes}

pub record Entry (F : Type 0) : Type 0 where
  pub stamp : ℕ
  pub slot : ℕ
  pub vector : List F

module _ {F : Type 0} where
  abbrev pub entry : ℕ → ℕ → List F → Entry F
  entry stamp slot vector = record { stamp = stamp; slot = slot; vector = vector }

  -- The entry of a slot.
  unfoldable pub at_slot : ℕ → List (Entry F) → Option (Cached F)
  at_slot slot [] = none
  at_slot slot (e ∷ es) = if e.slot == slot then some (cached e.vector e.stamp) else at_slot slot es

  unfoldable pub drop_slot : ℕ → List (Entry F) → List (Entry F)
  drop_slot slot [] = []
  drop_slot slot (e ∷ es) = if e.slot == slot then es else e ∷ drop_slot slot es

  unfoldable pub order_of : List (Entry F) → OrdMap ℕ
  order_of [] = []
  order_of (e ∷ es) = (e.stamp, e.slot) ∷ order_of es

  -- The specification's view: the ticks are gone.
  unfoldable pub recent_of : List (Entry F) → List (ℕ × List F)
  recent_of [] = []
  recent_of (e ∷ es) = (e.slot, e.vector) ∷ recent_of es

  -- The ticks ascend from above `lo` to at most `hi`, and the slots differ.
  abbrev pub Ordered : ℕ → ℕ → List (Entry F) → Type 0
  Ordered lo hi [] = Unit {0}
  Ordered lo hi (e ∷ es) =
      (lo < e.stamp) × (e.stamp ≤ hi) × (at_slot e.slot es ≡ none) × Ordered e.stamp hi es

module _ {F : Type 0} where
  pub Ordered-weaken :
      (lo hi lo' hi' : ℕ) (es : List (Entry F))
      → lo' ≤ lo
      → hi ≤ hi'
      → Ordered lo hi es
      → Ordered lo' hi' es
  Ordered-weaken lo hi lo' hi' [] a b o = tt
  Ordered-weaken lo hi lo' hi' (e ∷ es) a b o =
      ground (arith, Ordered-weaken e.stamp hi e.stamp hi' es)

  pub at_slot-drop_slot :
      (lo hi slot s : ℕ) (es : List (Entry F))
      → Ordered lo hi es
      → at_slot s (drop_slot slot es) ≡ (if slot == s then none else at_slot s es)
  unfolding at_slot drop_slot
  at_slot-drop_slot lo hi slot s [] o = ground arith
  at_slot-drop_slot lo hi slot s (e ∷ es) o = ground (arith, at_slot-drop_slot e.stamp hi slot s es)

  pub Ordered-drop_slot :
      (lo hi slot : ℕ) (es : List (Entry F)) → Ordered lo hi es → Ordered lo hi (drop_slot slot es)
  unfolding drop_slot
  Ordered-drop_slot lo hi slot [] o = tt
  Ordered-drop_slot lo hi slot (e ∷ es) o = ground (
    arith,
    Ordered-drop_slot e.stamp hi slot es,
    Ordered-weaken e.stamp hi lo hi es,
    at_slot-drop_slot e.stamp hi slot e.slot es,
  )

  pub at_slot-append :
      (s t slot : ℕ) (v : List F) (es : List (Entry F))
      → at_slot s es ≡ none
      → at_slot s (es ++ entry t slot v ∷ []) ≡ (if slot == s then some (cached v t) else none)
  unfolding at_slot
  at_slot-append s t slot v [] a = refl
  at_slot-append s t slot v (e ∷ es) a = ground (arith, at_slot-append s t slot v es)

  at_slot-append_old :
      (s t slot : ℕ) (v : List F) (es : List (Entry F)) (c : Cached F)
      → at_slot s es ≡ some c
      → at_slot s (es ++ entry t slot v ∷ []) ≡ some c
  unfolding at_slot
  at_slot-append_old s t slot v [] c a = ground arith
  at_slot-append_old s t slot v (e ∷ es) c a = ground (arith, at_slot-append_old s t slot v es c)

  -- A slot that is new may be appended: where the others are found does not change.
  pub at_slot-append_new :
      (s t slot : ℕ) (v : List F) (es : List (Entry F))
      → at_slot slot es ≡ none
      → at_slot s (es ++ entry t slot v ∷ [])
        ≡ (if slot == s then some (cached v t) else at_slot s es)
  at_slot-append_new s t slot v es a = elim (Option-cases (at_slot s es)) [
    | inl absent ↦ rw (at_slot-append s t slot v es absent, absent) refl
    | inr (c, there) ↦
        ground
          (arith, there, at_slot-append_old s t slot v es c there, Option-cases (at_slot slot es))
  ]

  -- A tick above all the others goes to the end.
  pub Ordered-append :
      (lo hi slot : ℕ) (v : List F) (es : List (Entry F))
      → lo ≤ hi
      → Ordered lo hi es
      → at_slot slot es ≡ none
      → Ordered lo (hi + 1) (es ++ entry (hi + 1) slot v ∷ [])
  unfolding at_slot
  Ordered-append lo hi slot v [] h o a = ground arith
  Ordered-append lo hi slot v (e ∷ es) h o a =
      ground (arith, Ordered-append e.stamp hi slot v es, at_slot-append e.slot (hi + 1) slot v es)

  pub insert-order_of :
      (lo hi slot : ℕ) (v : List F) (es : List (Entry F))
      → Ordered lo hi es
      → insert (hi + 1) slot (order_of es) ≡ order_of (es ++ entry (hi + 1) slot v ∷ [])
  unfolding insert order_of
  insert-order_of lo hi slot v [] o = refl
  insert-order_of lo hi slot v (e ∷ es) o = ground (arith, insert-order_of e.stamp hi slot v es)

  stamp-at_slot :
      (lo hi slot : ℕ) (es : List (Entry F)) (c : Cached F)
      → Ordered lo hi es
      → at_slot slot es ≡ some c
      → lo < c.tick
  unfolding at_slot
  stamp-at_slot lo hi slot [] c o h = ground arith
  stamp-at_slot lo hi slot (e ∷ es) c o h = ground (arith, stamp-at_slot e.stamp hi slot es c)

  pub remove-order_of :
      (lo hi slot : ℕ) (es : List (Entry F)) (c : Cached F)
      → Ordered lo hi es
      → at_slot slot es ≡ some c
      → remove c.tick (order_of es) ≡ order_of (drop_slot slot es)
  unfolding remove order_of at_slot drop_slot
  remove-order_of lo hi slot [] c o h = ground arith
  remove-order_of lo hi slot (e ∷ es) c o h =
      ground (arith, remove-order_of e.stamp hi slot es c, stamp-at_slot e.stamp hi slot es c)

  -- The specification's functions on the entries.
  pub recent_of-drop_slot :
      (slot : ℕ) (es : List (Entry F))
      → recent_of (drop_slot slot es) ≡ without_slot slot (recent_of es)
  unfolding recent_of drop_slot without_slot
  recent_of-drop_slot slot [] = refl
  recent_of-drop_slot slot (e ∷ es) = ground (arith, recent_of-drop_slot slot es)

  pub recent_of-append :
      (t slot : ℕ) (v : List F) (es : List (Entry F))
      → recent_of (es ++ entry t slot v ∷ []) ≡ recent_of es ++ (slot, v) ∷ []
  unfolding recent_of
  recent_of-append t slot v [] = refl
  recent_of-append t slot v (e ∷ es) = ground (arith, recent_of-append t slot v es)

  pub find_slot-at_slot :
      (slot : ℕ) (es : List (Entry F))
      → find_slot slot (recent_of es)
        ≡ elim (at_slot slot es) [ none ↦ none | some c ↦ some c.vector ]
  unfolding find_slot recent_of at_slot
  find_slot-at_slot slot [] = refl
  find_slot-at_slot slot (e ∷ es) = ground (arith, find_slot-at_slot slot es)

  pub total_bytes-drop_slot :
      (slot : ℕ) (es : List (Entry F)) (c : Cached F)
      → at_slot slot es ≡ some c
      → total_bytes (recent_of (drop_slot slot es)) + bytes_of c.vector ≡ total_bytes (recent_of es)
  unfolding total_bytes recent_of drop_slot at_slot
  total_bytes-drop_slot slot [] c h = ground arith
  total_bytes-drop_slot slot (e ∷ es) c h = ground (arith, total_bytes-drop_slot slot es c)

  pub total_bytes-append :
      (slot : ℕ) (v : List F) (l : List (ℕ × List F))
      → total_bytes (l ++ (slot, v) ∷ []) ≡ total_bytes l + bytes_of v
  unfolding total_bytes
  total_bytes-append slot v [] = omega arith
  total_bytes-append slot v ((s, w) ∷ l) = omega (arith, total_bytes-append slot v l)

  pub length-drop_slot :
      (slot : ℕ) (es : List (Entry F)) (c : Cached F)
      → at_slot slot es ≡ some c
      → suc (length (drop_slot slot es)) ≡ length es
  unfolding drop_slot at_slot
  length-drop_slot slot [] c h = ground arith
  length-drop_slot slot (e ∷ es) c h = ground (arith, length-drop_slot slot es c)

  pub drop_slot-absent :
      (slot : ℕ) (es : List (Entry F)) → at_slot slot es ≡ none → drop_slot slot es ≡ es
  unfolding drop_slot at_slot
  drop_slot-absent slot [] h = refl
  drop_slot-absent slot (e ∷ es) h = ground (arith, drop_slot-absent slot es)
