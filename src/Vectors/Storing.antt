-- ===== src/Vectors/Storing.antt =====
-- Reads and writes of crates/supra_vector/src/cache.rs on the entries in order of use.
use supra_harness.Prelude.{
  ℕ, ◌+◌, ◌≤◌, ◌≡◌, refl, sym, ap, subst, inl, inr, Bool-cases, true, none, some, List, [], ◌∷◌,
  ◌++◌, length, length-append, ◌==◌, if◌then◌else◌, arith, ◌∙◌,
}
use supra_harness.Prelude.OrdMap.{
  OrdMap, get, insert, IsSorted, get-insert, insert-IsSorted, length-insert_old, length-insert_new,
}
use supra_harness.Vectors.Cache.{
  Cached, ExactCache, bytes_of, cached, look_up, forget_slot, evict_one, retain,
}
use supra_harness.Vectors.Recency.{total_bytes}
use supra_harness.Vectors.Entries.{
  Entry, entry, at_slot, drop_slot, order_of, recent_of, Ordered, at_slot-drop_slot,
  Ordered-drop_slot, at_slot-append_new, Ordered-append, insert-order_of, remove-order_of,
  recent_of-append, total_bytes-drop_slot, total_bytes-append, length-drop_slot,
}
use supra_harness.Vectors.Represents.{Represents, forget_slot-held}

module _ {F : Type 0} where
  pub drop_slot-at_slot :
      (lo hi slot : ℕ) (es : List (Entry F))
      → Ordered lo hi es
      → at_slot slot (drop_slot slot es) ≡ none
  drop_slot-at_slot lo hi slot es o = ground (arith, at_slot-drop_slot lo hi slot slot es o)

  -- Setting the entry that is held, or one that is not.
  get-moved :
      (lo hi slot t s : ℕ) (v : List F) (m : OrdMap (Cached F)) (es : List (Entry F))
      → Ordered lo hi es
      → ((s : ℕ) → get s m ≡ at_slot s es)
      → get s (insert slot (cached v t) m) ≡ at_slot s (drop_slot slot es ++ entry t slot v ∷ [])
  get-moved lo hi slot t s v m es o held =
      rw
        (
          get-insert slot s (cached v t) m,
          at_slot-append_new s t slot v (drop_slot slot es) (drop_slot-at_slot lo hi slot es o),
          held s,
          at_slot-drop_slot lo hi slot s es o,
        )
        (elim (Bool-cases (slot == s)) [ inl e ↦ rw e refl | inr e ↦ rw e refl ])

  length-moved :
      (slot t : ℕ) (v : List F) (c : Cached F) (m : OrdMap (Cached F)) (es : List (Entry F))
      → IsSorted m
      → length m ≡ length es
      → get slot m ≡ some c
      → at_slot slot es ≡ some c
      → length (insert slot (cached v t) m) ≡ length (drop_slot slot es ++ entry t slot v ∷ [])
  length-moved slot t v c m es s l g a = ground (
    arith,
    length-insert_old slot (cached v t) c m s g,
    length-append (drop_slot slot es) (entry t slot v ∷ []),
    length-drop_slot slot es c a,
  )

  total_bytes-moved :
      (slot t : ℕ) (c : Cached F) (es : List (Entry F))
      → at_slot slot es ≡ some c
      → total_bytes (recent_of (drop_slot slot es ++ entry t slot c.vector ∷ []))
        ≡ total_bytes (recent_of es)
  total_bytes-moved slot t c es a =
      rw
        (
          recent_of-append t slot c.vector (drop_slot slot es),
          total_bytes-append slot c.vector (recent_of (drop_slot slot es)),
        )
        (total_bytes-drop_slot slot es c a)

  -- A hit makes the entry the most recent one.
  pub look_up-hit :
      (cache : ExactCache F) (es : List (Entry F)) (slot : ℕ) (c : Cached F)
      → Represents cache es
      → get slot cache.vectors ≡ some c
      → Represents
          (look_up cache slot).0
          (drop_slot slot es ++ entry (cache.tick + 1) slot c.vector ∷ [])
  unfolding look_up
  look_up-hit cache es slot c r h =
      let at : at_slot slot es ≡ some c = sym (r.held slot) ∙ h in
      let left : Ordered 0 cache.tick (drop_slot slot es) =
        Ordered-drop_slot 0 cache.tick slot es r.ascending in
      rw (h, look_up)
        (record {
          in_order =
              rw (r.in_order, remove-order_of 0 cache.tick slot es c r.ascending at)
                (insert-order_of 0 cache.tick slot c.vector (drop_slot slot es) left);
          ascending =
              Ordered-append 0 cache.tick slot c.vector (drop_slot slot es) (omega arith) left
                (drop_slot-at_slot 0 cache.tick slot es r.ascending);
          sorted = insert-IsSorted slot (cached c.vector (cache.tick + 1)) cache.vectors r.sorted;
          held = λ s.
              get-moved 0 cache.tick slot (cache.tick + 1) s c.vector cache.vectors es r.ascending
                r.held;
          counted =
              length-moved slot (cache.tick + 1) c.vector c cache.vectors es r.sorted r.counted h
                at;
          used = r.used ∙ sym (total_bytes-moved slot (cache.tick + 1) c es at);
          within = r.within;
        })

  pub look_up-miss :
      (cache : ExactCache F) (es : List (Entry F)) (slot : ℕ)
      → Represents cache es
      → get slot cache.vectors ≡ none
      → Represents (look_up cache slot).0 es
  unfolding look_up
  look_up-miss cache es slot r h =
      rw (h, look_up)
        (record {
          in_order = r.in_order;
          ascending = r.ascending;
          sorted = r.sorted;
          held = r.held;
          counted = r.counted;
          used = r.used;
          within = r.within;
        })

  pub retain-Represents :
      (cache : ExactCache F) (es : List (Entry F)) (slot : ℕ) (v : List F)
      → Represents cache es
      → at_slot slot es ≡ none
      → cache.used_bytes + bytes_of v ≤ cache.budget_bytes
      → Represents (retain cache slot v) (es ++ entry (cache.tick + 1) slot v ∷ [])
  unfolding retain
  retain-Represents cache es slot v r new fits = record {
    in_order = rw (r.in_order) (insert-order_of 0 cache.tick slot v es r.ascending);
    ascending = Ordered-append 0 cache.tick slot v es (omega arith) r.ascending new;
    sorted = insert-IsSorted slot (cached v (cache.tick + 1)) cache.vectors r.sorted;
    held = λ s.
        get-insert slot s (cached v (cache.tick + 1)) cache.vectors
        ∙ ap (λ x. if slot == s then some (cached v (cache.tick + 1)) else x) (r.held s)
        ∙ sym (at_slot-append_new s (cache.tick + 1) slot v es new);
    counted = ground (
      arith,
      r.counted,
      length-insert_new slot (cached v (cache.tick + 1)) cache.vectors (r.held slot ∙ new),
      length-append es (entry (cache.tick + 1) slot v ∷ []),
    );
    used =
        rw (recent_of-append (cache.tick + 1) slot v es, total_bytes-append slot v (recent_of es))
          (ap (λ n. n + bytes_of v) r.used);
    within = fits;
  }

  evict_one-step :
      (cache : ExactCache F) (slot : ℕ) (c : Cached F) (rest : OrdMap ℕ)
      → cache.order ≡ (c.tick, slot) ∷ rest
      → get slot cache.vectors ≡ some c
      → evict_one cache
        ≡ (record (forget_slot cache slot) { evictions = cache.evictions + 1 }, true)
  unfolding evict_one forget_slot
  evict_one-step cache slot c rest o h = rw (o, h, evict_one, forget_slot) refl

  at_head :
      (e : Entry F) (es : List (Entry F)) → at_slot e.slot (e ∷ es) ≡ some (cached e.vector e.stamp)
  unfolding at_slot
  at_head e es = ground arith

  drop_head : (e : Entry F) (es : List (Entry F)) → drop_slot e.slot (e ∷ es) ≡ es
  unfolding drop_slot
  drop_head e es = ground arith

  order_head :
      (e : Entry F) (es : List (Entry F)) → order_of (e ∷ es) ≡ (e.stamp, e.slot) ∷ order_of es
  unfolding order_of
  order_head e es = refl

  -- The least recent entry goes.
  pub evict_one-Represents :
      (cache : ExactCache F) (e : Entry F) (es : List (Entry F))
      → Represents cache (e ∷ es)
      → Represents (evict_one cache).0 es × ((evict_one cache).1 ≡ true)
  evict_one-Represents cache e es r =
      let at : at_slot e.slot (e ∷ es) ≡ some (cached e.vector e.stamp) = at_head e es in
      let h : get e.slot cache.vectors ≡ some (cached e.vector e.stamp) = r.held e.slot ∙ at in
      let f : Represents (forget_slot cache e.slot) es =
        subst (Represents (forget_slot cache e.slot)) (drop_head e es)
          (forget_slot-held cache (e ∷ es) e.slot (cached e.vector e.stamp) r h) in
      rw
        (evict_one-step cache e.slot (cached e.vector e.stamp) (order_of es)
          (r.in_order ∙ order_head e es) h)
        (
          record {
            in_order = f.in_order;
            ascending = f.ascending;
            sorted = f.sorted;
            held = f.held;
            counted = f.counted;
            used = f.used;
            within = f.within;
          },
          refl,
        )
