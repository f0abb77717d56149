-- ===== src/Prompt/Eviction/Recall.antt =====
-- What is recalled is what was evicted: crates/supra_prompt/src/evict.rs and
-- crates/supra_store/src/turns.rs.
use supra_harness.Prelude.{
  ℕ, ◌≡◌, refl, sym, ap, ◌∙◌, ◌⊎◌, inl, inr, ◌^◌, ◌-◌, Bool-cases, Option, none, some, List, [],
  ◌∷◌, Result, ok, err, if-elim, arith, length, ltb, ◌==◌,
}
use supra_harness.Prelude.OrdMap.{get, insert, get-insert}
use supra_harness.Canonical.{Bytes, bytes_eq, bytes_eq_iff, bytes_eq_refl}
use supra_harness.Prompt.Eviction.{
  EvictedRow, TurnTable, StoreError, Engine, decode_digest, body_digest, store_row, store_turn,
  load_turn, load_row, evict_turn, evicted, recall_turn, recalled, retry,
}

-- An eviction that a session asks for, with what the engine does.
pub record Eviction : Type 0 where
  pub engine : Engine
  pub turn : ℕ
  pub body : Bytes

module _ (digest : Bytes → Bytes) where
  unfoldable pub evict_all : TurnTable → List Eviction → TurnTable
  unfolding evict_turn
  evict_all table [] = table
  evict_all table (e ∷ es) = evict_all (evict_turn digest e.engine table e.turn e.body).0 es

  -- An eviction leaves the table alone, or adds a row where there was none.
  Stored : TurnTable → ℕ → Bytes → TurnTable × Result StoreError Bytes → Type 0
  Stored table turn body r =
      (r.0 ≡ table)
      ⊎ ((get turn table ≡ none)
          × (r.0 ≡ insert turn (record { body = body; body_hash = body_digest digest body }) table))

  store_row-Stored :
      (engine : Engine) (turn : ℕ) (body : Bytes) (table : TurnTable) (row : Option EvictedRow)
      → get turn table ≡ row
      → Stored table turn body (store_row digest engine turn body table row)
  unfolding Stored
  store_row-Stored engine turn body table (some row) h = inl refl
  store_row-Stored engine turn body table none h =
      if-elim (Stored table turn body) engine.commit_refused (λ _. inl refl) (λ _. inr (h, refl))

  store_turn-Stored :
      (engine : Engine) (table : TurnTable) (turn : ℕ) (body : Bytes)
      → Stored table turn body (store_turn digest engine table turn body)
  unfolding store_turn Stored
  store_turn-Stored engine table turn body =
      let P = Stored table turn body in
      if-elim P (ltb (2 ^ 63 - 1) (length body)) (λ _. inl refl)
        (λ _.
          if-elim P engine.begin_refused (λ _. inl refl)
            (λ _. store_row-Stored engine turn body table (get turn table) refl))

  -- A row that is there stays as it is.
  evict_turn-kept :
      (engine : Engine) (table : TurnTable) (other turn : ℕ) (body : Bytes) (row : EvictedRow)
      → get turn table ≡ some row
      → get turn (evict_turn digest engine table other body).0 ≡ some row
  unfolding evict_turn Stored
  evict_turn-kept engine table other turn body row h =
      elim (store_turn-Stored engine table other body) [
        | inl same ↦ ap (get turn) same ∙ h
        | inr (new, added) ↦
            ap (get turn) added
            ∙ get-insert other turn (record { body = body; body_hash = body_digest digest body })
                table
            ∙ (elim (Bool-cases (other == turn)) [
              | inl here ↦ absurd (
                  ground (
                    arith,
                    here,
                    new,
                    h,
                    ap (λ k. get k table) {x = other} {y = turn} (ground (arith, here)),
                  ))
              | inr there ↦ rw there h
            ])
      ]

  evict_all-kept :
      (es : List Eviction) (table : TurnTable) (turn : ℕ) (row : EvictedRow)
      → get turn table ≡ some row
      → get turn (evict_all table es) ≡ some row
  unfolding evict_all
  evict_all-kept [] table turn row h = h
  evict_all-kept (e ∷ es) table turn row h =
      evict_all-kept es (evict_turn digest e.engine table e.turn e.body).0 turn row
        (evict_turn-kept e.engine table e.turn turn e.body row h)

  -- The row of a turn that has just been evicted.
  record IsIntact (turn : ℕ) (body : Bytes) (before after : TurnTable) : Type 0 where
    row : EvictedRow
    there : get turn after ≡ some row
    recorded : row.body_hash ≡ body_digest digest body
    same : body_digest digest row.body ≡ body_digest digest body
    first : ((old : EvictedRow) × (get turn before ≡ some old)) ⊎ (row.body ≡ body)

  Answered : ℕ → Bytes → TurnTable → TurnTable × Result StoreError Bytes → Type 0
  Answered turn body table r = ((e : StoreError) × (r.1 ≡ err e)) ⊎ IsIntact turn body table r.0

  decode_digest-ok :
      (bytes : Bytes)
      → ((e : StoreError) × (decode_digest bytes ≡ err e)) ⊎ (decode_digest bytes ≡ ok bytes)
  unfolding decode_digest
  decode_digest-ok bytes =
      if-elim (λ (r : Result StoreError Bytes). ((e : StoreError) × (r ≡ err e)) ⊎ (r ≡ ok bytes))
        (length bytes == 32) (λ _. inr refl) (λ _. inl (_, refl))

  retry-Answered :
      (turn : ℕ) (body : Bytes) (table : TurnTable) (row : EvictedRow)
      → get turn table ≡ some row
      → Answered turn body table
          (table, retry digest turn (body_digest digest body) row (decode_digest row.body_hash))
  unfolding Answered
  retry-Answered turn body table row h = elim (decode_digest-ok row.body_hash) [
    | inl (e, failed) ↦ rw failed (inl (e, refl))
    | inr stored ↦ rw stored (
        if-elim
          (λ (r : Result StoreError Bytes).
            ((e : StoreError) × (r ≡ err e)) ⊎ IsIntact turn body table table)
          (bytes_eq row.body_hash (body_digest digest body))
          (λ same_hash.
            if-elim
              (λ (r : Result StoreError Bytes).
                ((e : StoreError) × (r ≡ err e)) ⊎ IsIntact turn body table table)
              (bytes_eq (body_digest digest row.body) (body_digest digest body))
              (λ intact. inr (record {
                row = row;
                there = h;
                recorded = (bytes_eq_iff row.body_hash (body_digest digest body)).0 same_hash;
                same =
                    (bytes_eq_iff (body_digest digest row.body) (body_digest digest body)).0 intact;
                first = inl (row, h);
              }))
              (λ _. inl (_, refl)))
          (λ _. inl (_, refl)))
  ]

  store_row-Answered :
      (engine : Engine) (turn : ℕ) (body : Bytes) (table : TurnTable) (found : Option EvictedRow)
      → get turn table ≡ found
      → Answered turn body table (store_row digest engine turn body table found)
  unfolding Answered
  store_row-Answered engine turn body table (some row) h =
      unfold Answered in (retry-Answered turn body table row h)
  store_row-Answered engine turn body table none h =
      if-elim
        (λ (r : TurnTable × Result StoreError Bytes).
          ((e : StoreError) × (r.1 ≡ err e)) ⊎ IsIntact turn body table r.0)
        engine.commit_refused (λ _. inl (_, refl))
        (λ _. inr (record {
          row = record { body = body; body_hash = body_digest digest body };
          there = ground (
            arith,
            get-insert turn turn (record { body = body; body_hash = body_digest digest body })
                table,
          );
          recorded = refl;
          same = refl;
          first = inr refl;
        }))

  store_turn-Answered :
      (engine : Engine) (table : TurnTable) (turn : ℕ) (body : Bytes)
      → Answered turn body table (store_turn digest engine table turn body)
  unfolding store_turn Answered
  store_turn-Answered engine table turn body =
      let P = λ (r : TurnTable × Result StoreError Bytes).
        ((e : StoreError) × (r.1 ≡ err e)) ⊎ IsIntact turn body table r.0 in
      if-elim P (ltb (2 ^ 63 - 1) (length body)) (λ _. inl (_, refl))
        (λ _.
          if-elim P engine.begin_refused (λ _. inl (_, refl))
            (λ _.
              unfold Answered in (store_row-Answered engine turn body table (get turn table) refl)))

  body_digest-sized :
      ((bytes : Bytes) → length (digest bytes) ≡ 32)
      → (body : Bytes) → length (body_digest digest body) ≡ 32
  unfolding body_digest
  body_digest-sized sized body = sized _

  load_intact :
      (turn : ℕ) (row : EvictedRow) (table : TurnTable)
      → get turn table ≡ some row
      → row.body_hash ≡ body_digest digest row.body
      → length row.body_hash ≡ 32
      → load_turn digest table turn ≡ ok row.body
  unfolding load_turn decode_digest
  load_intact turn row table there hash sized =
      ap (load_row digest turn) there
      ∙ (ground (
        arith,
        sized,
        bytes_eq_refl (body_digest digest row.body),
        ap (bytes_eq (body_digest digest row.body)) hash,
      ))

  -- A turn whose eviction succeeded is recalled, however many evictions of this and other turns follow
  -- and however they end: with the very bytes that were evicted, where the turn had no row before,
  -- and otherwise, after a retry, with bytes of the same digest.
  pub recall_evicted :
      (sized : (bytes : Bytes) → length (digest bytes) ≡ 32) (engine : Engine) (table : TurnTable)
      (turn : ℕ) (body hash : Bytes) (later : List Eviction)
      → (evict_turn digest engine table turn body).1 ≡ ok hash
      → (stored : Bytes) × (recall_turn digest
            (evict_all (evict_turn digest engine table turn body).0 later)
            turn
          ≡ ok stored)
        × (body_digest digest stored ≡ body_digest digest body)
        × (((old : EvictedRow) × (get turn table ≡ some old)) ⊎ (stored ≡ body))
  unfolding evict_turn recall_turn Answered
  recall_evicted sized engine table turn body hash later done =
      elim (store_turn-Answered engine table turn body) [
        | inl (e, failed) ↦ absurd (ground (arith, ap (evicted digest turn) failed, done))
        | inr it ↦
            let kept =
              evict_all-kept later (store_turn digest engine table turn body).0 turn it.row
                it.there in
            (
              it.row.body,
              ap (recalled digest turn) (
                  load_intact turn it.row
                    (evict_all (store_turn digest engine table turn body).0 later) kept
                    (it.recorded ∙ sym it.same)
                    (ap length it.recorded ∙ body_digest-sized sized body)),
              it.same,
              it.first,
            )
      ]
