-- ===== src/Prompt/Eviction.antt =====
-- Eviction: crates/supra_prompt/src/evict.rs over the table of evicted turns in
-- crates/supra_store/src/turns.rs.
pub mod Bodies
pub mod Recall
use supra_harness.Prelude.{
  ℕ, ◌+◌, ◌-◌, ◌^◌, Bool, true, false, not, Option, none, some, List, [], ◌∷◌, Result, ok, err, ltb,
  ◌==◌, if◌then◌else◌, length, any, keep,
}
use supra_harness.Prelude.OrdMap.{OrdMap, get, insert}
use supra_harness.Canonical.{Bytes, for_kind, write_bytes, bytes_eq}
use supra_harness.Segment.{
  Block, text, thinking, tool_use, tool_result, MemoryIndexEntry, new_entry, memory_index, Segment,
}
use supra_harness.Segment
use supra_harness.Prompt.Error.{
  PromptError, recall_missing, recall_corrupt, eviction_failed, index_entry_too_long,
}
use supra_harness.Prompt.Sealed.{Sealed}

pub data ThinkingDisposition : Type 0 where
  keep_thinking drop_thinking : ThinkingDisposition

abbrev pub is_tool_use : Block → Bool
is_tool_use (text t) = false
is_tool_use (thinking t signature) = false
is_tool_use (tool_use call_id name input) = true
is_tool_use (tool_result call_id content is_error) = false

abbrev pub is_unsigned_thinking : Block → Bool
is_unsigned_thinking (text t) = false
is_unsigned_thinking (thinking t none) = true
is_unsigned_thinking (thinking t (some signature)) = false
is_unsigned_thinking (tool_use call_id name input) = false
is_unsigned_thinking (tool_result call_id content is_error) = false

-- `ThinkingDisposition::decide`
unfoldable pub disposition_of : List Block → ThinkingDisposition
disposition_of blocks = if any is_tool_use blocks then keep_thinking else drop_thinking

unfoldable pub render_body : List Block → ThinkingDisposition → List Block
render_body blocks keep_thinking = blocks
render_body blocks drop_thinking = keep (λ block. not (is_unsigned_thinking block)) blocks

unfoldable pub plan_eviction : Sealed → List Block × ThinkingDisposition
unfolding disposition_of render_body
plan_eviction segment =
    let disposition = disposition_of segment.value.blocks in
    (render_body segment.value.blocks disposition, disposition)

abbrev pub index_entry_of :
    {E : Type 0} → ℕ → ℕ → Result E MemoryIndexEntry → Result PromptError MemoryIndexEntry
index_entry_of turn bytes (ok entry) = ok entry
index_entry_of turn bytes (err e) = err (index_entry_too_long turn bytes)

unfoldable pub index_entry : ℕ → Bytes → Bytes → Result PromptError MemoryIndexEntry
unfolding new_entry
index_entry turn topic gist =
    index_entry_of turn (length topic + length gist) (new_entry turn topic gist)

unfoldable pub index_segment : MemoryIndexEntry → ℕ → Option Segment
unfolding Segment.new
index_segment entry id = elim (Segment.new id (memory_index entry) []) [
  | ok segment ↦ some segment
  | err e ↦ none
]

-- A row of `evicted_turn`, by turn. The length and the time of the row are read by nothing here.
pub record EvictedRow : Type 0 where
  pub body : Bytes
  pub body_hash : Bytes

abbrev pub TurnTable : Type 0
TurnTable = OrdMap EvictedRow

pub data StoreError : Type 0 where
  sqlite_error malformed : StoreError
  not_found : ℕ → StoreError
  corrupt conflict : ℕ → Bytes → Bytes → StoreError

abbrev pub hash_len : ℕ
hash_len = 32

unfoldable pub decode_digest : Bytes → Result StoreError Bytes
decode_digest bytes = if length bytes == hash_len then ok bytes else err malformed

-- Whether the engine refuses to begin, and whether it refuses the row or its commit.
pub record Engine : Type 0 where
  pub begin_refused : Bool
  pub commit_refused : Bool

module _ (digest : Bytes → Bytes) where
  -- 0x10 is the kind of a turn's body.
  unfoldable pub body_digest : Bytes → Bytes
  unfolding for_kind write_bytes
  body_digest body = digest (write_bytes (for_kind 16) 1 body)

  -- A turn that is there already: the same body again is a retry, if the row is intact.
  abbrev pub retry : ℕ → Bytes → EvictedRow → Result StoreError Bytes → Result StoreError Bytes
  retry turn offered row (err e) = err e
  retry turn offered row (ok stored) =
      if bytes_eq stored offered
      then (if bytes_eq (body_digest row.body) offered
          then ok offered
          else err (corrupt turn stored (body_digest row.body)))
      else err (conflict turn stored offered)

  abbrev pub store_row :
      Engine → ℕ → Bytes → TurnTable → Option EvictedRow → TurnTable × Result StoreError Bytes
  store_row engine turn body table (some row) =
      (table, retry turn (body_digest body) row (decode_digest row.body_hash))
  store_row engine turn body table none =
      if engine.commit_refused then (table, err sqlite_error) else (
        insert turn (record { body = body; body_hash = body_digest body }) table,
        ok (body_digest body),
      )

  -- `Store::evict_turn`
  unfoldable pub store_turn : Engine → TurnTable → ℕ → Bytes → TurnTable × Result StoreError Bytes
  unfolding decode_digest body_digest
  store_turn engine table turn body =
      if ltb (2 ^ 63 - 1) (length body)
      then (table, err malformed)
      else if engine.begin_refused
      then (table, err sqlite_error)
      else store_row engine turn body table (get turn table)

  abbrev pub check_row : ℕ → Bytes → Result StoreError Bytes → Result StoreError Bytes
  check_row turn body (err e) = err e
  check_row turn body (ok stored) =
      if not (bytes_eq (body_digest body) stored)
      then err (corrupt turn stored (body_digest body))
      else ok body

  abbrev pub load_row : ℕ → Option EvictedRow → Result StoreError Bytes
  load_row turn none = err (not_found turn)
  load_row turn (some row) = check_row turn row.body (decode_digest row.body_hash)

  -- `Store::recall_turn`, on an engine that answers the query.
  unfoldable pub load_turn : TurnTable → ℕ → Result StoreError Bytes
  unfolding decode_digest body_digest
  load_turn table turn = load_row turn (get turn table)

  abbrev pub evicted : ℕ → Result StoreError Bytes → Result PromptError Bytes
  evicted turn (ok hash) = ok hash
  evicted turn (err e) = err (eviction_failed turn)

  unfoldable pub evict_turn : Engine → TurnTable → ℕ → Bytes → TurnTable × Result PromptError Bytes
  unfolding store_turn
  evict_turn engine table turn body =
      let (after, stored) = store_turn engine table turn body in (after, evicted turn stored)

  abbrev pub recalled : ℕ → Result StoreError Bytes → Result PromptError Bytes
  recalled turn (ok body) = ok body
  recalled turn (err (not_found t)) = err (recall_missing turn)
  recalled turn (err (corrupt t stored computed)) = err (recall_corrupt turn)
  recalled turn (err sqlite_error) = err (eviction_failed turn)
  recalled turn (err malformed) = err (eviction_failed turn)
  recalled turn (err (conflict t stored offered)) = err (eviction_failed turn)

  unfoldable pub recall_turn : TurnTable → ℕ → Result PromptError Bytes
  unfolding load_turn
  recall_turn table turn = recalled turn (load_turn table turn)
