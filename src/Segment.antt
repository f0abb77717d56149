-- ===== src/Segment.antt =====
-- Prompt segments: crates/supra_types/src/segment.rs. Texts are their bytes; ids are numbers of 128
-- bits whose upper 48 bits are a time stamp.
pub mod Traffic
pub mod Encoding
use supra_harness.Prelude.{
  ℕ, zero, suc, ◌+◌, ◌/◌, ◌^◌, Bool, true, false, not, ◌&&◌, ◌||◌, Option, none, some, List, [],
  ◌∷◌, Result, ok, err, ltb, length, if◌then◌else◌,
}
use supra_harness.Canonical.{
  Bytes, Writer, le_bytes, for_kind, write_bytes, write_str, write_u64, write_u8, write_bool,
  write_count, write_opt_str,
}

pub data Role : Type 0 where
  user assistant : Role

abbrev pub role_discriminant : Role → ℕ
role_discriminant user = 0
role_discriminant assistant = 1

-- The input of a tool call is canonical JSON, kept as its text.
pub data Block : Type 0 where
  text : Bytes → Block
  thinking : Bytes → Option Bytes → Block
  tool_use : Bytes → Bytes → Bytes → Block
  tool_result : Bytes → Bytes → Bool → Block

unfoldable pub is_tool_traffic : Block → Bool
is_tool_traffic (text t) = false
is_tool_traffic (thinking t signature) = false
is_tool_traffic (tool_use call_id name input) = true
is_tool_traffic (tool_result call_id content is_error) = true

abbrev pub block_discriminant : Block → ℕ
block_discriminant (text t) = 0
block_discriminant (thinking t signature) = 1
block_discriminant (tool_use call_id name input) = 2
block_discriminant (tool_result call_id content is_error) = 3

unfoldable pub write_block : Writer → Block → Writer
unfolding write_u8 write_str write_opt_str write_bool
write_block w (text t) = write_str (write_u8 w 0 0) 1 t
write_block w (thinking t signature) = write_opt_str (write_str (write_u8 w 0 1) 1 t) 2 signature
write_block w (tool_use call_id name input) =
    write_str (write_str (write_str (write_u8 w 0 2) 1 call_id) 2 name) 3 input
write_block w (tool_result call_id content is_error) =
    write_bool (write_str (write_str (write_u8 w 0 3) 1 call_id) 2 content) 3 is_error

pub record MemoryIndexEntry : Type 0 where
  pub turn : ℕ
  pub topic : Bytes
  pub gist : Bytes

pub data SegmentError : Type 0 where
  index_entry_too_long index_segment_has_blocks interleaved_tool_traffic : ℕ → SegmentError

abbrev pub max_content_bytes : ℕ
max_content_bytes = 80

unfoldable pub new_entry : ℕ → Bytes → Bytes → Result SegmentError MemoryIndexEntry
new_entry turn topic gist =
    let bytes = length topic + length gist in
    if ltb max_content_bytes bytes
    then err (index_entry_too_long bytes)
    else ok (record { turn = turn; topic = topic; gist = gist })

-- `timestamp_ms` of an id: the upper 48 of its 128 bits.
abbrev pub timestamp_ms : ℕ → ℕ
timestamp_ms id = id / 2 ^ 80

unfoldable pub write_entry : Writer → MemoryIndexEntry → Writer
unfolding write_u64 write_bytes write_str
write_entry w entry =
    write_str
      (write_str (write_bytes (write_u64 w 1 (timestamp_ms entry.turn)) 2 (le_bytes 16 entry.turn))
        3 entry.topic)
      4 entry.gist

pub data SegmentKind : Type 0 where
  tool_manifest system_contract : SegmentKind
  memory_index : MemoryIndexEntry → SegmentKind
  turn_of : ℕ → Role → SegmentKind

unfoldable pub is_session_frozen : SegmentKind → Bool
is_session_frozen tool_manifest = true
is_session_frozen system_contract = true
is_session_frozen (memory_index entry) = false
is_session_frozen (turn_of turn role) = false

abbrev pub is_memory_index : SegmentKind → Bool
is_memory_index (memory_index entry) = true
is_memory_index tool_manifest = false
is_memory_index system_contract = false
is_memory_index (turn_of turn role) = false

-- `nested` writes the kind byte of the nested value, then the value: 0x03 is that of an entry.
unfoldable pub write_kind : Writer → SegmentKind → Writer
unfolding write_u8 write_bytes write_entry
write_kind w tool_manifest = write_u8 w 0 0
write_kind w system_contract = write_u8 w 0 1
write_kind w (memory_index entry) = write_entry (write_u8 (write_u8 w 0 2) 1 3) entry
write_kind w (turn_of turn role) =
    write_u8 (write_bytes (write_u8 w 0 3) 1 (le_bytes 16 turn)) 2 (role_discriminant role)

pub record Segment : Type 0 where
  pub id : ℕ
  pub kind : SegmentKind
  pub blocks : List Block

-- The loop of `first_interleaving` over `(seen_run, in_run)`, at index `index`.
unfoldable pub interleaving_from : ℕ → Bool → Bool → List Block → Option ℕ
unfolding is_tool_traffic
interleaving_from index seen_run in_run [] = none
interleaving_from index seen_run in_run (block ∷ blocks) =
    let inside = interleaving_from (suc index) (seen_run || not in_run) true blocks in
    let outside = interleaving_from (suc index) seen_run false blocks in
    if is_tool_traffic block then if not in_run && seen_run then some index else inside else outside

unfoldable pub first_interleaving : List Block → Option ℕ
unfolding interleaving_from
first_interleaving blocks = interleaving_from 0 false false blocks

unfoldable pub new : ℕ → SegmentKind → List Block → Result SegmentError Segment
unfolding first_interleaving
new id kind blocks =
    if is_memory_index kind && ltb 0 (length blocks)
    then err (index_segment_has_blocks (length blocks))
    else elim (first_interleaving blocks) [
      | some at ↦ err (interleaved_tool_traffic at)
      | none ↦ ok (record { id = id; kind = kind; blocks = blocks })
    ]

-- The loop of `lookback_positions` over `(positions, in_run)`.
unfoldable pub positions_from : ℕ → Bool → List Block → ℕ
unfolding is_tool_traffic
positions_from positions in_run [] = positions
positions_from positions in_run (block ∷ blocks) =
    positions_from (if is_tool_traffic block && in_run then positions else positions + 1)
      (is_tool_traffic block) blocks

unfoldable pub lookback_positions : Segment → ℕ
unfolding positions_from
lookback_positions segment = positions_from 0 false segment.blocks

-- The blocks of a segment, each behind the kind byte 0x02 of a block.
unfoldable pub write_blocks : Writer → List Block → Writer
unfolding write_u8 write_block
write_blocks w [] = w
write_blocks w (block ∷ blocks) = write_blocks (write_block (write_u8 w 4 2) block) blocks

unfoldable pub write_segment : Writer → Segment → Writer
unfolding write_bytes write_u8 write_kind write_count write_blocks
write_segment w segment =
    write_blocks
      (write_count
        (write_kind (write_u8 (write_bytes w 1 (le_bytes 16 segment.id)) 2 4) segment.kind) 3
        (length segment.blocks))
      segment.blocks
