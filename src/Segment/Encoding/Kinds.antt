-- ===== src/Segment/Encoding/Kinds.antt =====
-- The bytes of a segment's kind can be read back from the front of a stream.
use mathlib.Core.List.{append_assoc}
use supra_harness.Prelude.{ℕ, ◌^◌, ◌<◌, ◌≡◌, refl, ap, [], ◌∷◌, ◌++◌, length, arith}
use supra_harness.Canonical.{Bytes, Writer, le_bytes, field}
use supra_harness.Canonical.Fields.{u64_bound, field_front, length-le_bytes, le_bytes_injective}
use supra_harness.Segment.{
  SegmentKind, MemoryIndexEntry, tool_manifest, system_contract, memory_index, turn_of,
  timestamp_ms, role_discriminant, write_kind,
}

-- Ids have 128 bits, and texts a length of 64 bits.
abbrev pub id_bound : ℕ
id_bound = 2 ^ 128

abbrev pub KindFits : SegmentKind → Type 0
KindFits tool_manifest = Unit {0}
KindFits system_contract = Unit {0}
KindFits (memory_index entry) =
    (entry.turn < id_bound) × (length entry.topic < u64_bound) × (length entry.gist < u64_bound)
KindFits (turn_of turn role) = turn < id_bound

abbrev kind_discriminant : SegmentKind → ℕ
kind_discriminant tool_manifest = 0
kind_discriminant system_contract = 1
kind_discriminant (memory_index entry) = 2
kind_discriminant (turn_of turn role) = 3

abbrev encode_entry : MemoryIndexEntry → Bytes → Bytes
encode_entry entry r =
    field 1 (le_bytes 8 (timestamp_ms entry.turn))
    ++ (field 2 (le_bytes 16 entry.turn) ++ (field 3 entry.topic ++ (field 4 entry.gist ++ r)))

abbrev encode_rest : SegmentKind → Bytes → Bytes
encode_rest tool_manifest r = r
encode_rest system_contract r = r
encode_rest (memory_index entry) r = field 1 (3 ∷ []) ++ encode_entry entry r
encode_rest (turn_of turn role) r =
    field 1 (le_bytes 16 turn) ++ (field 2 (role_discriminant role ∷ []) ++ r)

-- The bytes of a kind, followed by `r`.
abbrev pub encode_kind : SegmentKind → Bytes → Bytes
encode_kind k r = field 0 (kind_discriminant k ∷ []) ++ encode_rest k r

pub write_kind-encode :
    (w : Writer) (k : SegmentKind) (r : Bytes) → write_kind w k ++ r ≡ w ++ encode_kind k r
unfolding write_kind
write_kind-encode w tool_manifest r = simp append_assoc
write_kind-encode w system_contract r = simp append_assoc
write_kind-encode w (memory_index entry) r = simp append_assoc
write_kind-encode w (turn_of turn role) r = simp append_assoc

-- A field that holds an id.
pub id_field_front :
    (t a b : ℕ) (r s : Bytes)
    → a < id_bound
    → b < id_bound
    → field t (le_bytes 16 a) ++ r ≡ field t (le_bytes 16 b) ++ s
    → (a ≡ b) × (r ≡ s)
id_field_front t a b r s ha hb e =
    let first =
      field_front t t (le_bytes 16 a) (le_bytes 16 b) r s (omega (arith, length-le_bytes 16 a))
        (omega (arith, length-le_bytes 16 b)) e in
    (le_bytes_injective 16 a b ha hb first.1, first.2)

encode_entry_front :
    (a b : MemoryIndexEntry) (r s : Bytes)
    → KindFits (memory_index a)
    → KindFits (memory_index b)
    → encode_entry a r ≡ encode_entry b s
    → (a ≡ b) × (r ≡ s)
encode_entry_front a b r s ha hb e =
    let stamp = λ (x : MemoryIndexEntry). le_bytes 8 (timestamp_ms x.turn) in
    let after_turn =
      λ (x : MemoryIndexEntry) (q : Bytes). field 3 x.topic ++ (field 4 x.gist ++ q) in
    let first =
      field_front 1 1 (stamp a) (stamp b) (field 2 (le_bytes 16 a.turn) ++ after_turn a r)
        (field 2 (le_bytes 16 b.turn) ++ after_turn b s)
        (omega (arith, length-le_bytes 8 (timestamp_ms a.turn)))
        (omega (arith, length-le_bytes 8 (timestamp_ms b.turn))) e in
    let second =
      id_field_front 2 a.turn b.turn (after_turn a r) (after_turn b s) ha.0 hb.0 first.2 in
    let third =
      field_front 3 3 a.topic b.topic (field 4 a.gist ++ r) (field 4 b.gist ++ s) ha.1 hb.1
        second.1 in
    let fourth = field_front 4 4 a.gist b.gist r s ha.2 hb.2 third.2 in
    (λ i. record { turn = second.0 i; topic = third.1 i; gist = fourth.1 i }, fourth.2)

encode_rest_front :
    (k l : SegmentKind) (r s : Bytes)
    → KindFits k
    → KindFits l
    → kind_discriminant k ≡ kind_discriminant l
    → encode_rest k r ≡ encode_rest l s
    → (k ≡ l) × (r ≡ s)
encode_rest_front tool_manifest tool_manifest r s hk hl d e = (refl, e)
encode_rest_front system_contract system_contract r s hk hl d e = (refl, e)
encode_rest_front (memory_index a) (memory_index b) r s hk hl d e =
    let first =
      field_front 1 1 (3 ∷ []) (3 ∷ []) (encode_entry a r) (encode_entry b s) (omega arith)
        (omega arith) e in
    let second = encode_entry_front a b r s hk hl first.2 in (ap memory_index second.0, second.1)
encode_rest_front (turn_of t x) (turn_of u y) r s hk hl d e =
    let first =
      id_field_front 1 t u (field 2 (role_discriminant x ∷ []) ++ r)
        (field 2 (role_discriminant y ∷ []) ++ s) hk hl e in
    let second =
      field_front 2 2 (role_discriminant x ∷ []) (role_discriminant y ∷ []) r s (omega arith)
        (omega arith) first.1 in
    let roles : x ≡ y = ground (arith, second.1) in (cc (first.0, roles), second.2)
encode_rest_front k l r s hk hl d e = absurd (ground arith)

pub encode_kind_front :
    (k l : SegmentKind) (r s : Bytes)
    → KindFits k
    → KindFits l
    → encode_kind k r ≡ encode_kind l s
    → (k ≡ l) × (r ≡ s)
encode_kind_front k l r s hk hl e =
    let first =
      field_front 0 0 (kind_discriminant k ∷ []) (kind_discriminant l ∷ []) (encode_rest k r)
        (encode_rest l s) (omega arith) (omega arith) e in
    encode_rest_front k l r s hk hl (ground (arith, first.1)) first.2
