-- ===== src/Segment/Encoding/Blocks.antt =====
-- The bytes of one block can be read back from the front of a stream.
use mathlib.Core.List.{append_assoc}
use supra_harness.Prelude.{◌<◌, ◌≡◌, refl, ap, Option, none, some, [], ◌∷◌, ◌++◌, length, arith}
use supra_harness.Canonical.{Bytes, Writer, field, bit}
use supra_harness.Canonical.Fields.{u64_bound, field_front}
use supra_harness.Segment.{
  Block, text, thinking, tool_use, tool_result, block_discriminant, write_block,
}

-- Every text of the block has a length of 64 bits.
abbrev pub OptFits : Option Bytes → Type 0
OptFits none = Unit {0}
OptFits (some t) = length t < u64_bound

abbrev pub BlockFits : Block → Type 0
BlockFits (text t) = length t < u64_bound
BlockFits (thinking t signature) = (length t < u64_bound) × OptFits signature
BlockFits (tool_use call_id name input) =
    (length call_id < u64_bound) × (length name < u64_bound) × (length input < u64_bound)
BlockFits (tool_result call_id content is_error) =
    (length call_id < u64_bound) × (length content < u64_bound)

abbrev encode_opt : Option Bytes → Bytes → Bytes
encode_opt none r = field 2 (0 ∷ []) ++ r
encode_opt (some t) r = field 2 (1 ∷ []) ++ (field 2 t ++ r)

abbrev encode_body : Block → Bytes → Bytes
encode_body (text t) r = field 1 t ++ r
encode_body (thinking t signature) r = field 1 t ++ encode_opt signature r
encode_body (tool_use call_id name input) r =
    field 1 call_id ++ (field 2 name ++ (field 3 input ++ r))
encode_body (tool_result call_id content is_error) r =
    field 1 call_id ++ (field 2 content ++ (field 3 (bit is_error ∷ []) ++ r))

-- The bytes of a block, followed by `r`.
abbrev pub encode_block : Block → Bytes → Bytes
encode_block b r = field 0 (block_discriminant b ∷ []) ++ encode_body b r

pub write_block-encode :
    (w : Writer) (b : Block) (r : Bytes) → write_block w b ++ r ≡ w ++ encode_block b r
unfolding write_block
write_block-encode w (text t) r = simp append_assoc
write_block-encode w (thinking t none) r = simp append_assoc
write_block-encode w (thinking t (some s)) r = simp append_assoc
write_block-encode w (tool_use call_id name input) r = simp append_assoc
write_block-encode w (tool_result call_id content is_error) r = simp append_assoc

encode_opt_front :
    (o p : Option Bytes) (r s : Bytes)
    → OptFits o
    → OptFits p
    → encode_opt o r ≡ encode_opt p s
    → (o ≡ p) × (r ≡ s)
encode_opt_front none none r s ho hp e =
    (refl, (field_front 2 2 (0 ∷ []) (0 ∷ []) r s (omega arith) (omega arith) e).2)
encode_opt_front none (some u) r s ho hp e =
    let first =
      field_front 2 2 (0 ∷ []) (1 ∷ []) r (field 2 u ++ s) (omega arith) (omega arith) e in
    cc
encode_opt_front (some t) none r s ho hp e =
    let first =
      field_front 2 2 (1 ∷ []) (0 ∷ []) (field 2 t ++ r) s (omega arith) (omega arith) e in
    cc
encode_opt_front (some t) (some u) r s ho hp e =
    let first =
      field_front 2 2 (1 ∷ []) (1 ∷ []) (field 2 t ++ r) (field 2 u ++ s) (omega arith)
        (omega arith) e in
    let second = field_front 2 2 t u r s ho hp first.2 in (ap some second.1, second.2)

encode_body_front :
    (b c : Block) (r s : Bytes)
    → BlockFits b
    → BlockFits c
    → block_discriminant b ≡ block_discriminant c
    → encode_body b r ≡ encode_body c s
    → (b ≡ c) × (r ≡ s)
encode_body_front (text t) (text u) r s hb hc d e =
    let first = field_front 1 1 t u r s hb hc e in (ap text first.1, first.2)
encode_body_front (thinking t o) (thinking u p) r s hb hc d e =
    let first = field_front 1 1 t u (encode_opt o r) (encode_opt p s) hb.0 hc.0 e in
    let second = encode_opt_front o p r s hb.1 hc.1 first.2 in (cc (first.1, second.0), second.1)
encode_body_front (tool_use i n x) (tool_use j m y) r s hb hc d e =
    let first =
      field_front 1 1 i j (field 2 n ++ (field 3 x ++ r)) (field 2 m ++ (field 3 y ++ s)) hb.0 hc.0
        e in
    let second = field_front 2 2 n m (field 3 x ++ r) (field 3 y ++ s) hb.1 hc.1 first.2 in
    let third = field_front 3 3 x y r s hb.2 hc.2 second.2 in
    (cc (first.1, second.1, third.1), third.2)
encode_body_front (tool_result i n x) (tool_result j m y) r s hb hc d e =
    let first =
      field_front 1 1 i j (field 2 n ++ (field 3 (bit x ∷ []) ++ r))
        (field 2 m ++ (field 3 (bit y ∷ []) ++ s)) hb.0 hc.0 e in
    let second =
      field_front 2 2 n m (field 3 (bit x ∷ []) ++ r) (field 3 (bit y ∷ []) ++ s) hb.1 hc.1
        first.2 in
    let third =
      field_front 3 3 (bit x ∷ []) (bit y ∷ []) r s (omega arith) (omega arith) second.2 in
    let flags : x ≡ y = ground (arith, third.1) in (cc (first.1, second.1, flags), third.2)
encode_body_front b c r s hb hc d e = absurd (ground arith)

pub encode_block_front :
    (b c : Block) (r s : Bytes)
    → BlockFits b
    → BlockFits c
    → encode_block b r ≡ encode_block c s
    → (b ≡ c) × (r ≡ s)
encode_block_front b c r s hb hc e =
    let first =
      field_front 0 0 (block_discriminant b ∷ []) (block_discriminant c ∷ []) (encode_body b r)
        (encode_body c s) (omega arith) (omega arith) e in
    encode_body_front b c r s hb hc (ground (arith, first.1)) first.2
