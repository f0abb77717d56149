-- ===== src/Segment/Encoding.antt =====
-- The canonical bytes of a segment determine it: `write_canonical` loses nothing, so two different
-- segments can share a content hash only by a collision of the hash function.
pub mod Blocks
pub mod Kinds
use mathlib.Core.List.{append_assoc, append-nil, append_cancel_left}
use supra_harness.Prelude.{
  ℕ, suc, ◌+◌, ◌^◌, ◌<◌, ◌≡◌, refl, ap, sym, ◌∙◌, List, [], ◌∷◌, ◌++◌, length, arith,
}
use supra_harness.Canonical.{
  Bytes, Writer, le_bytes, field, for_kind, write_count, write_bytes, write_u8,
}
use supra_harness.Canonical.Fields.{u64_bound, field_front, length-le_bytes, le_bytes_injective}
use supra_harness.Segment.{
  Block, Segment, SegmentKind, write_blocks, write_block, write_kind, write_segment,
}
use supra_harness.Segment.Encoding.Blocks.{
  BlockFits, encode_block, encode_block_front, write_block-encode,
}
use supra_harness.Segment.Encoding.Kinds.{
  KindFits, encode_kind, encode_kind_front, id_field_front, write_kind-encode,
}

abbrev AllFit : List Block → Type 0
AllFit [] = Unit {0}
AllFit (b ∷ bs) = BlockFits b × AllFit bs

-- What the sizes of the source's integers give: an id has 128 bits, a length 64.
pub record Fits (segment : Segment) : Type 0 where
  pub id : segment.id < 2 ^ 128
  pub kind : KindFits segment.kind
  pub size : length segment.blocks < u64_bound
  pub blocks : AllFit segment.blocks

abbrev encode_blocks : List Block → Bytes → Bytes
encode_blocks [] r = r
encode_blocks (b ∷ bs) r = field 4 (2 ∷ []) ++ encode_block b (encode_blocks bs r)

write_blocks-encode :
    (w : Writer) (bs : List Block) (r : Bytes) → write_blocks w bs ++ r ≡ w ++ encode_blocks bs r
unfolding write_blocks
write_blocks-encode w [] r = refl
write_blocks-encode w (b ∷ bs) r =
    write_blocks-encode (write_block (write_u8 w 4 2) b) bs r
    ∙ write_block-encode (write_u8 w 4 2) b (encode_blocks bs r)
    ∙ (unfold write_u8 in append_assoc w (field 4 (2 ∷ [])) (encode_block b (encode_blocks bs r)))

encode_blocks_front :
    (bs cs : List Block) (r s : Bytes)
    → length bs ≡ length cs
    → AllFit bs
    → AllFit cs
    → encode_blocks bs r ≡ encode_blocks cs s
    → bs ≡ cs
encode_blocks_front [] [] r s h hb hc e = refl
encode_blocks_front [] (c ∷ cs) r s h hb hc e = absurd (omega arith)
encode_blocks_front (b ∷ bs) [] r s h hb hc e = absurd (omega arith)
encode_blocks_front (b ∷ bs) (c ∷ cs) r s h hb hc e =
    let first =
      field_front 4 4 (2 ∷ []) (2 ∷ []) (encode_block b (encode_blocks bs r))
        (encode_block c (encode_blocks cs s)) (omega arith) (omega arith) e in
    let second =
      encode_block_front b c (encode_blocks bs r) (encode_blocks cs s) hb.0 hc.0 first.2 in
    cc (second.0, encode_blocks_front bs cs r s (omega arith) hb.1 hc.1 second.1)

abbrev encode_tail : Segment → Bytes
encode_tail x = field 3 (le_bytes 8 (length x.blocks)) ++ encode_blocks x.blocks []

-- The stream of a segment behind its kind byte.
abbrev encode_segment : Segment → Bytes
encode_segment x =
    field 1 (le_bytes 16 x.id) ++ (field 2 (4 ∷ []) ++ encode_kind x.kind (encode_tail x))

write_segment-encode : (w : Writer) (x : Segment) → write_segment w x ≡ w ++ encode_segment x
write_segment-encode w x =
    let tail_field = field 3 (le_bytes 8 (length x.blocks)) in
    let head = write_u8 (write_bytes w 1 (le_bytes 16 x.id)) 2 4 in
    let kinds = write_kind head x.kind in
    let counted = write_count kinds 3 (length x.blocks) in
    let start : write_segment w x ≡ write_blocks counted x.blocks ++ [] =
      unfold write_segment in sym (append-nil (write_blocks counted x.blocks)) in
    let counting : counted ++ encode_blocks x.blocks [] ≡ kinds ++ encode_tail x =
      unfold write_count in append_assoc kinds tail_field (encode_blocks x.blocks []) in
    let ends : head ++ encode_kind x.kind (encode_tail x) ≡ w ++ encode_segment x =
      unfold write_u8 write_bytes in simp append_assoc in
    start
    ∙ write_blocks-encode counted x.blocks []
    ∙ counting
    ∙ write_kind-encode head x.kind (encode_tail x)
    ∙ ends

encode_segment_injective :
    (x y : Segment) → Fits x → Fits y → encode_segment x ≡ encode_segment y → x ≡ y
encode_segment_injective x y hx hy e =
    let first =
      id_field_front 1 x.id y.id (field 2 (4 ∷ []) ++ encode_kind x.kind (encode_tail x))
        (field 2 (4 ∷ []) ++ encode_kind y.kind (encode_tail y)) hx.id hy.id e in
    let second =
      field_front 2 2 (4 ∷ []) (4 ∷ []) (encode_kind x.kind (encode_tail x))
        (encode_kind y.kind (encode_tail y)) (omega arith) (omega arith) first.1 in
    let third =
      encode_kind_front x.kind y.kind (encode_tail x) (encode_tail y) hx.kind hy.kind second.2 in
    let sizes =
      field_front 3 3 (le_bytes 8 (length x.blocks)) (le_bytes 8 (length y.blocks))
        (encode_blocks x.blocks []) (encode_blocks y.blocks [])
        (omega (arith, length-le_bytes 8 (length x.blocks)))
        (omega (arith, length-le_bytes 8 (length y.blocks))) third.1 in
    let size = le_bytes_injective 8 (length x.blocks) (length y.blocks) hx.size hy.size sizes.1 in
    let blocks = encode_blocks_front x.blocks y.blocks [] [] size hx.blocks hy.blocks sizes.2 in
    λ i. record { id = first.0 i; kind = third.0 i; blocks = blocks i }

-- Two segments whose integers have the sizes of the source feed the same bytes to the hash function
-- only if they are equal, whatever stood in the stream before.
pub write_segment_injective :
    (w : Writer) (x y : Segment) → Fits x → Fits y → write_segment w x ≡ write_segment w y → x ≡ y
write_segment_injective w x y hx hy e = encode_segment_injective x y hx hy (
    append_cancel_left w (encode_segment x) (encode_segment y)
      (sym (write_segment-encode w x) ∙ e ∙ write_segment-encode w y))
