-- ===== src/Prompt/Sealed.antt =====
-- Sealed segments: crates/supra_types/src/sealed.rs at the type of segments. The hash function
-- (blake3, a package) is the parameter `digest`.
use supra_harness.Prelude.{ℕ, Bool}
use supra_harness.Canonical.{Bytes, for_kind, bytes_eq}
use supra_harness.Segment.{Segment, write_segment}

pub record Sealed : Type 0 where
  pub seq : ℕ
  pub hash : Bytes
  pub value : Segment

module _ (digest : Bytes → Bytes) where
  -- `ContentHash::of`: 0x01 is the kind of a segment.
  unfoldable pub content_hash : Segment → Bytes
  content_hash segment = digest (write_segment (for_kind 1) segment)

  unfoldable pub seal : ℕ → Segment → Sealed
  unfolding content_hash
  seal seq value = record { seq = seq; hash = content_hash value; value = value }

  unfoldable pub verify : Sealed → Bool
  unfolding content_hash
  verify s = bytes_eq (content_hash s.value) s.hash
