-- ===== src/Canonical.antt =====
-- The canonical byte stream that content hashes are taken over: `CanonicalWriter` of
-- crates/supra_types/src/hash.rs. A writer is the bytes that it has fed to the hasher so far; a text
-- is its bytes. The hash function itself (blake3) is a parameter where it is used.
pub mod Fields
use supra_harness.Prelude.{
  ◌≡◌, ◌↔◌, refl, arith, ◌==◌, ◌&&◌, ℕ, zero, suc, ◌/◌, ◌%◌, Bool, true, false, Option, none, some,
  List, [], ◌∷◌, ◌++◌, length,
}

abbrev pub Bytes : Type 0
Bytes = List ℕ

-- `to_le_bytes` of an integer of `n` bytes.
unfoldable pub le_bytes : ℕ → ℕ → Bytes
le_bytes zero v = []
le_bytes (suc n) v = v % 256 ∷ le_bytes n (v / 256)

abbrev pub Writer : Type 0
Writer = Bytes

unfoldable pub for_kind : ℕ → Writer
for_kind kind = kind ∷ []

-- One tagged field with its length: what `CanonicalWriter::bytes` adds.
unfoldable pub field : ℕ → Bytes → Bytes
field tag value = tag ∷ (le_bytes 8 (length value) ++ value)

unfoldable pub write_bytes : Writer → ℕ → Bytes → Writer
unfolding field
write_bytes w tag value = w ++ field tag value

unfoldable pub write_str : Writer → ℕ → Bytes → Writer
unfolding write_bytes
write_str w tag text = write_bytes w tag text

unfoldable pub write_u64 : Writer → ℕ → ℕ → Writer
unfolding write_bytes
write_u64 w tag value = write_bytes w tag (le_bytes 8 value)

unfoldable pub write_u8 : Writer → ℕ → ℕ → Writer
unfolding write_bytes
write_u8 w tag value = write_bytes w tag (value ∷ [])

abbrev pub bit : Bool → ℕ
bit true = 1
bit false = 0

unfoldable pub write_bool : Writer → ℕ → Bool → Writer
unfolding write_u8
write_bool w tag value = write_u8 w tag (bit value)

unfoldable pub write_count : Writer → ℕ → ℕ → Writer
unfolding write_u64
write_count w tag len = write_u64 w tag len

unfoldable pub write_opt_str : Writer → ℕ → Option Bytes → Writer
unfolding write_u8 write_str
write_opt_str w tag none = write_u8 w tag 0
write_opt_str w tag (some text) = write_str (write_u8 w tag 1) tag text

-- `==` of byte arrays.
abbrev pub bytes_eq : Bytes → Bytes → Bool
bytes_eq [] [] = true
bytes_eq [] (y ∷ ys) = false
bytes_eq (x ∷ xs) [] = false
bytes_eq (x ∷ xs) (y ∷ ys) = x == y && bytes_eq xs ys

pub bytes_eq_iff : (xs ys : Bytes) → (bytes_eq xs ys ≡ true) ↔ (xs ≡ ys)
bytes_eq_iff [] [] = (λ _. refl, λ _. refl)
bytes_eq_iff [] (y ∷ ys) = ground arith
bytes_eq_iff (x ∷ xs) [] = ground arith
bytes_eq_iff (x ∷ xs) (y ∷ ys) = ground (arith, bytes_eq_iff xs ys)

-- The same for lists of ids.
pub bytes_eq_refl : (xs : Bytes) → bytes_eq xs xs ≡ true
bytes_eq_refl xs = (bytes_eq_iff xs xs).1 refl
