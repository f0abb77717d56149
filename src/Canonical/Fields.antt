-- ===== src/Canonical/Fields.antt =====
-- A tagged field can be read back from the front of a stream: no field is a prefix of another.
use native.Mathlib.Nat.{pow-suc}
use mathlib.Core.List.{append_assoc}
use supra_harness.Prelude.{
  ℕ, zero, suc, ◌/◌, ◌%◌, ◌^◌, ◌<◌, ◌≡◌, refl, ap, [], ◌∷◌, ◌++◌, length, arith,
}
use supra_harness.Canonical.{Bytes, le_bytes, field}

abbrev pub u64_bound : ℕ
u64_bound = 2 ^ 64

div-lt : (n v : ℕ) → v < 256 ^ suc n → v / 256 < 256 ^ n
div-lt n v h = omega (arith, pow-suc 256 n)

-- Two streams of numbers of `n` bytes that go on with anything: the numbers are equal.
le_bytes_front :
    (n : ℕ) (a b : ℕ) (r s : Bytes)
    → a < 256 ^ n
    → b < 256 ^ n
    → le_bytes n a ++ r ≡ le_bytes n b ++ s
    → (a ≡ b) × (r ≡ s)
unfolding le_bytes
le_bytes_front zero a b r s ha hb e = (omega arith, e)
le_bytes_front (suc n) a b r s ha hb e =
    let small = λ (v : ℕ) (h : v < 256 ^ suc n). div-lt n v h in
    let rest = le_bytes_front n (a / 256) (b / 256) r s (small a ha) (small b hb) (ground arith) in
    let low : a % 256 ≡ b % 256 = ground arith in (omega (arith, rest.0, low), rest.1)

append_front : (xs ys r s : Bytes) → length xs ≡ length ys → xs ++ r ≡ ys ++ s → (xs ≡ ys) × (r ≡ s)
append_front [] [] r s h e = (refl, e)
append_front [] (y ∷ ys) r s h e = absurd (omega arith)
append_front (x ∷ xs) [] r s h e = absurd (omega arith)
append_front (x ∷ xs) (y ∷ ys) r s h e = ground (arith, append_front xs ys r s)

pub length-le_bytes : (n v : ℕ) → length (le_bytes n v) ≡ n
unfolding le_bytes
length-le_bytes zero v = refl
length-le_bytes (suc n) v = ap suc (length-le_bytes n (v / 256))

pub le_bytes_injective :
    (n a b : ℕ) → a < 256 ^ n → b < 256 ^ n → le_bytes n a ≡ le_bytes n b → a ≡ b
le_bytes_injective n a b ha hb e = (le_bytes_front n a b [] [] ha hb (ap (λ xs. xs ++ []) e)).0

-- Two streams that begin with a field have the same tag, the same value and the same rest.
pub field_front :
    (s t : ℕ) (v w q r : Bytes)
    → length v < u64_bound
    → length w < u64_bound
    → field s v ++ q ≡ field t w ++ r
    → (s ≡ t) × (v ≡ w) × (q ≡ r)
unfolding field
field_front s t v w q r hv hw e =
    let tails : (le_bytes 8 (length v) ++ v) ++ q ≡ (le_bytes 8 (length w) ++ w) ++ r =
      ground arith in
    let lengths =
      le_bytes_front 8 (length v) (length w) (v ++ q) (w ++ r) hv hw (simp append_assoc at tails) in
    let values = append_front v w q r lengths.0 lengths.1 in (ground arith, values.0, values.1)
