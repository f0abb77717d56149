-- ===== src/Cohort/Quorum.antt =====
-- The quorum arithmetic at the head of crates/supra_types/src/cohort.rs.
use supra_harness.Prelude.{
  ℕ, ◌+◌, ◌-◌, ◌*◌, ◌/◌, ◌%◌, ◌≤◌, ◌<◌, ◌↔◌, arith, ltb, ◌==◌, if◌then◌else◌,
}

abbrev pub peer_ceiling : ℕ
peer_ceiling = 80

abbrev pub default_peer_limit : ℕ
default_peer_limit = 16

abbrev pub max_requests_per_minute : ℕ
max_requests_per_minute = 15

-- `usize::div_ceil`
abbrev pub div_ceil : ℕ → ℕ → ℕ
div_ceil a b = if ltb 0 (a % b) then a / b + 1 else a / b

unfoldable pub quorum : ℕ → ℕ
quorum k = if k == 0 then 0 else div_ceil (2 * k) 3

unfoldable pub byzantine_tolerance : ℕ → ℕ
byzantine_tolerance k = if k == 0 then 0 else (k - 1) / 3

unfoldable pub shards_needed : ℕ → ℕ
shards_needed k = div_ceil k max_requests_per_minute

-- The threshold is the least number of votes that is at least two thirds of the cohort: `n` votes
-- meet it exactly when 3n ≥ 2k.
pub quorum_least : (k n : ℕ) → (quorum k ≤ n) ↔ (2 * k ≤ 3 * n)
unfolding quorum
quorum_least k n = ground arith

-- In a cohort that is not empty a quorum is a majority, it has no more votes than there are peers,
-- and for more than two peers it never asks for all of them.
pub quorum_majority : (k : ℕ) → 0 < k → (k < 2 * quorum k) × (quorum k ≤ k) × (2 < k → quorum k < k)
unfolding quorum
quorum_majority k h = ground arith

-- Two quorums of one cohort share more peers than the tolerance allows to be faulty, so they share
-- an honest one; and the honest peers alone can still form a quorum.
pub quorum_safe :
    (k : ℕ)
    → 0 < k
    → (k + byzantine_tolerance k < 2 * quorum k) × (quorum k + byzantine_tolerance k ≤ k)
unfolding quorum byzantine_tolerance
quorum_safe k h = ground arith

-- The shards are the least number that holds the whole cohort at the request limit of each.
pub shards_needed_exact : (k n : ℕ) → (shards_needed k ≤ n) ↔ (k ≤ n * max_requests_per_minute)
unfolding shards_needed
shards_needed_exact k n = ground arith
