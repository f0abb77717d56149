-- ===== src/Cohort/Tier.antt =====
-- Evidence tiers and admission under a peer limit, of crates/supra_types/src/cohort.rs.
pub mod Admit
use supra_harness.Prelude.{
  ℕ, Bool, true, false, Option, none, some, List, [], ◌∷◌, ◌&&◌, reverse, find, ltb, leb,
  if◌then◌else◌,
}
use supra_harness.Cohort.Quorum.{peer_ceiling, byzantine_tolerance}

pub data Tier : Type 0 where
  e0 e1 e2 e3 e4 e5 : Tier

-- The derived order, `Tier as u8`.
abbrev pub rank : Tier → ℕ
rank e0 = 0
rank e1 = 1
rank e2 = 2
rank e3 = 3
rank e4 = 4
rank e5 = 5

-- `Ord::max` and `Ord::min`
abbrev pub tier_max : Tier → Tier → Tier
tier_max a b = if ltb (rank b) (rank a) then a else b

abbrev pub tier_min : Tier → Tier → Tier
tier_min a b = if ltb (rank b) (rank a) then b else a

-- `Tier::ALL`
abbrev pub all_tiers : List Tier
all_tiers = e0 ∷ e1 ∷ e2 ∷ e3 ∷ e4 ∷ e5 ∷ []

unfoldable pub k_range : Tier → ℕ × ℕ
k_range e0 = (1, 1)
k_range e1 = (2, 2)
k_range e2 = (3, 5)
k_range e3 = (7, 12)
k_range e4 = (16, 32)
k_range e5 = (33, peer_ceiling)

unfoldable pub containing : ℕ → Option Tier
unfolding k_range
containing k = find (λ tier. leb (k_range tier).0 k && leb k (k_range tier).1) all_tiers

unfoldable pub largest_within : ℕ → Option Tier
unfolding k_range
largest_within limit = find (λ tier. leb (k_range tier).0 limit) (reverse all_tiers)

unfoldable pub k_for_limit : Tier → ℕ → ℕ
unfolding k_range
k_for_limit tier limit =
    if ltb limit (k_range tier).0
    then 0
    else if ltb (k_range tier).1 limit
    then (k_range tier).1
    else limit

unfoldable pub is_blind_rederivation : Tier → Bool
is_blind_rederivation e0 = true
is_blind_rederivation _ = false

unfoldable pub has_byzantine_tolerance : Tier → Bool
unfolding k_range byzantine_tolerance
has_byzantine_tolerance tier = ltb 0 (byzantine_tolerance (k_range tier).0)

unfoldable pub admit : Tier → ℕ → Option (Tier × ℕ)
unfolding largest_within k_for_limit
admit requested limit = elim (largest_within limit) [
  | none ↦ none
  | some ceiling ↦ let tier = tier_min requested ceiling in some (tier, k_for_limit tier limit)
]
