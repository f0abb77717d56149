-- ===== src/Cohort/Tier/Admit.antt =====
-- What a peer limit does to a requested tier.
use supra_harness.Prelude.{◌⊎◌, ℕ, ◌≤◌, ◌<◌, ◌≡◌, ◌↔◌, none, some, arith}
use supra_harness.Cohort.Quorum.{peer_ceiling}
use supra_harness.Cohort.Tier.{Tier, e0, rank, k_range, containing, admit}

-- A size belongs to a tier exactly when it lies in the range that `containing` finds: the ranges are
-- disjoint, and `none` is returned for the sizes in the gaps between them.
pub containing_exact :
    (k : ℕ) (t : Tier) → (containing k ≡ some t) ↔ (((k_range t).0 ≤ k) × (k ≤ (k_range t).1))
unfolding containing
containing_exact k e0 = ground arith
containing_exact k t = ground arith

-- Every size that belongs to a tier lies between one peer and the ceiling.
pub containing_range : (k : ℕ) (t : Tier) → containing k ≡ some t → (0 < k) × (k ≤ peer_ceiling)
unfolding containing
containing_range k t h = ground arith

-- A limit refuses every task only if it is zero.
pub admit-none : (t : Tier) (limit : ℕ) → (admit t limit ≡ none) ↔ (limit ≡ 0)
unfolding admit
admit-none t limit = ground arith

-- Under a limit of at least one peer the admitted tier is at most the requested one, its size is
-- within the limit and belongs to that tier, and no tier between the two fits: every tier is at
-- most the admitted one, above the requested one, or too large for the limit in its smallest cohort.
pub admit_best :
    (requested : Tier) (limit : ℕ) (t : Tier) (k : ℕ) (u : Tier)
    → admit requested limit ≡ some (t, k)
    → (rank t ≤ rank requested)
      × (k ≤ limit)
      × (containing k ≡ some t)
      × ((rank u ≤ rank t) ⊎ ((rank requested < rank u) ⊎ (limit < (k_range u).0)))
unfolding admit containing
admit_best requested limit t k u h = (ground arith, ground arith, ground arith, ground arith)

-- A larger limit never admits a smaller tier or a smaller cohort.
pub admit_mono :
    (requested : Tier) (a b : ℕ) {t u : Tier} {k l : ℕ}
    → a ≤ b
    → admit requested a ≡ some (t, k)
    → admit requested b ≡ some (u, l)
    → (rank t ≤ rank u) × (k ≤ l)
unfolding admit
admit_mono requested a b le ha hb = ground arith
