-- ===== src/Cohort/Admission.antt =====
-- Admission and escalation: crates/supra_cohort/src/admit.rs.
use supra_harness.Prelude.{
  ℕ, ◌+◌, ◌*◌, min, ◌≤◌, ◌<◌, ◌≡◌, ◌↔◌, ◌≢◌, Bool, true, not, Option, none, some, ◌==◌, List, [],
  ◌∷◌, length, arith, Option-cases, Bool-cases, subst, inl, inr,
}
use supra_harness.Cohort.Quorum.{
  quorum, byzantine_tolerance, shards_needed, peer_ceiling, max_requests_per_minute,
  quorum_majority, quorum_safe, shards_needed_exact,
}
use supra_harness.Cohort.Tier.{Tier, e0, e1, e2, e3, e4, e5, rank, admit}
use supra_harness.Cohort.Tier.Admit.{admit_best, containing_range}

pub record Admission : Type 0 where
  pub requested : Tier
  pub tier : Tier
  pub k : ℕ
  pub needed : ℕ
  pub faulty : ℕ
  pub shards : ℕ
  pub limit : ℕ

unfoldable pub decide : Tier → ℕ → Option Admission
decide requested limit = elim (admit requested limit) [
  | none ↦ none
  | some (tier, k) ↦ some (record {
    requested = requested;
    tier = tier;
    k = k;
    needed = quorum k;
    faulty = byzantine_tolerance k;
    shards = shards_needed k;
    limit = limit;
  })
]

unfoldable pub reduced : Admission → Bool
reduced a = not (rank a.tier == rank a.requested)

pub data Escalation : Type 0 where
  unreachable_quorum blind_mismatch finding_confirmed : Escalation

-- One tier up, from two peers at least.
abbrev pub next_by_quorum : Tier → Tier
next_by_quorum e0 = e2
next_by_quorum e1 = e2
next_by_quorum e2 = e3
next_by_quorum e3 = e4
next_by_quorum e4 = e5
next_by_quorum e5 = e5

abbrev pub next_by_finding : Tier → Tier
next_by_finding e0 = e1
next_by_finding e1 = e2
next_by_finding e2 = e3
next_by_finding e3 = e4
next_by_finding e4 = e5
next_by_finding e5 = e5

unfoldable pub next_tier : Escalation → Tier → Tier
next_tier unreachable_quorum current = next_by_quorum current
next_tier blind_mismatch current = next_by_quorum current
next_tier finding_confirmed current = next_by_finding current

-- The tier after a run of escalations.
unfoldable pub escalate : List Escalation → Tier → Tier
unfolding next_tier
escalate [] t = t
escalate (e ∷ es) t = escalate es (next_tier e t)

rank_injective : (a b : Tier) → rank a ≡ rank b → a ≡ b
rank_injective a b h = ground arith

reduced_iff : (a : Admission) → (reduced a ≡ true) ↔ (a.tier ≢ a.requested)
unfolding reduced
reduced_iff a = (
  λ r e. ground arith,
  λ differ. elim (Bool-cases (rank a.tier == rank a.requested)) [
    | inl same ↦ absurd (differ (rank_injective a.tier a.requested (ground arith)))
    | inr other ↦ ground arith
  ],
)

-- The record of an admission is coherent: its cohort is not empty and within both the limit and the
-- ceiling, its quorum is a majority of it, two quorums share more peers than may be faulty, its
-- shards suffice, and it is marked as reduced exactly when the tier is not the requested one.
pub decide_coherent :
    (requested : Tier) (limit : ℕ) (a : Admission)
    → decide requested limit ≡ some a
    → ((0 < a.k) × (a.k ≤ limit) × (a.k ≤ peer_ceiling))
      × ((a.k < 2 * a.needed) × (a.needed ≤ a.k) × (a.k + a.faulty < 2 * a.needed))
      × (a.k ≤ a.shards * max_requests_per_minute)
      × ((reduced a ≡ true) ↔ (a.tier ≢ requested))
unfolding decide
decide_coherent requested limit a h = elim (Option-cases (admit requested limit)) [
  | inl e ↦ ground (arith, e)
  | inr ((t, k), e) ↦
      let best = admit_best requested limit t k t e in
      let sized = containing_range k t best.2 in
      let majority = quorum_majority k sized.0 in
      let safe = quorum_safe k sized.0 in
      let sharded = (shards_needed_exact k (shards_needed k)).0 (omega arith) in
      let request : a.requested ≡ requested = ground arith in
      (
        ground arith,
        ground arith,
        ground arith,
        subst (λ r. (reduced a ≡ true) ↔ (a.tier ≢ r)) request (reduced_iff a),
      )
]

rank-next_tier : (e : Escalation) (t : Tier) → rank t < 5 → rank t < rank (next_tier e t)
unfolding next_tier
rank-next_tier e t h = ground arith

rank-next_tier_le : (e : Escalation) (t : Tier) → rank t ≤ rank (next_tier e t)
unfolding next_tier
rank-next_tier_le e t = ground arith

-- Escalation ends: whatever the reasons, a run of them climbs at least one tier each until the
-- highest is reached, and it stays there.
pub escalate_climbs :
    (es : List Escalation) (t : Tier) → min 5 (rank t + length es) ≤ rank (escalate es t)
unfolding escalate
escalate_climbs [] t = omega arith
escalate_climbs (e ∷ es) t =
    ground (arith, rank-next_tier e t, rank-next_tier_le e t, escalate_climbs es (next_tier e t))
