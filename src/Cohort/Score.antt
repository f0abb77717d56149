-- ===== src/Cohort/Score.antt =====
-- Tier estimation, `estimate` of crates/supra_cohort/src/score.rs. `AreaFlags::of_paths`, which
-- lowers and splits path names, is not modelled: the flags are arguments.
use supra_harness.Prelude.{
  ℕ, ◌≤◌, ◌≡◌, ◌↔◌, ◌⊎◌, Bool, true, false, ◌||◌, ltb, leb, ◌==◌, if◌then◌else◌, arith, max, refl,
}
use mathlib.Core.Bool.{false≢true}
use native.Mathlib.Nat.{le_refl}
use supra_harness.Permission.Authority.{rev_rank, r1, r3}
use supra_harness.Cohort.Tier.{Tier, e0, e1, e2, e3, e4, e5, rank, tier_max}
use supra_harness.Cohort.Signals.{
  Signals, blast_rank, churn_rank, anchor_rank, wide, contained, hot, active, few, many,
}

pub record AreaFlags : Type 0 where
  pub sensitive_area : Bool
  pub force_full : Bool

unfoldable pub no_areas : AreaFlags
no_areas = record { sensitive_area = false; force_full = false }

-- One rule of the estimate: raise the tier if the condition holds.
abbrev raise : Bool → Tier → Tier → Tier
raise test to tier = if test then tier_max tier to else tier

-- The five conditions of the estimate.
abbrev pub needs_e5 : Signals → AreaFlags → Bool
needs_e5 s areas = areas.force_full || leb 2 s.repeat_failures

abbrev pub needs_e4 : Signals → AreaFlags → Bool
needs_e4 s areas = areas.sensitive_area || ltb 0 s.active_findings

abbrev pub needs_e3 : Signals → Bool
needs_e3 s = blast_rank s.blast == blast_rank wide || churn_rank s.churn == churn_rank hot

abbrev pub needs_e2 : Signals → Bool
needs_e2 s =
    blast_rank s.blast == blast_rank contained
    || anchor_rank s.anchors == anchor_rank many
    || churn_rank s.churn == churn_rank active
    || rev_rank s.reversibility == rev_rank r3

abbrev pub needs_e1 : Signals → Bool
needs_e1 s =
    leb (rev_rank r1) (rev_rank s.reversibility) || anchor_rank s.anchors == anchor_rank few

unfoldable pub estimate : Signals → AreaFlags → Tier
estimate s areas =
    let t5 = raise (needs_e5 s areas) e5 e0 in
    let t4 = raise (needs_e4 s areas) e4 t5 in
    let t3 = raise (needs_e3 s) e3 t4 in
    let t2 = raise (needs_e2 s) e2 t3 in raise (needs_e1 s) e1 t2

-- `a` is evidence at most as strong as `b`, in every signal.
pub record AtMost (a b : Signals) : Type 0 where
  pub blast : blast_rank a.blast ≤ blast_rank b.blast
  pub churn : churn_rank a.churn ≤ churn_rank b.churn
  pub anchors : anchor_rank a.anchors ≤ anchor_rank b.anchors
  pub reversibility : rev_rank a.reversibility ≤ rev_rank b.reversibility
  pub findings : a.active_findings ≤ b.active_findings
  pub failures : a.repeat_failures ≤ b.repeat_failures

abbrev pub FlagsAtMost : AreaFlags → AreaFlags → Type 0
FlagsAtMost f g =
    ((f.sensitive_area ≡ false) ⊎ (g.sensitive_area ≡ true))
    × ((f.force_full ≡ false) ⊎ (g.force_full ≡ true))

rank-tier_max : (a b : Tier) → rank (tier_max a b) ≡ max (rank a) (rank b)
rank-tier_max a b = ground arith

raise-le_iff :
    (p : Bool) (to t : Tier) (n : ℕ)
    → (rank (raise p to t) ≤ n) ↔ ((p ≡ true → rank to ≤ n) × (rank t ≤ n))
raise-le_iff true to t n =
    let both : (rank (tier_max t to) ≤ n) ↔ ((true ≡ true → rank to ≤ n) × (rank t ≤ n)) = (
      λ le. (λ _. omega (arith, rank-tier_max t to), omega (arith, rank-tier_max t to)),
      λ h. omega (arith, rank-tier_max t to, h.0 refl),
    ) in
    both
raise-le_iff false to t n = (λ le. (λ h. absurd (false≢true h), le), λ h. h.1)

estimate-le_iff :
    (s : Signals) (f : AreaFlags) (n : ℕ)
    → (rank (estimate s f) ≤ n) ↔ (
        (needs_e5 s f ≡ true → 5 ≤ n)
        × (needs_e4 s f ≡ true → 4 ≤ n)
        × (needs_e3 s ≡ true → 3 ≤ n)
        × (needs_e2 s ≡ true → 2 ≤ n)
        × (needs_e1 s ≡ true → 1 ≤ n))
unfolding estimate
estimate-le_iff s f n =
    let t5 = raise (needs_e5 s f) e5 e0 in
    let t4 = raise (needs_e4 s f) e4 t5 in
    let t3 = raise (needs_e3 s) e3 t4 in
    let t2 = raise (needs_e2 s) e2 t3 in
    let i5 = raise-le_iff (needs_e5 s f) e5 e0 n in
    let i4 = raise-le_iff (needs_e4 s f) e4 t5 n in
    let i3 = raise-le_iff (needs_e3 s) e3 t4 n in
    let i2 = raise-le_iff (needs_e2 s) e2 t3 n in
    let i1 = raise-le_iff (needs_e1 s) e1 t2 n in
    (
      λ le.
          let le2 = (i1.0 le).1 in
          let le3 = (i2.0 le2).1 in
          let le4 = (i3.0 le3).1 in
          let le5 = (i4.0 le4).1 in
          ((i5.0 le5).0, (i4.0 le4).0, (i3.0 le3).0, (i2.0 le2).0, (i1.0 le).0),
      λ h. i1.1 (h.4, i2.1 (h.3, i3.1 (h.2, i4.1 (h.1, i5.1 (h.0, omega arith))))),
    )

raise_highest :
    (b5 b4 b3 b2 b1 : Bool)
    → raise b1 e1 (raise b2 e2 (raise b3 e3 (raise b4 e4 (raise b5 e5 e0)))) ≡ (
        if b5
        then e5
        else if b4
        then e4
        else if b3
        then e3
        else if b2
        then e2
        else if b1
        then e1
        else e0)
raise_highest b5 b4 b3 b2 b1 = ground arith

-- However the conditions combine, the estimate is the highest tier that one of them asks for, and the
-- lowest tier if none does: raising a tier step by step never settles below a condition that holds.
pub estimate_exact :
    (s : Signals) (f : AreaFlags)
    → estimate s f ≡ (
        if needs_e5 s f
        then e5
        else if needs_e4 s f
        then e4
        else if needs_e3 s
        then e3
        else if needs_e2 s
        then e2
        else if needs_e1 s
        then e1
        else e0)
unfolding estimate
estimate_exact s f =
    raise_highest (needs_e5 s f) (needs_e4 s f) (needs_e3 s) (needs_e2 s) (needs_e1 s)

-- More evidence never lowers the estimate.
pub estimate_mono :
    (a b : Signals) (f g : AreaFlags)
    → AtMost a b
    → FlagsAtMost f g
    → rank (estimate a f) ≤ rank (estimate b g)
estimate_mono a b f g h k =
    let conditions = (estimate-le_iff b g (rank (estimate b g))).0 (le_refl _) in
    (estimate-le_iff a f (rank (estimate b g))).1 (
      λ p. ground arith,
      λ p. ground arith,
      λ p. ground arith,
      λ p. ground arith,
      λ p. ground arith,
    )
