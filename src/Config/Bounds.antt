-- ===== src/Config/Bounds.antt =====
-- The settings of checked layers stay in range: crates/supra_config/src/layer.rs and resolve.rs.
use supra_harness.Prelude.{
  ℕ, ◌≤◌, ◌≡◌, subst, sym, if-elim, Option, none, some, [], ◌∷◌, ltb, arith, ok,
}
use supra_harness.Cohort.Quorum.{peer_ceiling}
use supra_harness.Config.Layer.{
  ConfigSource, source_rank, ConfigLayer, limit_of, threshold_of, check_limit, check_threshold,
  validate_cohort, validate_prompt,
}
use supra_harness.Config.Resolve.{Sourced, Layers, builtin_config, resolve}
use supra_harness.Config.Precedence.{winner, or_default, plain, resolved_by_precedence, better}

-- Every layer has passed its checks.
abbrev pub AllValid : Layers → Type 0
AllValid [] = Unit {0}
AllValid ((source, layer) ∷ layers) =
    (validate_cohort layer source ≡ ok tt)
    × (validate_prompt layer source ≡ ok tt)
    × AllValid layers

module _ {A : Type 0} (P : A → Type 0) where
  abbrev Told : Option A → Type 0
  Told none = Unit {0}
  Told (some a) = P a

  better-holds :
      (source : ConfigSource) (mine : Option A) (found : Option (Sourced A)) (fallback : Sourced A)
      → Told mine
      → P (or_default fallback found).value
      → P (or_default fallback (better source mine found)).value
  better-holds source none found fallback m h = h
  better-holds source (some v) none fallback m h = m
  better-holds source (some v) (some w) fallback m h =
      if-elim (λ o. P (or_default fallback o).value)
        (ltb (source_rank w.source) (source_rank source)) (λ _. m) (λ _. h)

  abbrev AllTold : (ConfigLayer → Option A) → Layers → Type 0
  AllTold f [] = Unit {0}
  AllTold f ((source, layer) ∷ layers) = Told (f layer) × AllTold f layers

  winner-holds :
      (f : ConfigLayer → Option A) (fallback : Sourced A) (layers : Layers)
      → AllTold f layers
      → P fallback.value
      → P (or_default fallback (winner (plain f) layers)).value
  unfolding winner
  winner-holds f fallback [] all h = h
  winner-holds f fallback ((source, layer) ∷ layers) all h =
      better-holds source (f layer) (winner (plain f) layers) fallback all.0
        (winner-holds f fallback layers all.1 h)

abbrev pub LimitInRange : ℕ → Type 0
LimitInRange limit = (1 ≤ limit) × (limit ≤ peer_ceiling)

abbrev pub ThresholdInRange : ℕ → Type 0
ThresholdInRange threshold = (92 ≤ threshold) × (threshold ≤ 95)

check_limit-range :
    (source : ConfigSource) (limit : Option ℕ)
    → check_limit source limit ≡ ok tt
    → Told LimitInRange limit
check_limit-range source none h = tt
check_limit-range source (some limit) h = ground (arith, h)

check_threshold-range :
    (source : ConfigSource) (threshold : Option ℕ)
    → check_threshold source threshold ≡ ok tt
    → Told ThresholdInRange threshold
check_threshold-range source none h = tt
check_threshold-range source (some threshold) h = ground (arith, h)

all_told :
    (layers : Layers)
    → AllValid layers
    → AllTold LimitInRange limit_of layers × AllTold ThresholdInRange threshold_of layers
unfolding validate_cohort validate_prompt
all_told [] v = (tt, tt)
all_told ((source, layer) ∷ layers) v =
    let (limits, thresholds) = all_told layers v.2 in
    (
      (check_limit-range source (limit_of layer) v.0, limits),
      (check_threshold-range source (threshold_of layer) v.1, thresholds),
    )

-- Layers that have passed their checks resolve to settings in range, the defaults included.
pub resolved_in_range :
    (layers : Layers)
    → AllValid layers
    → LimitInRange (resolve layers).cohort_limit
      × ThresholdInRange (resolve layers).compaction_threshold_percent
unfolding builtin_config
resolved_in_range layers v =
    let (limits, thresholds) = all_told layers v in
    let (_, limit, threshold) = resolved_by_precedence layers in
    (
      subst (λ (x : Sourced ℕ). LimitInRange x.value) (sym limit)
          (winner-holds LimitInRange limit_of builtin_config.cohort_limit layers limits
            (omega arith, omega arith)),
      subst (λ (x : Sourced ℕ). ThresholdInRange x.value) (sym threshold)
          (winner-holds ThresholdInRange threshold_of builtin_config.threshold layers thresholds
            (omega arith, omega arith)),
    )
