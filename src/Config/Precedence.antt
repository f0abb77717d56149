-- ===== src/Config/Precedence.antt =====
-- Which layer a setting comes from: `resolve` of crates/supra_config/src/resolve.rs.
use mathlib.Core.Option.{none-ne-some}
use supra_harness.Prelude.{
  ℕ, ◌≤◌, ◌≡◌, refl, sym, ◌∙◌, ap, inl, inr, ◌⊎◌, if-elim, Bool-cases, true, Option, none, some,
  List, [], ◌∷◌, leb, ltb, if◌then◌else◌, arith,
}
use supra_harness.Config.Layer.{
  ConfigSource, source_rank, is_operator_controlled, ConfigLayer, budget_of, limit_of, mode_of,
  threshold_of,
}
use supra_harness.Permission.Authority.{Mode}
use supra_harness.Config.Resolve.{
  Sourced, sourced, Resolving, Layers, set, sort_into, sort_layers, apply_layer, apply_layers,
  builtin_config, resolve, to_config, source_of, find_source, thinking_setting, cohort_setting,
  threshold_setting,
}

module _ {A : Type 0} where
  -- What a layer sets, with its source.
  abbrev pub said : ConfigSource → Option A → Option (Sourced A)
  said source none = none
  said source (some value) = some (sourced value source)

  -- A setting against the one found in the layers further on: the later source wins, and of two layers
  -- of one source the later layer.
  abbrev pub better : ConfigSource → Option A → Option (Sourced A) → Option (Sourced A)
  better source none found = found
  better source (some value) none = some (sourced value source)
  better source (some value) (some found) =
      if ltb (source_rank found.source) (source_rank source)
      then some (sourced value source)
      else some found

  -- The value from the greatest source that says something.
  unfoldable pub winner :
      (ConfigSource → ConfigLayer → Option A)
      → List (ConfigSource × ConfigLayer)
      → Option (Sourced A)
  winner f [] = none
  winner f ((source, layer) ∷ layers) = better source (f source layer) (winner f layers)

  abbrev pub or_default : Sourced A → Option (Sourced A) → Sourced A
  or_default fallback none = fallback
  or_default fallback (some found) = found

  abbrev first_of : Option (Sourced A) → Option (Sourced A) → Option (Sourced A)
  first_of none other = other
  first_of (some found) other = some found

  -- The value from the last layer that says something.
  unfoldable pub latest :
      (ConfigSource → ConfigLayer → Option A)
      → List (ConfigSource × ConfigLayer)
      → Option (Sourced A)
  latest f [] = none
  latest f ((source, layer) ∷ layers) = first_of (latest f layers) (said source (f source layer))

abbrev pub AtLeast : ℕ → Layers → Type 0
AtLeast n [] = Unit {0}
AtLeast n ((source, layer) ∷ layers) =
    (n ≤ source_rank source) × AtLeast (source_rank source) layers

AtLeast-sort_into :
    (n : ℕ) (source : ConfigSource) (layer : ConfigLayer) (ys : Layers)
    → n ≤ source_rank source
    → AtLeast n ys
    → AtLeast n (sort_into (source, layer) ys)
unfolding sort_into
AtLeast-sort_into n source layer [] h a = (h, tt)
AtLeast-sort_into n source layer ((s, l) ∷ ys) h a =
    ground (arith, AtLeast-sort_into (source_rank s) source layer ys)

pub sort_layers-AtLeast : (xs : Layers) → AtLeast 0 (sort_layers xs)
unfolding sort_layers
sort_layers-AtLeast [] = tt
sort_layers-AtLeast ((source, layer) ∷ xs) =
    AtLeast-sort_into 0 source layer (sort_layers xs) (omega arith) (sort_layers-AtLeast xs)

module _ {A : Type 0} (f : ConfigSource → ConfigLayer → Option A) where
  first_of-cases :
      (later : Option (Sourced A)) (s : ConfigSource) (mine : Option A) (w : Sourced A)
      → first_of later (said s mine) ≡ some w
      → (later ≡ some w) ⊎ (w.source ≡ s)
  first_of-cases none s none w h = absurd (none-ne-some w h)
  first_of-cases none s (some v) w h = inr (ap (λ o. (or_default w o).source) (sym h))
  first_of-cases (some found) s mine w h = inl h

  latest-AtLeast :
      (n : ℕ) (ys : Layers) (w : Sourced A)
      → AtLeast n ys
      → latest f ys ≡ some w
      → n ≤ source_rank w.source
  unfolding latest
  latest-AtLeast n [] w a h = ground arith
  latest-AtLeast n ((s, l) ∷ ys) w a h = elim (first_of-cases (latest f ys) s (f s l) w h) [
    | inl later ↦ omega (arith, a.0, latest-AtLeast (source_rank s) ys w a.1 later)
    | inr here ↦ omega (arith, a.0, ap source_rank here)
  ]

  first_of-better :
      (source s : ConfigSource) (mine theirs : Option A) (later : Option (Sourced A))
      → ltb (source_rank s) (source_rank source) ≡ true
      → first_of (better source mine later) (said s theirs)
        ≡ better source mine (first_of later (said s theirs))
  first_of-better source s none theirs later h = refl
  first_of-better source s (some v) theirs (some w) h =
      if-elim (λ x. first_of x (said s theirs) ≡ x)
        (ltb (source_rank w.source) (source_rank source)) (λ _. refl) (λ _. refl)
  first_of-better source s (some v) none none h = refl
  first_of-better source s (some v) (some w) none h = rw h refl

  -- A layer before others that are at least as great.
  first_of-front :
      (source : ConfigSource) (mine : Option A) (later : Option (Sourced A))
      → ((w : Sourced A) → later ≡ some w → source_rank source ≤ source_rank w.source)
      → first_of later (said source mine) ≡ better source mine later
  first_of-front source none none h = refl
  first_of-front source none (some w) h = refl
  first_of-front source (some v) none h = refl
  first_of-front source (some v) (some w) h = ground (arith, h w refl)

  latest-sort_into :
      (n : ℕ) (source : ConfigSource) (layer : ConfigLayer) (ys : Layers)
      → AtLeast n ys
      → latest f (sort_into (source, layer) ys) ≡ better source (f source layer) (latest f ys)
  unfolding latest sort_into
  latest-sort_into n source layer [] a =
      first_of-front source (f source layer) none (λ w h. absurd (none-ne-some w h))
  latest-sort_into n source layer ((s, l) ∷ ys) a =
      elim (Bool-cases (leb (source_rank source) (source_rank s))) [
        | inl before ↦ rw before (
            first_of-front source (f source layer) (latest f ((s, l) ∷ ys)) (λ w h.
              latest-AtLeast (source_rank source) ((s, l) ∷ ys) w (ground (arith, before), a.1) h))
        | inr behind ↦
            rw (behind, latest, latest-sort_into (source_rank s) source layer ys a.1)
              (first_of-better source s (f source layer) (f s l) (latest f ys)
                (ground (arith, behind)))
      ]

  -- In the order of the sources the last layer that says something is the winner of all.
  pub latest-sort_layers : (xs : Layers) → latest f (sort_layers xs) ≡ winner f xs
  unfolding latest winner sort_layers
  latest-sort_layers [] = refl
  latest-sort_layers ((source, layer) ∷ xs) =
      latest-sort_into 0 source layer (sort_layers xs) (sort_layers-AtLeast xs)
      ∙ ap (better source (f source layer)) (latest-sort_layers xs)

  set-first_of :
      (source : ConfigSource) (mine : Option A) (old : Sourced A) (later : Option (Sourced A))
      → or_default (set source mine old) later ≡ or_default old (first_of later (said source mine))
  set-first_of source none old none = refl
  set-first_of source (some v) old none = refl
  set-first_of source mine old (some w) = refl

-- What one layer sets, whichever source it has.
abbrev pub plain : {A : Type 0} → (ConfigLayer → Option A) → ConfigSource → ConfigLayer → Option A
plain f source layer = f layer

-- The mode takes part in the precedence only where the operator controls the layer.
abbrev pub operator_mode : ConfigSource → ConfigLayer → Option Mode
operator_mode source layer = if is_operator_controlled source then mode_of layer else none

-- The four settings after the first loop.
abbrev Latest : Layers → Resolving → Resolving → Type 0
Latest xs before after =
    (after.thinking_budget ≡ or_default before.thinking_budget (latest (plain budget_of) xs))
    × (after.cohort_limit ≡ or_default before.cohort_limit (latest (plain limit_of) xs))
    × (after.threshold ≡ or_default before.threshold (latest (plain threshold_of) xs))
    × (after.permission_mode ≡ or_default before.permission_mode (latest operator_mode xs))

set-operator_mode :
    (source : ConfigSource) (layer : ConfigLayer) (old : Sourced Mode)
    → (if is_operator_controlled source then set source (mode_of layer) old else old)
      ≡ set source (operator_mode source layer) old
set-operator_mode source layer old = elim (Bool-cases (is_operator_controlled source)) [
  | inl yes_operator ↦ rw yes_operator refl
  | inr other ↦ rw other refl
]

pub apply_layers-Latest :
    (xs : Layers) (config : Resolving) → Latest xs config (apply_layers xs config)
unfolding apply_layers latest apply_layer
apply_layers-Latest [] config = (refl, refl, refl, refl)
apply_layers-Latest ((source, layer) ∷ xs) config =
    let (budget, limit, threshold, mode) =
      apply_layers-Latest xs (apply_layer (source, layer) config) in
    (
      budget
          ∙ set-first_of (plain budget_of) source (budget_of layer) config.thinking_budget
              (latest (plain budget_of) xs),
      limit
          ∙ set-first_of (plain limit_of) source (limit_of layer) config.cohort_limit
              (latest (plain limit_of) xs),
      threshold
          ∙ set-first_of (plain threshold_of) source (threshold_of layer) config.threshold
              (latest (plain threshold_of) xs),
      mode
          ∙ ap (λ m. or_default m (latest operator_mode xs))
              (set-operator_mode source layer config.permission_mode)
          ∙ set-first_of operator_mode source (operator_mode source layer) config.permission_mode
              (latest operator_mode xs),
    )

-- Whatever the order of the layers, a budget, a limit and a threshold each come from the greatest
-- source that sets it, the last of its layers if there are several, and from the defaults if there is
-- none; the origin that is reported is that layer's.
pub resolved_by_precedence :
    (layers : Layers)
    → let config = resolve layers in
      (sourced config.thinking_budget (source_of config thinking_setting)
        ≡ or_default builtin_config.thinking_budget (winner (plain budget_of) layers))
      × (sourced config.cohort_limit (source_of config cohort_setting)
          ≡ or_default builtin_config.cohort_limit (winner (plain limit_of) layers))
      × (sourced config.compaction_threshold_percent (source_of config threshold_setting)
          ≡ or_default builtin_config.threshold (winner (plain threshold_of) layers))
unfolding resolve to_config source_of find_source
resolved_by_precedence layers =
    let (budget, limit, threshold, _) = apply_layers-Latest (sort_layers layers) builtin_config in
    (
      budget
          ∙ ap (or_default builtin_config.thinking_budget)
              (latest-sort_layers (plain budget_of) layers),
      limit
          ∙ ap (or_default builtin_config.cohort_limit)
              (latest-sort_layers (plain limit_of) layers),
      threshold
          ∙ ap (or_default builtin_config.threshold)
              (latest-sort_layers (plain threshold_of) layers),
    )
