-- ===== src/Config/Trust.antt =====
-- What a layer that the operator does not control can do to the permission mode: `resolve` of
-- crates/supra_config/src/resolve.rs.
use supra_harness.Prelude.{
  ℕ, ◌≤◌, ◌≡◌, refl, ◌∙◌, ap, inl, inr, if-elim, Bool-cases, Option, none, some, [], ◌∷◌, leb, ltb,
  if◌then◌else◌, arith, max,
}
use supra_harness.Permission.Authority.{
  Mode, plan, ask, auto, yolo, mode_rank, decide, decide_mono, ToolClass, Invoker, Reversibility,
  decision_rank,
}
use supra_harness.Config.Layer.{
  ConfigSource, source_rank, is_operator_controlled, ConfigLayer, mode_of,
}
use supra_harness.Config.Resolve.{
  Sourced, Layers, sort_into, sort_layers, strictness, narrow, tighten, tighten_all, apply_layers,
  builtin_config, resolve, to_config,
}
use supra_harness.Config.Precedence.{
  winner, or_default, operator_mode, latest-sort_layers, apply_layers-Latest,
}

-- How strict a mode the layer asks for, if it is not the operator's.
unfoldable pub asked : ConfigSource → ConfigLayer → ℕ
unfolding strictness
asked source layer =
    if is_operator_controlled source
    then 0
    else elim (mode_of layer) [ none ↦ 0 | some mode ↦ strictness mode ]

unfoldable pub strictest_asked : Layers → ℕ
unfolding asked
strictest_asked [] = 0
strictest_asked ((source, layer) ∷ layers) = max (asked source layer) (strictest_asked layers)

strictest_asked-sort_into :
    (source : ConfigSource) (layer : ConfigLayer) (ys : Layers)
    → strictest_asked (sort_into (source, layer) ys) ≡ max (asked source layer) (strictest_asked ys)
unfolding sort_into strictest_asked
strictest_asked-sort_into source layer [] = refl
strictest_asked-sort_into source layer ((s, l) ∷ ys) =
    elim (Bool-cases (leb (source_rank source) (source_rank s))) [
      | inl before ↦ rw before refl
      | inr behind ↦ rw behind (omega (arith, strictest_asked-sort_into source layer ys))
    ]

strictest_asked-sort_layers : (xs : Layers) → strictest_asked (sort_layers xs) ≡ strictest_asked xs
unfolding strictest_asked sort_layers
strictest_asked-sort_layers [] = refl
strictest_asked-sort_layers ((source, layer) ∷ xs) =
    strictest_asked-sort_into source layer (sort_layers xs)
    ∙ ap (max (asked source layer)) (strictest_asked-sort_layers xs)

narrow-strictness :
    (source : ConfigSource) (requested : Option Mode) (current : Sourced Mode)
    → strictness (narrow source requested current).value
      ≡ max (strictness current.value) (elim requested [ none ↦ 0 | some mode ↦ strictness mode ])
narrow-strictness source none current = omega arith
narrow-strictness source (some mode) current =
    if-elim
      (λ (m : Sourced Mode). strictness m.value ≡ max (strictness current.value) (strictness mode))
      (ltb (strictness current.value) (strictness mode)) (λ stricter. ground (arith, stricter))
      (λ other. ground (arith, other))

tighten-strictness :
    (source : ConfigSource) (layer : ConfigLayer) (current : Sourced Mode)
    → strictness (tighten (source, layer) current).value
      ≡ max (strictness current.value) (asked source layer)
unfolding tighten asked
tighten-strictness source layer current = elim (Bool-cases (is_operator_controlled source)) [
  | inl operator ↦ rw operator (omega arith)
  | inr other ↦ rw other (narrow-strictness source (mode_of layer) current)
]

tighten_all-strictness :
    (xs : Layers) (current : Sourced Mode)
    → strictness (tighten_all xs current).value
      ≡ max (strictness current.value) (strictest_asked xs)
unfolding tighten_all strictest_asked
tighten_all-strictness [] current = omega arith
tighten_all-strictness ((source, layer) ∷ xs) current = omega (
  arith,
  tighten_all-strictness xs (tighten (source, layer) current),
  tighten-strictness source layer current,
)

-- The mode is exactly as strict as the stricter of two: what the operator's layers come to by
-- precedence alone, and the strictest mode that any other layer asks for. So a project can tighten the
-- mode and never loosen it, wherever its layer stands and whatever it says.
pub mode_narrowed :
    (layers : Layers)
    → strictness (resolve layers).permission_mode
      ≡ max
          (strictness
            (or_default builtin_config.permission_mode (winner operator_mode layers)).value)
          (strictest_asked layers)
unfolding resolve to_config
mode_narrowed layers =
    let ordered = sort_layers layers in
    let (_, _, _, mode) = apply_layers-Latest ordered builtin_config in
    omega (
      arith,
      tighten_all-strictness ordered (apply_layers ordered builtin_config).permission_mode,
      strictest_asked-sort_layers layers,
      ap (λ (m : Sourced Mode). strictness m.value)
          (mode
            ∙ ap (or_default builtin_config.permission_mode)
                (latest-sort_layers operator_mode layers)),
    )

rank_bounded : (mode : Mode) → mode_rank mode ≤ 3
rank_bounded plan = omega arith
rank_bounded ask = omega arith
rank_bounded auto = omega arith
rank_bounded yolo = omega arith

strictness-rank : (m n : Mode) → strictness n ≤ strictness m → mode_rank m ≤ mode_rank n
unfolding strictness
strictness-rank m n h = omega (arith, h, rank_bounded m, rank_bounded n)

-- Whatever the layers are, no call is decided more freely under the resolved mode than under the mode
-- that the operator's own layers come to.
pub project_never_loosens :
    (layers : Layers) (class : ToolClass) (invoker : Invoker) (reversibility : Reversibility)
    → decision_rank (decide class invoker (resolve layers).permission_mode reversibility)
      ≤ decision_rank (
          decide class invoker
            (or_default builtin_config.permission_mode (winner operator_mode layers)).value
            reversibility)
project_never_loosens layers class invoker reversibility =
    decide_mono class invoker invoker (resolve layers).permission_mode
      (or_default builtin_config.permission_mode (winner operator_mode layers)).value reversibility
      reversibility (omega arith)
      (strictness-rank (resolve layers).permission_mode
        (or_default builtin_config.permission_mode (winner operator_mode layers)).value
        (omega (arith, mode_narrowed layers)))
      (omega arith)
