-- ===== src/Permission/Rules.antt =====
-- Competing rules, `resolve` of crates/supra_types/src/permission.rs.
use supra_harness.Prelude.{
  ℕ, ◌≡◌, ◌≢◌, ◌↔◌, ◌⊎◌, inr, Bool, true, false, Option, none, some, List, [], ◌∷◌, ltb, any, keep,
  if◌then◌else◌, arith, refl,
}
use mathlib.Core.Option

pub data RuleSource : Type 0 where
  builtin user_rule project cli session : RuleSource

-- the derived order
abbrev pub source_rank : RuleSource → ℕ
source_rank builtin = 0
source_rank user_rule = 1
source_rank project = 2
source_rank cli = 3
source_rank session = 4

pub data RuleEffect : Type 0 where
  allow deny : RuleEffect

pub record Rule : Type 0 where
  pub source : RuleSource
  pub effect : RuleEffect

abbrev pub is_deny : RuleEffect → Bool
is_deny deny = true
is_deny allow = false

abbrev pub is_allow : RuleEffect → Bool
is_allow deny = false
is_allow allow = true

-- `Iterator::max_by_key`: the last of the greatest elements.
max_by_key {ℓ} : {A : Type ℓ} → (A → ℕ) → List A → Option A
max_by_key key [] = none
max_by_key key (x ∷ xs) = elim (max_by_key key xs) [
  | none ↦ some x
  | some best ↦ if ltb (key best) (key x) then some x else some best
]

unfoldable pub resolve : List Rule → Option RuleEffect
unfolding max_by_key
resolve rules =
    if any (λ rule. is_deny rule.effect) rules
    then some deny
    else Option.map (λ (rule : Rule). rule.effect)
        (max_by_key (λ (rule : Rule). source_rank rule.source)
          (keep (λ rule. is_allow rule.effect) rules))

max_by_key-allow :
    (key : Rule → ℕ) (rules : List Rule)
    → (Option.map
          (λ (rule : Rule). rule.effect)
          (max_by_key key (keep (λ rule. is_allow rule.effect) rules))
        ≡ some allow)
      ⊎ (keep (λ (rule : Rule). is_allow rule.effect) rules ≡ [])
unfolding max_by_key
max_by_key-allow key [] = inr refl
max_by_key-allow key (rule ∷ rules) = ground (arith, max_by_key-allow key rules)

any-deny-keep-allow :
    (rules : List Rule)
    → any (λ rule. is_deny rule.effect) rules ≡ false
    → keep (λ (rule : Rule). is_allow rule.effect) rules ≡ rules
any-deny-keep-allow [] h = refl
any-deny-keep-allow (rule ∷ rules) h = ground (arith, any-deny-keep-allow rules)

-- One deny beats every allow, whatever their sources and order; without a deny the rules allow, and
-- only an empty list of rules leaves the question to the mode.
pub resolve_exact :
    (rules : List Rule)
    → ((resolve rules ≡ some deny) ↔ (any (λ rule. is_deny rule.effect) rules ≡ true))
      × ((resolve rules ≡ some allow)
          ↔ ((any (λ rule. is_deny rule.effect) rules ≡ false) × (rules ≢ [])))
      × ((resolve rules ≡ none) ↔ (rules ≡ []))
unfolding resolve
resolve_exact rules =
    ground
      (arith, max_by_key-allow (λ rule. source_rank rule.source) rules, any-deny-keep-allow rules)
