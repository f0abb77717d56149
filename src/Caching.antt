-- ===== src/Caching.antt =====
-- Cache breakpoints, time-to-live and provider policies: crates/supra_types/src/cache.rs and
-- crates/supra_llm/src/policy.rs.
pub mod Policy
use supra_harness.Prelude.{
  ℕ, ◌-◌, ◌+◌, ◌≤◌, ◌<◌, ◌≡◌, ◌↔◌, ◌⊎◌, inl, inr, Bool, true, false, ◌&&◌, not, List, [], ◌∷◌,
  length, leb, ltb, if◌then◌else◌, arith, refl,
}

abbrev pub max_breakpoints : ℕ
max_breakpoints = 4

abbrev pub lookback_blocks : ℕ
lookback_blocks = 20

pub data CacheTtl : Type 0 where
  five_minutes one_hour : CacheTtl

-- the derived order
abbrev pub ttl_rank : CacheTtl → ℕ
ttl_rank five_minutes = 0
ttl_rank one_hour = 1

unfoldable pub write_multiplier_percent : CacheTtl → ℕ
write_multiplier_percent five_minutes = 125
write_multiplier_percent one_hour = 200

unfoldable pub seconds : CacheTtl → ℕ
seconds five_minutes = 300
seconds one_hour = 3600

pub data Breakpoint : Type 0 where
  bp1_tools bp2_system bp3_memory_index bp4_previous_turn : Breakpoint

-- `Breakpoint::ALL`
abbrev pub all_breakpoints : List Breakpoint
all_breakpoints = bp1_tools ∷ bp2_system ∷ bp3_memory_index ∷ bp4_previous_turn ∷ []

unfoldable pub ttl : Breakpoint → CacheTtl
ttl bp1_tools = one_hour
ttl bp2_system = one_hour
ttl bp3_memory_index = one_hour
ttl bp4_previous_turn = five_minutes

unfoldable pub position : Breakpoint → ℕ
position bp1_tools = 1
position bp2_system = 2
position bp3_memory_index = 3
position bp4_previous_turn = 4

unfoldable pub is_rolling : Breakpoint → Bool
is_rolling bp1_tools = false
is_rolling bp2_system = false
is_rolling bp3_memory_index = false
is_rolling bp4_previous_turn = true

-- `windows(2).all(|pair| pair[0].ttl() >= pair[1].ttl())`
unfoldable pub ttls_fall : List Breakpoint → Bool
unfolding ttl
ttls_fall [] = true
ttls_fall (a ∷ []) = true
ttls_fall (a ∷ b ∷ rest) = leb (ttl_rank (ttl b)) (ttl_rank (ttl a)) && ttls_fall (b ∷ rest)

unfoldable pub ttl_order_is_valid : List Breakpoint → Bool
unfolding ttls_fall
ttl_order_is_valid breakpoints =
    if ltb max_breakpoints (length breakpoints) then false else ttls_fall breakpoints

pub data MinimumCacheable : Type 0 where
  tokens512 tokens1024 tokens2048 tokens4096 : MinimumCacheable

unfoldable pub tokens : MinimumCacheable → ℕ
tokens tokens512 = 512
tokens tokens1024 = 1024
tokens tokens2048 = 2048
tokens tokens4096 = 4096

-- `saturating_sub` is the subtraction of the model.
unfoldable pub padding_needed : ℕ → MinimumCacheable → ℕ
unfolding tokens
padding_needed prefix_tokens minimum = tokens minimum - prefix_tokens

-- Padding is the least number of tokens that brings a prefix to the minimum.
pub padding_least : (p n : ℕ) (m : MinimumCacheable) → (padding_needed p m ≤ n) ↔ (tokens m ≤ p + n)
unfolding padding_needed
padding_least p n m = ground arith

-- Every later breakpoint lives at most as long as `b`.
abbrev LivesAtMost : Breakpoint → List Breakpoint → Type 0
LivesAtMost b [] = Unit {0}
LivesAtMost b (c ∷ cs) = (seconds (ttl c) ≤ seconds (ttl b)) × LivesAtMost b cs

-- No breakpoint is followed, at any distance, by one that lives longer.
abbrev pub Descends : List Breakpoint → Type 0
Descends [] = Unit {0}
Descends (b ∷ bs) = LivesAtMost b bs × Descends bs

seconds_mono : (a b : CacheTtl) → (seconds a ≤ seconds b) ↔ (ttl_rank a ≤ ttl_rank b)
unfolding seconds
seconds_mono a b = ground arith

LivesAtMost-trans :
    (a b : Breakpoint) (cs : List Breakpoint)
    → seconds (ttl b) ≤ seconds (ttl a)
    → LivesAtMost b cs
    → LivesAtMost a cs
LivesAtMost-trans a b [] h l = tt
LivesAtMost-trans a b (c ∷ cs) h l = (omega (arith, l.0), LivesAtMost-trans a b cs h l.1)

ttls_fall_iff : (bs : List Breakpoint) → (ttls_fall bs ≡ true) ↔ Descends bs
unfolding ttls_fall
ttls_fall_iff [] = (λ h. tt, λ h. refl)
ttls_fall_iff (a ∷ []) = (λ h. (tt, tt), λ h. refl)
ttls_fall_iff (a ∷ b ∷ rest) =
    let tail = ttls_fall_iff (b ∷ rest) in
    let seconds_iff = seconds_mono (ttl b) (ttl a) in
    (
      λ h.
          let lower = tail.0 (ground (arith, h)) in
          let next = seconds_iff.1 (ground (arith, h)) in
          ((next, LivesAtMost-trans a b rest next lower.0), lower),
      λ d. ground (arith, tail.1 d.1, seconds_iff.0 d.0.0),
    )

-- An order of breakpoints is accepted exactly when there are at most four of them and none is
-- followed, next to it or later, by one with a longer time to live.
pub ttl_order_exact :
    (bs : List Breakpoint)
    → (ttl_order_is_valid bs ≡ true) ↔ ((length bs ≤ max_breakpoints) × Descends bs)
unfolding ttl_order_is_valid
ttl_order_exact bs = ground (arith, (ttls_fall_iff bs).0, (ttls_fall_iff bs).1)
