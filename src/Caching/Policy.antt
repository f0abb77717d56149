-- ===== src/Caching/Policy.antt =====
-- The cache policy of a provider: crates/supra_llm/src/policy.rs.
use Prim.Native.String.{String}
use text.Mathlib.Text.{◌==◌ as str_eq}
use supra_harness.Prelude.{
  ℕ, Bool, true, false, ◌&&◌, ◌||◌, Option, none, some, List, length, leb, ◌==◌, if◌then◌else◌,
}
use supra_harness.Caching.{
  Breakpoint, CacheTtl, MinimumCacheable, five_minutes, tokens1024, tokens4096, ttl,
  ttl_order_is_valid,
}

pub data ProviderKind : Type 0 where
  anthropic openai google : ProviderKind

unfoldable pub name : ProviderKind → String
name anthropic = "anthropic"
name openai = "openai"
name google = "google"

unfoldable pub parse : String → Option ProviderKind
parse text =
    if str_eq text "anthropic"
    then some anthropic
    else if str_eq text "openai"
    then some openai
    else if str_eq text "google"
    then some google
    else none

pub record CachePolicy : Type 0 where
  pub kind : ProviderKind
  pub max_breakpoints : ℕ
  pub explicit_ttl : Bool
  pub minimum : MinimumCacheable
  pub min_thinking_tokens : ℕ

unfoldable pub for_kind : ProviderKind → CachePolicy
for_kind anthropic = record {
  kind = anthropic;
  max_breakpoints = 4;
  explicit_ttl = true;
  minimum = tokens1024;
  min_thinking_tokens = 1024;
}
for_kind openai = record {
  kind = openai;
  max_breakpoints = 1;
  explicit_ttl = false;
  minimum = tokens1024;
  min_thinking_tokens = 0;
}
for_kind google = record {
  kind = google;
  max_breakpoints = 1;
  explicit_ttl = false;
  minimum = tokens4096;
  min_thinking_tokens = 0;
}

unfoldable pub ttl_for : CachePolicy → Breakpoint → CacheTtl
unfolding ttl
ttl_for policy breakpoint = if policy.explicit_ttl then ttl breakpoint else five_minutes

unfoldable pub accepts_breakpoints : CachePolicy → List Breakpoint → Bool
unfolding ttl_order_is_valid
accepts_breakpoints policy breakpoints =
    leb (length breakpoints) policy.max_breakpoints && ttl_order_is_valid breakpoints

unfoldable pub thinking_allowed : CachePolicy → ℕ → Bool
thinking_allowed policy budget = budget == 0 || leb policy.min_thinking_tokens budget
