-- ===== src/Prompt/Error.antt =====
-- The errors of crates/supra_prompt/src/error.rs that the modelled code returns; texts are left out.
use supra_harness.Prelude.{ℕ}

pub data Region : Type 0 where
  tools system memory : Region

pub data PromptError : Type 0 where
  duplicate_segment generation_unverified recall_missing recall_corrupt : ℕ → PromptError
  eviction_failed : ℕ → PromptError
  index_entry_too_long : ℕ → ℕ → PromptError
  region_order : Region → Region → PromptError
  invalid_snapshot : PromptError
