-- ===== src/Bus/Events.antt =====
-- The events and their topics: crates/supra_types/src/event.rs. Ids and times are numbers, an amount
-- of money is the number of its 64 bits, and a text is a string.
use Prim.Native.String.{String}
use supra_harness.Prelude.{ℕ, Bool}
use supra_harness.Canonical.{Bytes}
use supra_harness.Caching.{Breakpoint}
use supra_harness.Cohort.Tier.{Tier}
use supra_harness.Cohort.Verdict.{Vote, Confidence}
use supra_harness.Permission.Authority.{Invoker, Decision, Reversibility}
use supra_harness.Bus.Topics.{
  Topic, session, turn, prompt, cache, provider, cohort, tool, gate, guard, journal, digest,
}

pub data CacheBreakCause : Type 0 where
  tool_manifest_changed system_contract_changed memory_index_changed : CacheBreakCause
  history_rewritten volatile_data_in_prefix thinking_budget_changed : CacheBreakCause
  non_deterministic_serialisation : CacheBreakCause

pub data Event : Type 0 where
  session_started session_resumed session_ended : ℕ → Event
  turn_started turn_completed : ℕ → Event
  turn_failed : ℕ → String → Event
  segment_sealed : ℕ → Bytes → Event
  breakpoint_placed : Breakpoint → Event
  prefix_padded turns_evicted : ℕ → ℕ → Event
  recall_served : ℕ → Event
  generation_rewritten : ℕ → ℕ → Event
  cache_hit : Event
  cache_write : Bool → Event
  cache_break : CacheBreakCause → String → Event
  request_sent first_byte warmup_complete : ℕ → Event
  fan_out : ℕ → ℕ → Event
  stream_delta thinking_delta : ℕ → Event
  request_failed : ℕ → Bool → Event
  rate_limited : ℕ → Event
  usage_reported : ℕ → ℕ → ℕ → ℕ → ℕ → ℕ → Event
  usage_drift : ℕ → ℕ → ℕ → Event
  cohort_tier_estimated : Tier → ℕ → ℕ → Event
  peer_spawned spawn_refused claim_published : ℕ → ℕ → Event
  role_rotated : ℕ → Event
  vote_cast : ℕ → ℕ → Vote → Confidence → Event
  quorum_reached quorum_unreachable : ℕ → ℕ → ℕ → Event
  cohort_aborted : String → Event
  tool_requested : String → Invoker → Event
  permission_decision : String → Decision → Reversibility → Event
  tool_started : String → Event
  tool_completed : String → ℕ → Event
  tool_failed : String → String → Event
  gate_completed : String → Bool → Event
  finding_raised : ℕ → String → ℕ → Event
  finding_confirmed : ℕ → ℕ → Event
  guard_layer_triggered : ℕ → String → Event
  snapshot_taken undone digest_updated anchors_served : ℕ → Event

unfoldable pub topic : Event → Topic
topic (session_started s) = session
topic (session_resumed s) = session
topic (session_ended s) = session
topic (turn_started t) = turn
topic (turn_completed t) = turn
topic (turn_failed t reason) = turn
topic (segment_sealed seq hash) = prompt
topic (breakpoint_placed b) = prompt
topic (prefix_padded before added) = prompt
topic (turns_evicted count bytes) = prompt
topic (recall_served t) = prompt
topic (generation_rewritten generation cost) = prompt
topic cache_hit = cache
topic (cache_write hours) = cache
topic (cache_break cause detail) = cache
topic (request_sent agent) = provider
topic (first_byte agent) = provider
topic (warmup_complete shard) = provider
topic (fan_out shard peers) = provider
topic (stream_delta chars) = provider
topic (thinking_delta chars) = provider
topic (request_failed agent will_retry) = provider
topic (rate_limited retry_after_ms) = provider
topic (usage_reported agent cached_read cached_write uncached output cost) = provider
topic (usage_drift estimated actual percent) = provider
topic (cohort_tier_estimated tier peers shards) = cohort
topic (peer_spawned agent depth) = cohort
topic (spawn_refused parent child) = cohort
topic (claim_published claim proposer) = cohort
topic (role_rotated agent) = cohort
topic (vote_cast claim voter vote confidence) = cohort
topic (quorum_reached claim in_favour needed) = cohort
topic (quorum_unreachable claim reachable needed) = cohort
topic (cohort_aborted reason) = cohort
topic (tool_requested name invoker) = tool
topic (permission_decision name decision reversibility) = tool
topic (tool_started name) = tool
topic (tool_completed name elapsed_ms) = tool
topic (tool_failed name error) = tool
topic (gate_completed name passed) = gate
topic (finding_raised finding location severity) = gate
topic (finding_confirmed finding confirmer) = gate
topic (guard_layer_triggered layer detail) = guard
topic (snapshot_taken depth) = journal
topic (undone depth) = journal
topic (digest_updated files_changed) = digest
topic (anchors_served count) = digest
