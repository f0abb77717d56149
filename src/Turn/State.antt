-- ===== src/Turn/State.antt =====
-- The state of a turn and what its calls take and return: crates/supra_core/src/turn.rs and
-- crates/supra_core/src/error.rs.
use supra_harness.Prelude.{ℕ, Bool, Option, none, some, List}
use supra_harness.Canonical.{Bytes}
use supra_harness.Segment.{SegmentError}
use supra_harness.Prompt.Error.{PromptError}
use supra_harness.Cohort.Verdict.{Verdict}
use supra_harness.Board.Tables.{BlackboardError}
use supra_harness.Board.{Blackboard}
use supra_harness.Bus.{Bus, publish}
use supra_harness.Bus.Events.{Event, topic}

pub record PeerAnswer : Type 0 where
  pub agent : ℕ
  pub text : Option Bytes
  pub verdict : Option Verdict

unfoldable pub proposal : ℕ → Bytes → PeerAnswer
proposal agent answer = record { agent = agent; text = some answer; verdict = none }

unfoldable pub validation : ℕ → Verdict → PeerAnswer
validation agent verdict = record { agent = agent; text = none; verdict = some verdict }

pub data Step : Type 0 where
  collecting step_reached escalate : Step

-- The texts of `NoAnswer`, and those of the blackboard's error.
pub data Refusal : Type 0 where
  empty_cohort over_ceiling empty_task : Refusal
  both_answers not_the_proposer second_proposal before_proposal neither_answer : Refusal
  board_refused : BlackboardError → Refusal
  already_finished not_reached quorum_lost no_working_answer : Refusal

pub data TurnError : Type 0 where
  ledger_error : PromptError → TurnError
  segment_error : SegmentError → TurnError
  no_answer : Refusal → TurnError
  empty_claim : TurnError

pub record Turn : Type 0 where
  pub id : ℕ
  pub session : List ℕ
  pub blackboard : Blackboard
  pub bus : Bus Event
  pub claim : ℕ
  pub answer : Option Bytes
  pub votes_seen : ℕ
  pub steps_seen : List Step
  pub finished : Bool
  pub blind_rederivation : Bool

abbrev pub announce : Event → Bus Event → Bus Event
announce event bus = (publish topic bus event).0
