-- ===== src/Turn.antt =====
-- One turn of a cohort: crates/supra_core/src/turn.rs. It drives the blackboard, the bus and the
-- prompt ledger. Generated ids and the answers of the database engine are arguments of the calls; the
-- bus, which the source shares, is the turn's own.
pub mod State
pub mod Calls
pub mod Progress
pub mod Invariant
pub mod Closing
pub mod Opening
pub mod Authorship
pub mod Refusals
pub mod Finality
use Prim.Native.String.{String, len}
use supra_harness.Prelude.{
  ℕ, ◌+◌, ◌-◌, ◌^◌, Bool, true, false, not, ◌&&◌, Option, none, some, List, [], ◌∷◌, ◌++◌, Result,
  ok, err, ltb, ◌==◌, if◌then◌else◌, length, keep, min,
}
use supra_harness.Canonical.{Bytes}
use supra_harness.Segment.{Segment, SegmentError, turn_of, assistant, text}
use supra_harness.Segment
use supra_harness.Prompt.Error.{PromptError}
use supra_harness.Prompt.Ledger.{PromptLedger, append, prefix_hash}
use supra_harness.Cohort.Quorum.{peer_ceiling, shards_needed}
use supra_harness.Cohort.Verdict.{Verdict}
use supra_harness.Cohort.Tally.{QuorumStatus, still_open, reached, unreachable, pending}
use supra_harness.Board.Tables.{BlackboardError}
use supra_harness.Board.{Blackboard, Outcome, vote, vote_blind, outcome}
use supra_harness.Board
use supra_harness.Bus.{Bus, publish}
use supra_harness.Bus.Events.{
  Event, topic, turn_started, claim_published, vote_cast, quorum_reached, quorum_unreachable,
  cohort_aborted, segment_sealed, turn_completed,
}
use State.{
  PeerAnswer, proposal, validation, Step, collecting, step_reached, escalate, Refusal, empty_cohort,
  over_ceiling, empty_task, both_answers, not_the_proposer, second_proposal, before_proposal,
  neither_answer, board_refused, already_finished, not_reached, quorum_lost, no_working_answer,
  TurnError, ledger_error, segment_error, no_answer, empty_claim, Turn, announce,
}

-- `usize` to `u32`, the greatest one where it does not fit
abbrev pub to_u32 : ℕ → ℕ
to_u32 n = min n (2 ^ 32 - 1)

-- `publish_blind` for a cohort of one, whose only member derives its answer again.
abbrev pub publish_turn :
    Option BlackboardError → ℕ → Blackboard → ℕ → ℕ → List ℕ → Blackboard × Result BlackboardError ℕ
publish_turn refusal claim_id blackboard turn_id proposer agents =
    if length agents == 1
    then Board.publish_blind refusal claim_id blackboard turn_id proposer "turn candidate"
    else Board.publish refusal claim_id blackboard turn_id proposer
        (keep (λ agent. not (agent == proposer)) agents) "turn candidate"

-- The turn of a published claim.
abbrev pub open_turn :
    ℕ → Bus Event → ℕ → List ℕ → Blackboard × Result BlackboardError ℕ → Result TurnError Turn
open_turn turn_id bus proposer agents (board, err e) = err (no_answer (board_refused e))
open_turn turn_id bus proposer agents (board, ok claim) = ok (record {
  id = turn_id;
  session = agents;
  blackboard = board;
  bus = announce (claim_published claim proposer) (announce (turn_started turn_id) bus);
  claim = claim;
  answer = none;
  votes_seen = 0;
  steps_seen = [];
  finished = false;
  blind_rederivation = length agents == 1;
})

unfoldable pub start_shared :
    Option BlackboardError
    → ℕ
    → ℕ
    → Blackboard
    → Bus Event
    → String
    → List ℕ
    → Result TurnError Turn
start_shared refusal turn_id claim_id blackboard bus task [] = err (no_answer empty_cohort)
start_shared refusal turn_id claim_id blackboard bus task (proposer ∷ others) =
    let agents = proposer ∷ others in
    if ltb peer_ceiling (length agents)
    then err (no_answer over_ceiling)
    else if len task == 0
    then err (no_answer empty_task)
    else open_turn turn_id bus proposer agents
        (publish_turn refusal claim_id blackboard turn_id proposer agents)

-- `k` and `shards`
unfoldable pub cohort_size : Turn → ℕ
cohort_size t = length t.session

unfoldable pub shards : Turn → ℕ
unfolding cohort_size
shards t = shards_needed (cohort_size t)

-- The test against `session[0]`; a turn always has a proposer.
abbrev pub is_proposer : ℕ → List ℕ → Bool
is_proposer agent [] = false
is_proposer agent (proposer ∷ others) = agent == proposer

-- The step that a vote's outcome makes, with the events that say so.
abbrev pub step_of : QuorumStatus → Step
step_of still_open = collecting
step_of reached = step_reached
step_of unreachable = escalate

abbrev pub announce_outcome : ℕ → Outcome → Bus Event → Bus Event
announce_outcome claim o bus = elim o.status [
  | still_open ↦ bus
  | reached ↦
      announce (cohort_aborted "quorum reached; in-flight peers aborted")
        (announce (quorum_reached claim (to_u32 o.tally.yes_votes) (to_u32 o.tally.needed)) bus)
  | unreachable ↦ announce (cohort_aborted "quorum unreachable; escalating now") (
      announce
        (quorum_unreachable claim (to_u32 (o.tally.yes_votes + pending o.tally))
          (to_u32 o.tally.needed))
        bus)
]

abbrev pub vote_turn :
    Option BlackboardError → Turn → ℕ → Verdict → Blackboard × Result BlackboardError Outcome
vote_turn refusal t agent verdict =
    if t.blind_rederivation && is_proposer agent t.session
    then vote_blind refusal t.blackboard t.claim agent verdict
    else vote refusal t.blackboard t.claim agent verdict

-- A full answer, beside the verdict of the same response and the answer that the turn has.
abbrev pub submit : Turn → ℕ → Bytes → Option Verdict → Option Bytes → Turn × Result TurnError Step
submit t agent body (some verdict) earlier = (t, err (no_answer both_answers))
submit t agent body none earlier =
    if not (is_proposer agent t.session)
    then (t, err (no_answer not_the_proposer))
    else if length body == 0
    then (t, err empty_claim)
    else elim earlier [
      | some first ↦ (t, err (no_answer second_proposal))
      | none ↦ (record t { answer = some body }, ok collecting)
    ]

-- What the outcome of a vote changes.
abbrev pub settle_vote :
    Turn → ℕ → Verdict → Blackboard × Result BlackboardError Outcome → Turn × Result TurnError Step
settle_vote t agent verdict (board, err e) =
    (record t { blackboard = board }, err (no_answer (board_refused e)))
settle_vote t agent verdict (board, ok o) = (
  record t {
    blackboard = board;
    bus =
        announce_outcome t.claim o
          (announce (vote_cast t.claim agent verdict.vote verdict.confidence) t.bus);
    votes_seen = t.votes_seen + 1;
    steps_seen = t.steps_seen ++ step_of o.status ∷ [];
  },
  ok (step_of o.status),
)

unfoldable pub record_verdict :
    Option BlackboardError → Turn → ℕ → Verdict → Turn × Result TurnError Step
record_verdict refusal t agent verdict =
    settle_vote t agent verdict (vote_turn refusal t agent verdict)

abbrev pub take_answer :
    Option BlackboardError
    → Turn
    → ℕ
    → Option Bytes
    → Option Verdict
    → Option Bytes
    → Turn × Result TurnError Step
take_answer refusal t agent (some body) verdict earlier = submit t agent body verdict earlier
take_answer refusal t agent none verdict none = (t, err (no_answer before_proposal))
take_answer refusal t agent none none (some earlier) = (t, err (no_answer neither_answer))
take_answer refusal t agent none (some verdict) (some earlier) =
    record_verdict refusal t agent verdict

-- `record`
unfoldable pub record_answer :
    Option BlackboardError → Turn → PeerAnswer → Turn × Result TurnError Step
record_answer refusal t answer =
    take_answer refusal t answer.agent answer.text answer.verdict t.answer

unfoldable pub status : Turn → Option QuorumStatus
status t = elim (outcome t.blackboard t.claim) [ none ↦ none | some o ↦ some o.status ]

module _ (digest : Bytes → Bytes) where
  -- The ledger's answer to the segment.
  abbrev pub record_seal :
      ℕ → Turn → PromptLedger × Result PromptError ℕ → (Turn × PromptLedger) × Result TurnError ℕ
  record_seal segment_id t (next, err e) = ((t, next), err (ledger_error e))
  record_seal segment_id t (next, ok seq) = (
    (
      record t {
        bus =
            announce (turn_completed t.id)
              (announce (segment_sealed seq (prefix_hash digest next)) t.bus);
        finished = true;
      },
      next,
    ),
    ok segment_id,
  )

  abbrev pub seal_segment :
      ℕ
      → Turn
      → PromptLedger
      → Result SegmentError Segment
      → (Turn × PromptLedger) × Result TurnError ℕ
  seal_segment segment_id t ledger (err e) = ((t, ledger), err (segment_error e))
  seal_segment segment_id t ledger (ok segment) =
      record_seal segment_id t (append digest ledger segment)

  -- The end of `finish`: the answer as the assistant's segment.
  unfoldable pub seal_answer :
      ℕ → Turn → Bytes → PromptLedger → (Turn × PromptLedger) × Result TurnError ℕ
  seal_answer segment_id t answer ledger =
      seal_segment segment_id t ledger
        (Segment.new segment_id (turn_of t.id assistant) (text answer ∷ []))

  abbrev pub close_turn :
      ℕ
      → Turn
      → PromptLedger
      → Bool
      → Option QuorumStatus
      → Option Bytes
      → (Turn × PromptLedger) × Result TurnError ℕ
  close_turn segment_id t ledger true standing answer =
      ((t, ledger), err (no_answer already_finished))
  close_turn segment_id t ledger false none answer = ((t, ledger), err (no_answer quorum_lost))
  close_turn segment_id t ledger false (some still_open) answer =
      ((t, ledger), err (no_answer not_reached))
  close_turn segment_id t ledger false (some unreachable) answer =
      ((t, ledger), err (no_answer quorum_lost))
  close_turn segment_id t ledger false (some reached) none =
      ((t, ledger), err (no_answer no_working_answer))
  close_turn segment_id t ledger false (some reached) (some answer) =
      if length answer == 0
      then ((t, ledger), err empty_claim)
      else seal_answer segment_id t answer ledger

  unfoldable pub finish : ℕ → Turn → PromptLedger → (Turn × PromptLedger) × Result TurnError ℕ
  finish segment_id t ledger = close_turn segment_id t ledger t.finished (status t) t.answer
