-- ===== src/Board.antt =====
-- The blackboard: crates/supra_blackboard/src/board.rs. Ids are numbers, in the order of their text.
-- A generated id and the answer of the database engine are arguments of the call.
pub mod Tables
pub mod Ballots
pub mod Commands
pub mod Rosters
pub mod Casting
pub mod Recording
pub mod Publishing
pub mod Opening
pub mod Replaying
pub mod Restoring
pub mod Mirroring
pub mod Committing
pub mod Enrolling
pub mod Durability
pub mod Reopening
pub mod Finality
pub mod Refusals
pub mod Assent
pub mod Soundness
pub mod Outcomes
use Prim.Native.String.{String, len}
use text.Mathlib.Text.{◌==◌ as str_eq}
use supra_harness.Prelude.{
  ℕ, ◌+◌, Bool, true, false, not, Option, none, some, List, [], ◌∷◌, ◌&&◌, ◌||◌, Result, ok, err,
  ltb, leb, ◌==◌, if◌then◌else◌, length, map, any, max, ◌>>=◌, get_elem?,
}
use supra_harness.Prelude.OrdMap.{OrdMap, get, insert}
use supra_harness.Cohort.Verdict.{Vote, vote_yes, Verdict}
use supra_harness.Cohort.Tally.{
  QuorumTally, QuorumStatus, still_open, reached, unreachable, TallyError,
  record_vote as tally_vote, status as tally_status,
}
use supra_harness.Cohort.Tally
use Tables.{
  BlackboardError, store_refused, sqlite_refused, tally_refused, unknown_claim, closed,
  duplicate_vote, not_in_cohort, not_a_proposer, StoredClaim, Row, Database, insert_claim,
  insert_vote, update_status, with_transaction,
}

abbrev pub max_body_bytes : ℕ
max_body_bytes = 2048

pub record ClaimState : Type 0 where
  pub turn : ℕ
  pub proposer : ℕ
  pub body : String
  pub k : ℕ
  pub tally : QuorumTally
  pub status : QuorumStatus
  pub validators : OrdMap (Option Vote)

pub record Blackboard : Type 0 where
  pub store : Database
  pub claims : OrdMap ClaimState

pub record Outcome : Type 0 where
  pub claim : ℕ
  pub status : QuorumStatus
  pub tally : QuorumTally

unfoldable pub ordinary_tally : ℕ → QuorumTally
ordinary_tally k = (tally_vote (Tally.new k) vote_yes).0

abbrev pub is_open : QuorumStatus → Bool
is_open still_open = true
is_open reached = false
is_open unreachable = false

unfoldable pub status_text : QuorumStatus → String
status_text still_open = "open"
status_text reached = "reached"
status_text unreachable = "unreachable"

-- A map with an empty slot for each agent, later ones inserted over earlier ones.
unfoldable pub empty_slots : List ℕ → OrdMap (Option Vote) → OrdMap (Option Vote)
empty_slots [] slots = slots
empty_slots (agent ∷ agents) slots = empty_slots agents (insert agent none slots)

add_claim :
    Option BlackboardError
    → ℕ
    → ClaimState
    → List ℕ
    → Blackboard
    → Blackboard × Result BlackboardError ℕ
unfolding with_transaction insert_claim
add_claim refusal claim state validators b =
    let stored : StoredClaim = record {
      claim = claim;
      turn = state.turn;
      proposer = state.proposer;
      body = state.body;
      k = state.k;
      status = "open";
    } in
    elim (with_transaction refusal (insert_claim stored validators b.store)) [
      | err e ↦ (b, err e)
      | ok tables ↦ (record { store = tables; claims = insert claim state b.claims }, ok claim)
    ]

unfoldable pub publish :
    Option BlackboardError
    → ℕ
    → Blackboard
    → ℕ
    → ℕ
    → List ℕ
    → String
    → Blackboard × Result BlackboardError ℕ
unfolding add_claim ordinary_tally empty_slots
publish refusal generated b turn proposer validators body =
    let k = length validators + 1 in
    if any (λ agent. agent == proposer) validators
    then (b, err (not_a_proposer proposer generated))
    else if ltb max_body_bytes (len body)
    then (b, err store_refused)
    else add_claim refusal generated
        (record {
          turn = turn;
          proposer = proposer;
          body = body;
          k = k;
          tally = ordinary_tally k;
          status = still_open;
          validators = empty_slots validators [];
        })
        validators b

unfoldable pub publish_blind :
    Option BlackboardError → ℕ → Blackboard → ℕ → ℕ → String → Blackboard × Result BlackboardError ℕ
unfolding add_claim
publish_blind refusal generated b turn proposer body =
    if ltb max_body_bytes (len body)
    then (b, err store_refused)
    else add_claim refusal generated
        (record {
          turn = turn;
          proposer = proposer;
          body = body;
          k = 1;
          tally = Tally.new 1;
          status = still_open;
          validators = (proposer, none) ∷ [];
        })
        (proposer ∷ []) b

-- The body of the transaction of a vote: a terminal vote closes the claim's row, which must be open.
unfoldable pub vote_rows : ℕ → ℕ → Vote → QuorumStatus → Database → Result BlackboardError Database
unfolding insert_vote update_status status_text
vote_rows claim voter vote outcome tables = do
  voted ← insert_vote claim voter vote tables
  let closing = update_status claim (status_text outcome) voted
  if is_open outcome then ok voted else if closing.1 then ok closing.0 else err store_refused

unfoldable pub record_vote :
    Option BlackboardError
    → ℕ
    → ℕ
    → Verdict
    → ClaimState
    → Blackboard
    → Blackboard × Result BlackboardError Outcome
unfolding vote_rows with_transaction
record_vote refusal claim voter verdict state b = elim (get voter state.validators) [
  | none ↦ (b, err (not_in_cohort voter claim))
  | some (some earlier) ↦ (b, err (duplicate_vote voter claim))
  | some none ↦
      let vote = verdict.vote in
      let (next_tally, counted) = tally_vote state.tally vote in
      elim counted [
        | err e ↦ (b, err tally_refused)
        | ok outcome ↦
            elim (with_transaction refusal (vote_rows claim voter vote outcome b.store)) [
              | err e ↦ (b, err e)
              | ok tables ↦ (
                record {
                  store = tables;
                  claims =
                      insert claim
                        (record state {
                          tally = next_tally;
                          status = outcome;
                          validators = insert voter (some vote) state.validators;
                        })
                        b.claims;
                },
                ok (record { claim = claim; status = outcome; tally = next_tally }),
              )
            ]
      ]
]

unfoldable pub vote :
    Option BlackboardError
    → Blackboard
    → ℕ
    → ℕ
    → Verdict
    → Blackboard × Result BlackboardError Outcome
unfolding record_vote
vote refusal b claim voter verdict = elim (get claim b.claims) [
  | none ↦ (b, err (unknown_claim claim))
  | some state ↦
      if not (is_open state.status)
      then (b, err (closed claim))
      else if voter == state.proposer
      then (b, err (not_a_proposer voter claim))
      else record_vote refusal claim voter verdict state b
]

unfoldable pub vote_blind :
    Option BlackboardError
    → Blackboard
    → ℕ
    → ℕ
    → Verdict
    → Blackboard × Result BlackboardError Outcome
unfolding record_vote
vote_blind refusal b claim voter verdict = elim (get claim b.claims) [
  | none ↦ (b, err (unknown_claim claim))
  | some state ↦
      if not (is_open state.status)
      then (b, err (closed claim))
      else if not (state.proposer == voter)
          || not (state.k == 1)
          || not (length state.validators == 1)
      then (b, err (not_in_cohort voter claim))
      else record_vote refusal claim voter verdict state b
]

unfoldable pub outcome : Blackboard → ℕ → Option Outcome
outcome b claim = elim (get claim b.claims) [
  | none ↦ none
  | some state ↦ some (record { claim = claim; status = state.status; tally = state.tally })
]
