-- ===== src/Board/Soundness.antt =====
-- What holds of every claim of a board after any calls: crates/supra_blackboard/src/board.rs.
use Prim.Native.String.{String, len}
use supra_harness.Prelude.{
  ℕ, ◌+◌, ◌≤◌, ◌<◌, ◌≡◌, inl, inr, not, ◌||◌, Option, none, some, List, [], ◌∷◌, length, Result, ok,
  Result-cases, Option-cases, if-elim, any, arith, ltb, ◌==◌,
}
use supra_harness.Prelude.OrdMap.{OrdMap, get, Holds, Holds-insert}
use supra_harness.Cohort.Quorum.{quorum}
use supra_harness.Cohort.Verdict.{vote_yes, Verdict}
use supra_harness.Cohort.Tally.{
  QuorumTally, QuorumStatus, still_open, reached, unreachable, record_vote as tally_vote,
  status as tally_status,
}
use supra_harness.Cohort.Tally
use supra_harness.Board.Tables.{
  BlackboardError, insert_validators, insert_claim, with_transaction, Database, StoredClaim,
}
use supra_harness.Board.{
  Blackboard, ClaimState, Outcome, ordinary_tally, is_open, add_claim, publish, publish_blind,
  record_vote, vote, vote_blind,
}
use supra_harness.Board.Recording.{record_vote_cases}
use supra_harness.Board.Ballots.{votes_for, empty_count, slots_counted}
use supra_harness.Board.Assent.{assenting, AllDifferent, length-assenting, assenting-AllDifferent}
use supra_harness.Board.Publishing.{
  ordinary_state, blind_state, ordinary_state-IsBallot, blind_state-IsBallot,
}
use supra_harness.Board.Casting.{IsBallot, implicit_yes, voted_state, voted_state-IsBallot}
use supra_harness.Board.Commands.{
  Command, published, published_blind, voted, voted_blind, step, run, new_board,
}

unfoldable pub IsSound : Blackboard → Type 0
IsSound b = Holds IsBallot b.claims

accepted_roster :
    (refusal : Option BlackboardError) (stored : StoredClaim) (validators : List ℕ)
    (tables made : Database)
    → with_transaction refusal (insert_claim stored validators tables) ≡ ok made
    → (filled : OrdMap (Unit {0})) × (insert_validators validators [] ≡ some filled)
unfolding with_transaction insert_claim
accepted_roster (some e) stored validators tables made h = ground arith
accepted_roster none stored validators tables made h =
    elim (Option-cases (insert_validators validators [])) [
      | inl refused ↦ ground (arith, refused)
      | inr accepted ↦ accepted
    ]

-- A claim that the engine accepts leaves a sound board, if it is a ballot whenever the roster was accepted.
add_claim-IsSound :
    (refusal : Option BlackboardError) (id : ℕ) (state : ClaimState) (validators : List ℕ)
    (b : Blackboard)
    → IsSound b
    → ((filled : OrdMap (Unit {0}))
        → insert_validators validators [] ≡ some filled
        → IsBallot state)
    → IsSound (add_claim refusal id state validators b).0
unfolding add_claim IsSound
add_claim-IsSound refusal id state validators b s made =
    let stored : StoredClaim = record {
      claim = id;
      turn = state.turn;
      proposer = state.proposer;
      body = state.body;
      k = state.k;
      status = "open";
    } in
    elim (Result-cases (with_transaction refusal (insert_claim stored validators b.store))) [
      | inl (tables, e) ↦
          let roster = accepted_roster refusal stored validators b.store tables e in
          rw (e, add_claim) (Holds-insert IsBallot id state b.claims s (made roster.0 roster.1))
      | inr (e, failed) ↦ rw (failed, add_claim) s
    ]

record_vote-IsSound :
    (refusal : Option BlackboardError) (claim voter : ℕ) (verdict : Verdict) (state : ClaimState)
    (b : Blackboard)
    → IsSound b
    → IsBallot state
    → IsSound (record_vote refusal claim voter verdict state b).0
unfolding IsSound
record_vote-IsSound refusal claim voter verdict state b s it =
    elim (record_vote_cases refusal claim voter verdict state b it) [
      | inl (e, refused) ↦ rw refused s
      | inr (tables, vacant, committed, done) ↦ rw done (
          Holds-insert IsBallot claim (voted_state voter verdict.vote state) b.claims s
            (voted_state-IsBallot voter verdict.vote state it vacant))
    ]

pub publish-IsSound :
    (refusal : Option BlackboardError) (id : ℕ) (b : Blackboard) (turn proposer : ℕ)
    (validators : List ℕ) (body : String)
    → IsSound b
    → IsSound (publish refusal id b turn proposer validators body).0
unfolding publish
publish-IsSound refusal id b turn proposer validators body s =
    let P = λ (r : Blackboard × Result BlackboardError ℕ). IsSound r.0 in
    if-elim P (any (λ a. a == proposer) validators) (λ _. s)
      (λ outside.
        if-elim P (ltb 2048 (len body)) (λ _. s)
          (λ _.
            add_claim-IsSound refusal id
              (ordinary_state (ordinary_tally (length validators + 1)) turn proposer validators
                body)
              validators b s
              (λ filled accepted.
                ordinary_state-IsBallot turn proposer validators body filled outside accepted)))

pub publish_blind-IsSound :
    (refusal : Option BlackboardError) (id : ℕ) (b : Blackboard) (turn proposer : ℕ) (body : String)
    → IsSound b
    → IsSound (publish_blind refusal id b turn proposer body).0
unfolding publish_blind
publish_blind-IsSound refusal id b turn proposer body s =
    let P = λ (r : Blackboard × Result BlackboardError ℕ). IsSound r.0 in
    if-elim P (ltb 2048 (len body)) (λ _. s)
      (λ _.
        add_claim-IsSound refusal id (blind_state turn proposer body) (proposer ∷ []) b s
          (λ filled accepted. blind_state-IsBallot turn proposer body))

pub vote-IsSound :
    (refusal : Option BlackboardError) (b : Blackboard) (claim voter : ℕ) (verdict : Verdict)
    → IsSound b
    → IsSound (vote refusal b claim voter verdict).0
unfolding vote
vote-IsSound refusal b claim voter verdict s =
    let P = λ (r : Blackboard × Result BlackboardError Outcome). IsSound r.0 in
    elim (Option-cases (get claim b.claims)) [
      | inl unknown ↦ rw (unknown, vote) s
      | inr (state, found) ↦
          rw (found, vote)
            (if-elim P (not (is_open state.status)) (λ _. s)
              (λ _.
                if-elim P (voter == state.proposer) (λ _. s)
                  (λ _.
                    record_vote-IsSound refusal claim voter verdict state b s
                      (unfold IsSound Holds in (s claim state found)))))
    ]

pub vote_blind-IsSound :
    (refusal : Option BlackboardError) (b : Blackboard) (claim voter : ℕ) (verdict : Verdict)
    → IsSound b
    → IsSound (vote_blind refusal b claim voter verdict).0
unfolding vote_blind
vote_blind-IsSound refusal b claim voter verdict s =
    let P = λ (r : Blackboard × Result BlackboardError Outcome). IsSound r.0 in
    elim (Option-cases (get claim b.claims)) [
      | inl unknown ↦ rw (unknown, vote_blind) s
      | inr (state, found) ↦
          rw (found, vote_blind)
            (if-elim P (not (is_open state.status)) (λ _. s)
              (λ _.
                if-elim P
                  (not (state.proposer == voter)
                    || not (state.k == 1)
                    || not (length state.validators == 1))
                  (λ _. s)
                  (λ _.
                    record_vote-IsSound refusal claim voter verdict state b s
                      (unfold IsSound Holds in (s claim state found)))))
    ]

pub step-IsSound :
    (refusal : Option BlackboardError) (command : Command) (b : Blackboard)
    → IsSound b
    → IsSound (step refusal command b).0
unfolding step
step-IsSound refusal (published id turn proposer validators body) b s =
    publish-IsSound refusal id b turn proposer validators body s
step-IsSound refusal (published_blind id turn proposer body) b s =
    publish_blind-IsSound refusal id b turn proposer body s
step-IsSound refusal (voted claim voter verdict) b s = vote-IsSound refusal b claim voter verdict s
step-IsSound refusal (voted_blind claim voter verdict) b s =
    vote_blind-IsSound refusal b claim voter verdict s

pub run-IsSound :
    (commands : List (Option BlackboardError × Command)) (b : Blackboard)
    → IsSound b
    → IsSound (run commands b)
unfolding run
run-IsSound [] b s = s
run-IsSound ((refusal, command) ∷ commands) b s =
    run-IsSound commands (step refusal command b).0 (step-IsSound refusal command b s)

pub new_board-IsSound : IsSound new_board
unfolding IsSound new_board Holds get
new_board-IsSound k state found = ground (arith, found)

-- After any calls, refused or not, every claim on the board is a ballot: its cohort is its validators
-- and, for an ordinary claim, its proposer; the tally counts exactly the votes in the slots and the
-- proposer's implicit yes; and the status, once it is not open, is the tally's.
pub board_sound :
    (commands : List (Option BlackboardError × Command)) (claim : ℕ) (state : ClaimState)
    → get claim (run commands new_board).claims ≡ some state
    → IsBallot state
board_sound commands claim state found =
    unfold IsSound Holds in (run-IsSound commands new_board new_board-IsSound claim state found)

IsBallot-reached :
    (state : ClaimState)
    → IsBallot state
    → state.status ≡ reached
    → quorum state.k ≤ votes_for vote_yes state.validators + implicit_yes state
unfolding tally_status Tally.is_reached
IsBallot-reached state it decided = ground (arith, it.standing, it.yes, it.threshold)

pub IsBallot-assenting :
    (state : ClaimState)
    → IsBallot state
    → state.status ≡ reached
    → (quorum state.k ≤ length (assenting state))
      × AllDifferent (assenting state)
      × (length state.validators + implicit_yes state ≡ state.k)
IsBallot-assenting state it decided = (
  omega (arith, IsBallot-reached state it decided, length-assenting state),
  assenting-AllDifferent state it.sorted,
  it.sized,
)

-- After any calls, a claim that is reached has the assent of a quorum of its cohort, each a different
-- agent: the validators whose slot holds a yes and, for an ordinary claim, the proposer, whose
-- publication of the claim the code counts as a yes. The size of the cohort is the number of the
-- validators and, for an ordinary claim, one more.
pub reached_by_quorum :
    (commands : List (Option BlackboardError × Command)) (claim : ℕ) (state : ClaimState)
    → get claim (run commands new_board).claims ≡ some state
    → state.status ≡ reached
    → (quorum state.k ≤ length (assenting state))
      × AllDifferent (assenting state)
      × (length state.validators + implicit_yes state ≡ state.k)
reached_by_quorum commands claim state found decided =
    IsBallot-assenting state (board_sound commands claim state found) decided

-- After any calls, a claim that was given up could not be carried even if every validator who has not
-- voted said yes.
pub unreachable_by_votes :
    (commands : List (Option BlackboardError × Command)) (claim : ℕ) (state : ClaimState)
    → get claim (run commands new_board).claims ≡ some state
    → state.status ≡ unreachable
    → votes_for vote_yes state.validators + implicit_yes state + empty_count state.validators
      < quorum state.k
unfolding tally_status Tally.is_reached Tally.is_unreachable Tally.pending
unreachable_by_votes commands claim state found decided =
    let it = board_sound commands claim state found in
    ground (
      arith,
      it.standing,
      it.yes,
      it.threshold,
      it.no_count,
      it.abstained,
      it.sized,
      it.cohort,
      slots_counted state.validators,
    )
