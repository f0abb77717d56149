-- ===== src/Examples/BoardRuns.antt =====
-- Runs of crates/supra_blackboard/src/board.rs.
use supra_harness.Prelude.{ok, ◌+◌, ◌≡◌, ◌≤◌, refl, Option, none, some, List, [], ◌∷◌, length}
use supra_harness.Prelude.OrdMap.{get, insert}
use supra_harness.Cohort.Quorum.{quorum}
use supra_harness.Cohort.Verdict.{Verdict, high, Vote, vote_yes, vote_no}
use supra_harness.Cohort.Tally.{QuorumStatus, still_open, reached, unreachable}
use supra_harness.Cohort.Tally
use supra_harness.Board.Tables.{BlackboardError, not_a_proposer, store_refused}
use supra_harness.Board.{ClaimState}
use supra_harness.Board.Assent.{assenting, AllDifferent}
use supra_harness.Board.Casting.{IsBallot, implicit_yes}
use supra_harness.Board.Commands.{Command, published, voted, step, run, new_board}
use supra_harness.Board.Opening.{open_board}
use supra_harness.Board.Restoring.{settle}
use supra_harness.Board.Reopening.{settle_all, reopened}
use supra_harness.Board.Finality.{decided_final}
use supra_harness.Board.Refusals.{refused_unchanged}
use supra_harness.Board.Soundness.{board_sound, reached_by_quorum}

abbrev verdict_of : Vote → Verdict
verdict_of v = record { vote = v; confidence = high; reason = "seen"; evidence_ref = none }

-- A claim of agent 10 for two validators; the last vote finds the claim decided.
abbrev agreed : List (Option BlackboardError × Command)
agreed =
    (none, published 1 5 10 (11 ∷ 12 ∷ []) "the cache is warm")
    ∷ (none, voted 1 11 (verdict_of vote_yes))
    ∷ (none, voted 1 12 (verdict_of vote_no))
    ∷ []

abbrev agreed_state : ClaimState
agreed_state = record {
  turn = 5;
  proposer = 10;
  body = "the cache is warm";
  k = 3;
  tally = record { k = 3; needed = 2; yes_votes = 2; no_votes = 0; abstain_votes = 0 };
  status = reached;
  validators = (11, some vote_yes) ∷ (12, none) ∷ [];
}

agreed_stored : get 1 (run agreed new_board).claims ≡ some agreed_state
unfolding run new_board get insert quorum Tally.record_vote Tally.new
agreed_stored = refl

board_sound_example : IsBallot agreed_state
board_sound_example = board_sound agreed 1 agreed_state agreed_stored

reached_by_quorum_example :
    (quorum 3 ≤ length (assenting agreed_state))
    × AllDifferent (assenting agreed_state)
    × (2 + implicit_yes agreed_state ≡ 3)
reached_by_quorum_example = reached_by_quorum agreed 1 agreed_state agreed_stored refl

abbrev agreed_opening : List (Option BlackboardError × Command)
agreed_opening = (none, published 1 5 10 (11 ∷ 12 ∷ []) "the cache is warm") ∷ []

-- The same claim with both validators against.
abbrev denied : List (Option BlackboardError × Command)
denied =
    (none, published 1 5 10 (11 ∷ 12 ∷ []) "the cache is warm")
    ∷ (none, voted 1 11 (verdict_of vote_no))
    ∷ (some store_refused, voted 1 12 (verdict_of vote_yes))
    ∷ (none, voted 1 12 (verdict_of vote_no))
    ∷ []

abbrev denied_state : ClaimState
denied_state = record agreed_state {
  tally = record { k = 3; needed = 2; yes_votes = 1; no_votes = 2; abstain_votes = 0 };
  status = unreachable;
  validators = (11, some vote_no) ∷ (12, some vote_no) ∷ [];
}

denied_stored : get 1 (run denied new_board).claims ≡ some denied_state
unfolding run new_board get insert quorum Tally.record_vote Tally.new
denied_stored = refl

-- The proposer may not vote on its own claim.
own_vote :
    (step none (voted 1 10 (verdict_of vote_yes)) (run agreed_opening new_board)).1
    ≡ some (not_a_proposer 10 1)
unfolding step run new_board get insert
own_vote = refl

refused_unchanged_example :
    (step none (voted 1 10 (verdict_of vote_yes)) (run agreed_opening new_board)).0
    ≡ run agreed_opening new_board
refused_unchanged_example =
    refused_unchanged none (voted 1 10 (verdict_of vote_yes)) (run agreed_opening new_board)
      (not_a_proposer 10 1) own_vote

reopened_example :
    open_board (run agreed new_board).store ≡ ok (settle_all (run agreed new_board).claims)
reopened_example = reopened agreed

abbrev map_status : Option ClaimState → Option QuorumStatus
map_status none = none
map_status (some state) = some state.status

-- A claim without validators is open in memory and reached when the board is opened again.
abbrev alone : List (Option BlackboardError × Command)
alone = (none, published 1 5 10 [] "a note") ∷ []

alone_open : map_status (get 1 (run alone new_board).claims) ≡ some still_open
unfolding run new_board get insert quorum Tally.record_vote Tally.new
alone_open = refl

alone_reopened : map_status (get 1 (settle_all (run alone new_board).claims)) ≡ some reached
unfolding run new_board get insert quorum Tally.record_vote Tally.new settle
alone_reopened = refl

decided_final_example : get 1 (run denied (run agreed new_board)).claims ≡ some agreed_state
decided_final_example = decided_final agreed denied 1 agreed_state agreed_stored refl
