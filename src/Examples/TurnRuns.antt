-- ===== src/Examples/TurnRuns.antt =====
-- A turn of crates/supra_core/src/turn.rs with two validators, and with the proposer alone.
use supra_harness.Prelude.{
  false, true, ok, err, ◌≡◌, ◌≤◌, ◌<◌, ◌⊎◌, refl, none, some, List, [], ◌∷◌, length,
}
use supra_harness.Prelude.OrdMap.{get, insert}
use supra_harness.Canonical.{Bytes}
use supra_harness.Segment
use supra_harness.Prompt.Ledger.{PromptLedger, append}
use supra_harness.Prompt.Ledger
use supra_harness.Cohort.Quorum.{quorum, peer_ceiling}
use supra_harness.Cohort.Verdict.{Verdict, high, vote_yes}
use supra_harness.Cohort.Tally
use supra_harness.Cohort.Tally.{reached}
use supra_harness.Board.{ClaimState}
use supra_harness.Board
use supra_harness.Board.Commands.{run, new_board}
use supra_harness.Bus
use supra_harness.Bus.{Bus}
use supra_harness.Turn.{start_shared, record_answer, finish, record_verdict, status}
use supra_harness.Turn
use supra_harness.Turn.State.{
  Turn, step_reached, proposal, validation, TurnError, no_answer, not_reached,
}
use supra_harness.Turn.Calls.{
  Call, recorded, finishing, call, call_all, ledger_before, ledger_after,
}
use supra_harness.Turn.Progress.{Progress}
use supra_harness.Turn.Closing.{answer_segment}
use supra_harness.Turn.Opening.{start_opens, IsFresh}
use supra_harness.Turn.Authorship.{ProposedIn}
use supra_harness.Board.Assent.{assenting, AllDifferent}
use supra_harness.Turn.Finality.{
  extended, turn_by_quorum, steps-Progress, finished_final, turn_refused_unchanged,
}

abbrev test_digest : Bytes → Bytes
test_digest bytes = length bytes ∷ []

abbrev yes_verdict : Verdict
yes_verdict = record { vote = vote_yes; confidence = high; reason = "seen"; evidence_ref = none }

-- The turn as it opens for agent 10 and two validators.
abbrev opened_turn : Turn
opened_turn = record {
  id = 5;
  session = 10 ∷ 11 ∷ 12 ∷ [];
  blackboard = (Board.publish none 1 new_board 5 10 (11 ∷ 12 ∷ []) "turn candidate").0;
  bus = record { subscriptions = []; next_seq = 2 };
  claim = 1;
  answer = none;
  votes_seen = 0;
  steps_seen = [];
  finished = false;
  blind_rederivation = false;
}

turn_opened :
    start_shared none 5 1 (run [] new_board) Bus.new "fix" (10 ∷ 11 ∷ 12 ∷ []) ≡ ok opened_turn
unfolding start_shared run new_board Board.publish get insert Bus.publish Bus.new
turn_opened = refl

start_opens_example :
    (3 ≤ peer_ceiling) × (0 < 3) × IsFresh 5 1 10 (10 ∷ 11 ∷ 12 ∷ []) Bus.new opened_turn
start_opens_example =
    start_opens [] none 5 1 Bus.new "fix" 10 (11 ∷ 12 ∷ []) opened_turn turn_opened

-- The proposer answers and one validator agrees: two of three are a quorum.
abbrev agreed_calls : List Call
agreed_calls =
    recorded none (proposal 10 (104 ∷ 105 ∷ [])) ∷ recorded none (validation 11 yes_verdict) ∷ []

agreed_steps : (call_all test_digest agreed_calls opened_turn).steps_seen ≡ step_reached ∷ []
unfolding call_all record_answer proposal validation record_verdict run new_board Board.publish get
    insert quorum Tally.record_vote Tally.new Board.vote Bus.publish
agreed_steps = refl

agreed_finish :
    (finish test_digest 77 (call_all test_digest agreed_calls opened_turn) Ledger.new).1 ≡ ok 77
unfolding call_all record_answer proposal validation record_verdict run new_board Board.publish get
    insert quorum Tally.record_vote Tally.new Board.vote Bus.publish finish status Board.outcome
    Turn.seal_answer Segment.new Segment.first_interleaving Segment.interleaving_from
    Segment.is_tool_traffic append Ledger.new
agreed_finish = refl

turn_by_quorum_example :
    (state : ClaimState) × (answer : Bytes) × (get
        (call_all test_digest agreed_calls opened_turn).claim
        (call_all test_digest agreed_calls opened_turn).blackboard.claims
      ≡ some state)
    × (quorum state.k ≤ length (assenting state))
    × AllDifferent (assenting state)
    × ProposedIn (10 ∷ 11 ∷ 12 ∷ []) answer agreed_calls
    × (0 < length answer)
    × ((finish test_digest 77
          (call_all test_digest agreed_calls opened_turn)
          Ledger.new).0.0.finished
        ≡ true)
    × ((finish test_digest 77 (call_all test_digest agreed_calls opened_turn) Ledger.new).0.1
        ≡ extended test_digest Ledger.new
            (answer_segment 77 (call_all test_digest agreed_calls opened_turn) answer))
turn_by_quorum_example =
    turn_by_quorum test_digest [] none 5 1 Bus.new "fix" (10 ∷ 11 ∷ 12 ∷ []) opened_turn turn_opened
      agreed_calls 77 77 Ledger.new agreed_finish

-- The same turn after it is finished.
abbrev finished_calls : List Call
finished_calls =
    recorded none (proposal 10 (104 ∷ 105 ∷ []))
    ∷ recorded none (validation 11 yes_verdict)
    ∷ finishing 77 Ledger.new
    ∷ []

finished_now : (call_all test_digest finished_calls opened_turn).finished ≡ true
unfolding call_all record_answer proposal validation record_verdict run new_board Board.publish get
    insert quorum Tally.record_vote Tally.new Board.vote Bus.publish finish status Board.outcome
    Turn.seal_answer Segment.new Segment.first_interleaving Segment.interleaving_from
    Segment.is_tool_traffic append Ledger.new
finished_now = refl

finished_final_example :
    ((e : TurnError) × (record_answer none
          (call_all test_digest finished_calls opened_turn)
          (validation 12 yes_verdict)
        ≡ (call_all test_digest finished_calls opened_turn, err e)))
    × ((e : TurnError) × (finish test_digest 78
            (call_all test_digest finished_calls opened_turn)
            Ledger.new
          ≡ ((call_all test_digest finished_calls opened_turn, Ledger.new), err e)))
finished_final_example =
    finished_final test_digest [] none 5 1 Bus.new "fix" (10 ∷ 11 ∷ 12 ∷ []) opened_turn turn_opened
      finished_calls finished_now none (validation 12 yes_verdict) 78 Ledger.new

abbrev decided_state : ClaimState
unfolding run new_board Board.publish get insert quorum Tally.record_vote Tally.new Board.vote
decided_state = record {
  turn = 5;
  proposer = 10;
  body = "turn candidate";
  k = 3;
  tally = record { k = 3; needed = 2; yes_votes = 2; no_votes = 0; abstain_votes = 0 };
  status = reached;
  validators = (11, some vote_yes) ∷ (12, none) ∷ [];
}

decided_stored :
    get
      (call_all test_digest agreed_calls opened_turn).claim
      (call_all test_digest agreed_calls opened_turn).blackboard.claims
    ≡ some decided_state
unfolding call_all record_answer proposal validation record_verdict run new_board Board.publish get
    insert quorum Tally.record_vote Tally.new Board.vote Bus.publish decided_state
decided_stored = refl

steps-Progress_example :
    ((call_all test_digest agreed_calls opened_turn).votes_seen
      ≡ length (call_all test_digest agreed_calls opened_turn).steps_seen)
    × Progress decided_state.status (call_all test_digest agreed_calls opened_turn).steps_seen
    × ((((call_all test_digest agreed_calls opened_turn).answer ≡ none)
          × ((call_all test_digest agreed_calls opened_turn).steps_seen ≡ []))
        ⊎ ((answer : Bytes) × ((call_all test_digest agreed_calls opened_turn).answer ≡ some answer)
            × (0 < length answer)))
steps-Progress_example =
    steps-Progress test_digest [] none 5 1 Bus.new "fix" (10 ∷ 11 ∷ 12 ∷ []) opened_turn turn_opened
      agreed_calls decided_state decided_stored

-- A finish before the quorum is refused.
abbrev proposed_calls : List Call
proposed_calls = recorded none (proposal 10 (104 ∷ 105 ∷ [])) ∷ []

early_refused :
    (call test_digest (finishing 77 Ledger.new) (call_all test_digest proposed_calls opened_turn)).1
    ≡ some (no_answer not_reached)
unfolding call call_all record_answer proposal run new_board Board.publish get insert Tally.new
    finish status Board.outcome Bus.publish quorum Tally.record_vote
early_refused = refl

turn_refused_unchanged_example :
    ((call test_digest
        (finishing 77 Ledger.new)
        (call_all test_digest proposed_calls opened_turn)).0
      ≡ call_all test_digest proposed_calls opened_turn)
    × (ledger_after test_digest
          (finishing 77 Ledger.new)
          (call_all test_digest proposed_calls opened_turn)
        ≡ ledger_before (finishing 77 Ledger.new))
turn_refused_unchanged_example =
    turn_refused_unchanged test_digest [] none 5 1 Bus.new "fix" (10 ∷ 11 ∷ 12 ∷ []) opened_turn
      turn_opened proposed_calls (finishing 77 Ledger.new) (no_answer not_reached) early_refused
