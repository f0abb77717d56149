-- ===== src/Board/Publishing.antt =====
-- The states of claims just published, which agree with their tallies: `publish` and `publish_blind` of
-- crates/supra_blackboard/src/board.rs.
use Prim.Native.String.{String}
use supra_harness.Prelude.{
  ℕ, ◌+◌, ◌≡◌, inl, refl, sym, ap, subst, false, none, some, List, [], ◌∷◌, length, if◌then◌else◌,
  any, arith, ◌==◌,
}
use supra_harness.Prelude.OrdMap.{OrdMap, get}
use supra_harness.Cohort.Quorum.{quorum}
use supra_harness.Cohort.Verdict.{vote_yes, vote_no, vote_abstain}
use supra_harness.Cohort.Tally.{
  QuorumTally, QuorumStatus, still_open, reached, record_vote as tally_vote, status as tally_status,
}
use supra_harness.Cohort.Tally
use supra_harness.Board.Tables.{has_key, insert_validators}
use supra_harness.Board.{ClaimState, ordinary_tally, empty_slots}
use supra_harness.Board.Ballots.{votes_for}
use supra_harness.Board.Rosters.{empty_slots-IsRoster}
use supra_harness.Board.Casting.{IsBallot, implicit_yes, ordinary_tally_lem}
use supra_harness.Board.Ballots.{is_vote}

-- The states of claims just published.
abbrev pub ordinary_state : QuorumTally → ℕ → ℕ → List ℕ → String → ClaimState
ordinary_state tally turn proposer validators body = record {
  turn = turn;
  proposer = proposer;
  body = body;
  k = length validators + 1;
  tally = tally;
  status = still_open;
  validators = empty_slots validators [];
}

abbrev pub blind_state : ℕ → ℕ → String → ClaimState
blind_state turn proposer body = record {
  turn = turn;
  proposer = proposer;
  body = body;
  k = 1;
  tally = Tally.new 1;
  status = still_open;
  validators = (proposer, none) ∷ [];
}

pub ordinary_state-IsBallot :
    (turn proposer : ℕ) (validators : List ℕ) (body : String) (filled : OrdMap (Unit {0}))
    → any (λ a. a == proposer) validators ≡ false
    → insert_validators validators [] ≡ some filled
    → IsBallot
        (ordinary_state (ordinary_tally (length validators + 1)) turn proposer validators body)
unfolding implicit_yes votes_for get
ordinary_state-IsBallot turn proposer validators body filled outside accepted =
    let made = empty_slots-IsRoster validators [] filled [] (λ k. refl) tt accepted in
    let missing : has_key proposer (empty_slots validators []) ≡ false =
      ground (arith, made.keys proposer, outside) in
    let t : QuorumTally = record {
      k = length validators + 1;
      needed = quorum (length validators + 1);
      yes_votes = 1;
      no_votes = 0;
      abstain_votes = 0;
    } in
    let implicit : implicit_yes (ordinary_state t turn proposer validators body) ≡ 1 =
      ap (λ b. if b then 0 else 1) missing in
    subst (λ x. IsBallot (ordinary_state x turn proposer validators body))
      (sym (ordinary_tally_lem (length validators + 1) (omega arith)))
      (record {
        sorted = made.sorted;
        cohort = refl;
        threshold = refl;
        sized = omega (arith, made.sized, implicit);
        yes = omega (arith, made.votes vote_yes, implicit);
        no_count = sym (made.votes vote_no);
        abstained = sym (made.votes vote_abstain);
        standing = inl refl;
      })

pub blind_state-IsBallot :
    (turn proposer : ℕ) (body : String) → IsBallot (blind_state turn proposer body)
unfolding implicit_yes votes_for is_vote get Tally.new
blind_state-IsBallot turn proposer body =
    let here : implicit_yes (blind_state turn proposer body) ≡ 0 = ground arith in
    record {
      sorted = tt;
      cohort = refl;
      threshold = refl;
      sized = omega (arith, here);
      yes = omega (arith, here);
      no_count = refl;
      abstained = refl;
      standing = inl refl;
    }
