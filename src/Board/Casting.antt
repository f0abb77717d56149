-- ===== src/Board/Casting.antt =====
-- One claim of the blackboard, crates/supra_blackboard/src/board.rs: the tally agrees with the slots, and
-- a vote keeps it so.
use supra_harness.Prelude.{
  ℕ, suc, ◌+◌, ◌<◌, ◌≡◌, ◌⊎◌, inr, refl, ◌∙◌, ap, Option, none, some, length, ok, if◌then◌else◌,
  arith,
}
use supra_harness.Prelude.OrdMap.{OrdMap, get, insert, IsSorted, insert-IsSorted, length-insert_old}
use supra_harness.Cohort.Quorum.{quorum}
use supra_harness.Cohort.Verdict.{Vote, vote_yes, vote_no, vote_abstain}
use supra_harness.Cohort.Tally.{
  QuorumTally, QuorumStatus, still_open, reached, record_vote as tally_vote, status as tally_status,
}
use supra_harness.Cohort.Tally
use supra_harness.Board.Tables.{has_key}
use supra_harness.Board.{ClaimState, ordinary_tally, vote}
use supra_harness.Board.Ballots.{
  is_vote, votes_for, votes_for-insert, slots_counted, empty_slot_counted,
}
use supra_harness.Board.Rosters.{has_key-insert}

-- Publishing an ordinary claim is the proposer's yes; in a blind rederivation the proposer is the one
-- validator and has said nothing yet.
unfoldable pub implicit_yes : ClaimState → ℕ
implicit_yes state = if has_key state.proposer state.validators then 0 else 1

pub record IsBallot (state : ClaimState) : Type 0 where
  pub sorted : IsSorted state.validators
  pub cohort : state.tally.k ≡ state.k
  pub threshold : state.tally.needed ≡ quorum state.k
  pub sized : length state.validators + implicit_yes state ≡ state.k
  pub yes : state.tally.yes_votes ≡ votes_for vote_yes state.validators + implicit_yes state
  pub no_count : state.tally.no_votes ≡ votes_for vote_no state.validators
  pub abstained : state.tally.abstain_votes ≡ votes_for vote_abstain state.validators
  pub standing : (state.status ≡ still_open) ⊎ (state.status ≡ tally_status state.tally)

pub ordinary_tally_lem :
    (k : ℕ)
    → 0 < k
    → ordinary_tally k
      ≡ record { k = k; needed = quorum k; yes_votes = 1; no_votes = 0; abstain_votes = 0 }
unfolding ordinary_tally tally_vote Tally.pending Tally.new
ordinary_tally_lem k h = ground arith

pub pending-empty :
    (voter : ℕ) (state : ClaimState)
    → IsBallot state
    → get voter state.validators ≡ some none
    → 0 < Tally.pending state.tally
unfolding Tally.pending
pending-empty voter state b h = omega (
  arith,
  b.cohort,
  b.sized,
  b.yes,
  b.no_count,
  b.abstained,
  slots_counted state.validators,
  empty_slot_counted voter state.validators h,
)

pub tally_vote_pending :
    (t : QuorumTally) (v : Vote)
    → 0 < Tally.pending t
    → tally_vote t v ≡ (Tally.count_vote v t, ok (tally_status (Tally.count_vote v t)))
unfolding tally_vote
tally_vote_pending t v h = ground arith

-- A vote into an empty slot is counted, and the new state is a ballot again.
abbrev pub voted_state : ℕ → Vote → ClaimState → ClaimState
voted_state voter vote state =
    let tally = Tally.count_vote vote state.tally in
    record state {
      tally = tally;
      status = tally_status tally;
      validators = insert voter (some vote) state.validators;
    }

has_key-insert_old :
    (voter k : ℕ) (v : Option Vote) (slots : OrdMap (Option Vote))
    → get voter slots ≡ some none
    → has_key k (insert voter v slots) ≡ has_key k slots
has_key-insert_old voter k v slots h = ground (arith, has_key-insert voter k v slots)

pub implicit_yes-voted :
    (voter : ℕ) (vote : Vote) (state : ClaimState)
    → get voter state.validators ≡ some none
    → implicit_yes (voted_state voter vote state) ≡ implicit_yes state
unfolding implicit_yes
implicit_yes-voted voter vote state h =
    ap (λ b. if b then 0 else 1)
      (has_key-insert_old voter state.proposer (some vote) state.validators h)

-- What one more vote adds to the counts of a tally.
pub record IsCast (v : Vote) (t t' : QuorumTally) : Type 0 where
  pub cohort : t'.k ≡ t.k
  pub threshold : t'.needed ≡ t.needed
  pub yes : t'.yes_votes ≡ (if is_vote vote_yes (some v) then suc t.yes_votes else t.yes_votes)
  pub no_count : t'.no_votes ≡ (if is_vote vote_no (some v) then suc t.no_votes else t.no_votes)
  pub abstained :
      t'.abstain_votes
      ≡ (if is_vote vote_abstain (some v) then suc t.abstain_votes else t.abstain_votes)

pub count_vote-IsCast : (v : Vote) (t : QuorumTally) → IsCast v t (Tally.count_vote v t)
unfolding is_vote
count_vote-IsCast vote_yes t = record {
  cohort = refl;
  threshold = refl;
  yes = omega arith;
  no_count = refl;
  abstained = refl;
}
count_vote-IsCast vote_no t = record {
  cohort = refl;
  threshold = refl;
  yes = refl;
  no_count = omega arith;
  abstained = refl;
}
count_vote-IsCast vote_abstain t = record {
  cohort = refl;
  threshold = refl;
  yes = refl;
  no_count = refl;
  abstained = omega arith;
}

pub voted_state-IsBallot :
    (voter : ℕ) (cast : Vote) (state : ClaimState)
    → IsBallot state
    → get voter state.validators ≡ some none
    → IsBallot (voted_state voter cast state)
voted_state-IsBallot voter cast state b h =
    let implicit = implicit_yes-voted voter cast state h in
    let counted : (v : Vote)
        → votes_for v (insert voter (some cast) state.validators) ≡ (
            if is_vote v (some cast)
            then suc (votes_for v state.validators)
            else votes_for v state.validators) =
      λ v. votes_for-insert v cast voter state.validators b.sorted h in
    let kept = length-insert_old voter (some cast) none state.validators b.sorted h in
    let one_more = count_vote-IsCast cast state.tally in
    record {
      sorted = insert-IsSorted voter (some cast) state.validators b.sorted;
      cohort = one_more.cohort ∙ b.cohort;
      threshold = one_more.threshold ∙ b.threshold;
      sized = omega (arith, kept, implicit, b.sized);
      yes = ground (arith, one_more.yes, b.yes, counted vote_yes, implicit);
      no_count = ground (arith, one_more.no_count, b.no_count, counted vote_no);
      abstained = ground (arith, one_more.abstained, b.abstained, counted vote_abstain);
      standing = inr refl;
    }
