-- ===== src/Cohort/Tally.antt =====
-- Incremental quorum accounting, `QuorumTally` of crates/supra_types/src/cohort.rs.
pub mod Standing
pub mod Votes
use supra_harness.Prelude.{
  ℕ, ◌+◌, ◌-◌, Bool, Result, ok, err, ltb, leb, ◌==◌, if◌then◌else◌, List, [], ◌∷◌,
}
use supra_harness.Cohort.Quorum.{quorum}
use supra_harness.Cohort.Verdict.{Vote, vote_yes, vote_no, vote_abstain}

-- `QuorumStatus::Open` is `still_open`.
pub data QuorumStatus : Type 0 where
  still_open reached unreachable : QuorumStatus

pub record QuorumTally : Type 0 where
  pub k : ℕ
  pub needed : ℕ
  pub yes_votes : ℕ
  pub no_votes : ℕ
  pub abstain_votes : ℕ

pub data TallyError : Type 0 where
  overfull : ℕ → TallyError

unfoldable pub new : ℕ → QuorumTally
new k = record { k = k; needed = quorum k; yes_votes = 0; no_votes = 0; abstain_votes = 0 }

-- The subtraction cannot underflow: see `IsCounted`.
unfoldable pub pending : QuorumTally → ℕ
pending t = t.k - t.yes_votes - t.no_votes - t.abstain_votes

unfoldable pub is_reached : QuorumTally → Bool
is_reached t = leb t.needed t.yes_votes

unfoldable pub is_unreachable : QuorumTally → Bool
unfolding pending
is_unreachable t = ltb (t.yes_votes + pending t) t.needed

unfoldable pub status : QuorumTally → QuorumStatus
unfolding is_reached is_unreachable
status t = if is_reached t then reached else if is_unreachable t then unreachable else still_open

abbrev pub count_vote : Vote → QuorumTally → QuorumTally
count_vote vote_yes t = record t { yes_votes = t.yes_votes + 1 }
count_vote vote_no t = record t { no_votes = t.no_votes + 1 }
count_vote vote_abstain t = record t { abstain_votes = t.abstain_votes + 1 }

-- The method mutates the tally: the new tally stands beside the result.
unfoldable pub record_vote : QuorumTally → Vote → QuorumTally × Result TallyError QuorumStatus
unfolding pending status
record_vote t vote =
    let t' = count_vote vote t in
    if pending t == 0 then (t, err (overfull t.k)) else (t', ok (status t'))

unfoldable pub record_all : QuorumTally → List Vote → QuorumTally
unfolding record_vote
record_all t [] = t
record_all t (v ∷ vs) = record_all (record_vote t v).0 vs
