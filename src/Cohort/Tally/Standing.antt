-- ===== src/Cohort/Tally/Standing.antt =====
-- The standing of one tally: its counts, and what a recorded vote does to it.
use supra_harness.Prelude.{ℕ, suc, ◌+◌, ◌≤◌, ◌≡◌, ◌≢◌, ◌⊎◌, ok, err, arith}
use supra_harness.Cohort.Quorum.{quorum}
use supra_harness.Cohort.Verdict.{Vote}
use supra_harness.Cohort.Tally.{
  QuorumTally, still_open, overfull, new, pending, status, record_vote,
}

-- The counts fit the cohort, and the threshold is the quorum of its size.
pub record IsCounted (t : QuorumTally) : Type 0 where
  pub counted : t.yes_votes + t.no_votes + t.abstain_votes ≤ t.k
  pub threshold : t.needed ≡ quorum t.k

pub new-IsCounted : (k : ℕ) → IsCounted (new k)
unfolding new
new-IsCounted k = ground arith

pub record_vote-IsCounted :
    (t : QuorumTally) (v : Vote) → IsCounted t → IsCounted (record_vote t v).0
unfolding record_vote
record_vote-IsCounted t v h = ground arith

-- A vote is refused exactly when nobody is pending, and then nothing changes; otherwise it takes
-- one peer from those pending and reports the standing of the new tally.
pub record_vote_exact :
    (t : QuorumTally) (v : Vote)
    → IsCounted t
    → ((pending t ≡ 0) × (record_vote t v ≡ (t, err (overfull t.k))))
      ⊎ ((suc (pending (record_vote t v).0) ≡ pending t)
          × ((record_vote t v).1 ≡ ok (status (record_vote t v).0)))
unfolding record_vote
record_vote_exact t v h = ground arith

-- Once a tally is decided, no further vote changes its standing.
pub record_vote_decided :
    (t : QuorumTally) (v : Vote)
    → IsCounted t
    → status t ≢ still_open
    → status (record_vote t v).0 ≡ status t
unfolding record_vote
record_vote_decided t v h d = ground arith
