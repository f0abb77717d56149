-- ===== src/Cohort/Tally/Votes.antt =====
-- The standing of a claim against the votes that were cast, in any order and number.
use supra_harness.Prelude.{
  ℕ, zero, suc, ◌+◌, ◌-◌, ◌≤◌, ◌<◌, ◌≡◌, ◌↔◌, Bool, true, false, List, [], ◌∷◌, refl, ap, ◌∙◌,
  arith, length, count,
}
use supra_harness.Cohort.Quorum.{quorum}
use supra_harness.Cohort.Verdict.{Vote, vote_yes, vote_no, vote_abstain}
use supra_harness.Cohort.Tally.{
  QuorumTally, reached, unreachable, still_open, new, pending, is_reached, status, record_vote,
  record_all,
}
use supra_harness.Cohort.Tally.Standing.{IsCounted, record_vote-IsCounted, record_vote_decided}

abbrev pub is_yes : Vote → Bool
is_yes vote_yes = true
is_yes vote_no = false
is_yes vote_abstain = false

-- What `record_all` leaves of a tally that has room for the votes.
record AfterVotes (t : QuorumTally) (vs : List Vote) (u : QuorumTally) : Type 0 where
  size : u.k ≡ t.k
  threshold : u.needed ≡ t.needed
  yeses : u.yes_votes ≡ t.yes_votes + count is_yes vs
  room : pending u + length vs ≡ pending t

record_vote-AfterVotes :
    (t : QuorumTally) (v : Vote) → 0 < pending t → AfterVotes t (v ∷ []) (record_vote t v).0
unfolding record_vote
record_vote-AfterVotes t v h = ground arith

record_all-AfterVotes :
    (t : QuorumTally) (vs : List Vote) → length vs ≤ pending t → AfterVotes t vs (record_all t vs)
unfolding record_all
record_all-AfterVotes t [] h = record {
  size = refl;
  threshold = refl;
  yeses = omega arith;
  room = omega arith;
}
record_all-AfterVotes t (v ∷ vs) h =
    let one = record_vote-AfterVotes t v (omega arith) in
    let rest = record_all-AfterVotes (record_vote t v).0 vs (ground arith) in ground arith

-- For votes that fit a cohort of `k`, in whatever order they came: the claim is carried exactly when
-- the quorum has voted yes, and given up exactly when those who voted yes and those who have not
-- voted yet are together fewer than the quorum.
pub status_of_votes :
    (k : ℕ) (vs : List Vote)
    → length vs ≤ k
    → ((status (record_all (new k) vs) ≡ reached) ↔ (quorum k ≤ count is_yes vs))
      × ((status (record_all (new k) vs) ≡ unreachable)
          ↔ (count is_yes vs + (k - length vs) < quorum k))
unfolding status new
status_of_votes k vs h = let after = record_all-AfterVotes (new k) vs (ground arith) in ground arith

-- Giving up early loses nothing: from a tally that is unreachable no further votes, however many,
-- carry the claim.
pub unreachable_sound :
    (t : QuorumTally) (vs : List Vote)
    → IsCounted t
    → status t ≡ unreachable
    → is_reached (record_all t vs) ≡ false
unfolding status record_all
unreachable_sound t [] h e = ground arith
unreachable_sound t (v ∷ vs) h e =
    unreachable_sound (record_vote t v).0 vs (record_vote-IsCounted t v h)
      (record_vote_decided t v h (ground arith) ∙ e)

abbrev pub all_yes : ℕ → List Vote
all_yes zero = []
all_yes (suc n) = vote_yes ∷ all_yes n

length-all_yes : (n : ℕ) → length (all_yes n) ≡ n
length-all_yes zero = refl
length-all_yes (suc n) = ap suc (length-all_yes n)

count-all_yes : (n : ℕ) → count is_yes (all_yes n) ≡ n
count-all_yes zero = refl
count-all_yes (suc n) = ap suc (count-all_yes n)

-- While a tally is open, the claim is carried if everybody who has not voted says yes.
pub open_reachable :
    (t : QuorumTally)
    → status t ≡ still_open
    → is_reached (record_all t (all_yes (pending t))) ≡ true
unfolding status
open_reachable t e =
    let after =
      record_all-AfterVotes t (all_yes (pending t)) (omega (arith, length-all_yes (pending t))) in
    ground (arith, count-all_yes (pending t))
