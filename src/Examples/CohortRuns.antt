-- ===== src/Examples/CohortRuns.antt =====
-- Runs of crates/supra_types/src/cohort.rs and of supra_cohort.
use supra_harness.Prelude.{
  ◌+◌, ◌-◌, ◌*◌, ◌≤◌, ◌<◌, ◌≡◌, ◌≢◌, ◌↔◌, ◌⊎◌, refl, true, some, [], ◌∷◌, if◌then◌else◌, arith,
}
use supra_harness.Cohort.Quorum.{
  quorum, byzantine_tolerance, shards_needed, peer_ceiling, max_requests_per_minute, quorum_safe,
}
use supra_harness.Cohort.Tier.{e0, e1, e2, e3, e4, e5, rank, k_range, containing, admit}
use supra_harness.Cohort.Tier.Admit.{admit_best}
use supra_harness.Cohort.Verdict.{vote_yes, vote_no}
use supra_harness.Cohort.Tally.{
  QuorumTally, reached, unreachable, new, status, pending, is_reached, is_unreachable, record_all,
}
use supra_harness.Cohort.Tally.Standing.{IsCounted}
use supra_harness.Cohort.Tally.Votes.{status_of_votes}
use supra_harness.Cohort.Signals.{minimal}
use supra_harness.Cohort.Score.{
  no_areas, estimate, needs_e1, needs_e2, needs_e3, needs_e4, needs_e5, estimate_exact,
}
use supra_harness.Cohort.Admission.{Admission, decide, reduced, decide_coherent}

quorum_safe_example :
    (16 + byzantine_tolerance 16 < 2 * quorum 16) × (quorum 16 + byzantine_tolerance 16 ≤ 16)
quorum_safe_example = quorum_safe 16 (omega arith)

admit_best_example :
    (rank e3 ≤ rank e4)
    × (8 ≤ 8)
    × (containing 8 ≡ some e3)
    × ((rank e4 ≤ rank e3) ⊎ ((rank e4 < rank e4) ⊎ (8 < (k_range e4).0)))
unfolding admit
admit_best_example = admit_best e4 8 e3 8 e4 refl

status_of_votes_example :
    ((status (record_all (new 3) (vote_yes ∷ vote_no ∷ vote_yes ∷ [])) ≡ reached) ↔ (quorum 3 ≤ 2))
    × ((status (record_all (new 3) (vote_yes ∷ vote_no ∷ vote_yes ∷ [])) ≡ unreachable)
        ↔ (2 + (3 - 3) < quorum 3))
status_of_votes_example = status_of_votes 3 (vote_yes ∷ vote_no ∷ vote_yes ∷ []) (omega arith)

-- Three peers, two of them against.
abbrev given_up : QuorumTally
given_up = record { k = 3; needed = 2; yes_votes = 0; no_votes = 2; abstain_votes = 0 }

given_up-IsCounted : IsCounted given_up
unfolding quorum
given_up-IsCounted = record { counted = omega arith; threshold = refl }

given_up_status : status given_up ≡ unreachable
unfolding status is_reached is_unreachable pending
given_up_status = refl

estimate_exact_example : estimate minimal no_areas ≡ (
    if needs_e5 minimal no_areas
    then e5
    else if needs_e4 minimal no_areas
    then e4
    else if needs_e3 minimal
    then e3
    else if needs_e2 minimal
    then e2
    else if needs_e1 minimal
    then e1
    else e0)
estimate_exact_example = estimate_exact minimal no_areas

-- A task for E4 under a limit of eight peers.
abbrev admitted : Admission
admitted = record {
  requested = e4;
  tier = e3;
  k = 8;
  needed = 6;
  faulty = 2;
  shards = 1;
  limit = 8;
}

decide_coherent_example :
    ((0 < 8) × (8 ≤ 8) × (8 ≤ peer_ceiling))
    × ((8 < 2 * 6) × (6 ≤ 8) × (8 + 2 < 2 * 6))
    × (8 ≤ 1 * max_requests_per_minute)
    × ((reduced admitted ≡ true) ↔ (e3 ≢ e4))
unfolding decide admit quorum byzantine_tolerance shards_needed
decide_coherent_example = decide_coherent e4 8 admitted refl
