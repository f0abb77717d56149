-- ===== src/Board/Recording.antt =====
-- What a recorded vote does: it is refused and changes nothing, or the engine commits it and it stands
-- in its slot. `record_vote` of crates/supra_blackboard/src/board.rs.
use supra_harness.Prelude.{
  ℕ, ◌≡◌, ◌⊎◌, inl, inr, refl, ap, Option, none, some, Result, ok, err, Result-cases, Option-cases,
}
use supra_harness.Prelude.OrdMap.{get, insert}
use supra_harness.Cohort.Verdict.{Vote, Verdict}
use supra_harness.Cohort.Tally.{QuorumTally}
use supra_harness.Cohort.Tally
use supra_harness.Board.Tables.{
  BlackboardError, not_in_cohort, duplicate_vote, Database, with_transaction,
}
use supra_harness.Board.{Blackboard, ClaimState, Outcome, vote_rows, record_vote}
use supra_harness.Board.Casting.{IsBallot, voted_state, tally_vote_pending, pending-empty}

-- The board and the answer after the vote is committed, with this tally.
abbrev pub cast_with :
    QuorumTally
    → ℕ
    → ℕ
    → Vote
    → ClaimState
    → Database
    → Blackboard
    → Blackboard × Result BlackboardError Outcome
cast_with tally claim voter cast state tables b =
    let status = (voted_state voter cast state).status in
    let after = record state {
      tally = tally;
      status = status;
      validators = insert voter (some cast) state.validators;
    } in
    (
      record { store = tables; claims = insert claim after b.claims },
      ok (record { claim = claim; status = status; tally = tally }),
    )

abbrev pub cast_vote :
    ℕ → ℕ → Vote → ClaimState → Database → Blackboard → Blackboard × Result BlackboardError Outcome
cast_vote claim voter cast state tables b =
    cast_with (Tally.count_vote cast state.tally) claim voter cast state tables b

pub record_vote_cases :
    (refusal : Option BlackboardError) (claim voter : ℕ) (verdict : Verdict) (state : ClaimState)
    (b : Blackboard)
    → IsBallot state
    → ((e : BlackboardError) × (record_vote refusal claim voter verdict state b ≡ (b, err e)))
      ⊎ ((tables : Database) × (get voter state.validators ≡ some none)
          × (with_transaction refusal (
                vote_rows claim voter verdict.vote
                  (voted_state voter verdict.vote state).status
                  b.store)
              ≡ ok tables)
          × (record_vote refusal claim voter verdict state b
              ≡ cast_vote claim voter verdict.vote state tables b))
unfolding record_vote
record_vote_cases refusal claim voter verdict state b it =
    elim (Option-cases (get voter state.validators)) [
      | inl stranger ↦ inl (not_in_cohort voter claim, rw (stranger, record_vote) refl)
      | inr (some v, again) ↦ inl (duplicate_vote voter claim, rw (again, record_vote) refl)
      | inr (none, vacant) ↦
          let counted =
            tally_vote_pending state.tally verdict.vote (pending-empty voter state it vacant) in
          elim (Result-cases (
            with_transaction refusal (
              vote_rows claim voter verdict.vote (voted_state voter verdict.vote state).status
                b.store))) [
                  | inl (tables, e) ↦ inr (
                    tables,
                    vacant,
                    e,
                    rw (vacant, record_vote, counted, e)
                        (ap (λ r. cast_with r.0 claim voter verdict.vote state tables b) counted),
                  )
                  | inr (e, failed) ↦ inl (e, rw (vacant, record_vote, counted, failed) refl)
                ]
    ]
