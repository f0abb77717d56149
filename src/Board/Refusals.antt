-- ===== src/Board/Refusals.antt =====
-- A failed call leaves the board and its tables as they were: crates/supra_blackboard/src/board.rs.
use Prim.Native.String.{String, len}
use mathlib.Core.Option.{none-ne-some}
use supra_harness.Prelude.{
  ℕ, ◌+◌, ◌≡◌, inl, inr, refl, sym, ◌∙◌, ◌⊎◌, not, ◌||◌, Option, none, some, List, [], ◌∷◌, length,
  Result, Result-cases, Option-cases, if-elim, any, ltb, ◌==◌,
}
use supra_harness.Prelude.OrdMap.{get}
use supra_harness.Cohort.Verdict.{Verdict}
use supra_harness.Cohort.Tally.{record_vote as tally_vote}
use supra_harness.Board.Tables.{BlackboardError, with_transaction, insert_claim, StoredClaim}
use supra_harness.Board.{
  Blackboard, ClaimState, Outcome, is_open, ordinary_tally, add_claim, publish, publish_blind,
  vote_rows, record_vote, vote, vote_blind,
}
use supra_harness.Board.Publishing.{ordinary_state, blind_state}
use supra_harness.Board.Commands.{
  Command, published, published_blind, voted, voted_blind, step, failure,
}

module _ (b : Blackboard) where
  -- The call succeeded, or the board is the one before it.
  abbrev Kept : {A : Type 0} → Blackboard × Result BlackboardError A → Type 0
  Kept r = (failure r.1 ≡ none) ⊎ (r.0 ≡ b)

  add_claim-Kept :
      (refusal : Option BlackboardError) (id : ℕ) (state : ClaimState) (validators : List ℕ)
      → Kept (add_claim refusal id state validators b)
  unfolding add_claim
  add_claim-Kept refusal id state validators =
      let stored : StoredClaim = record {
        claim = id;
        turn = state.turn;
        proposer = state.proposer;
        body = state.body;
        k = state.k;
        status = "open";
      } in
      elim (Result-cases (with_transaction refusal (insert_claim stored validators b.store))) [
        | inl (tables, e) ↦ inl (rw (e, add_claim) refl)
        | inr (e, failed) ↦ inr (rw (failed, add_claim) refl)
      ]

  record_vote-Kept :
      (refusal : Option BlackboardError) (claim voter : ℕ) (verdict : Verdict) (state : ClaimState)
      → Kept (record_vote refusal claim voter verdict state b)
  unfolding record_vote
  record_vote-Kept refusal claim voter verdict state =
      elim (Option-cases (get voter state.validators)) [
        | inl stranger ↦ inr (rw (stranger, record_vote) refl)
        | inr (some v, again) ↦ inr (rw (again, record_vote) refl)
        | inr (none, vacant) ↦ elim (Result-cases (tally_vote state.tally verdict.vote).1) [
          | inr (e, full) ↦ inr (rw (vacant, full, record_vote) refl)
          | inl (outcome, counted) ↦
              elim (Result-cases
                (with_transaction refusal (vote_rows claim voter verdict.vote outcome b.store))) [
                  | inl (tables, e) ↦ inl (rw (vacant, counted, e, record_vote) refl)
                  | inr (e, failed) ↦ inr (rw (vacant, counted, failed, record_vote) refl)
                ]
        ]
      ]

  publish-Kept :
      (refusal : Option BlackboardError) (id turn proposer : ℕ) (validators : List ℕ)
      (body : String)
      → Kept (publish refusal id b turn proposer validators body)
  unfolding publish
  publish-Kept refusal id turn proposer validators body =
      if-elim (Kept {A = ℕ}) (any (λ a. a == proposer) validators) (λ _. inr refl)
        (λ _.
          if-elim (Kept {A = ℕ}) (ltb 2048 (len body)) (λ _. inr refl)
            (λ _.
              add_claim-Kept refusal id
                (ordinary_state (ordinary_tally (length validators + 1)) turn proposer validators
                  body)
                validators))

  publish_blind-Kept :
      (refusal : Option BlackboardError) (id turn proposer : ℕ) (body : String)
      → Kept (publish_blind refusal id b turn proposer body)
  unfolding publish_blind
  publish_blind-Kept refusal id turn proposer body =
      if-elim (Kept {A = ℕ}) (ltb 2048 (len body)) (λ _. inr refl)
        (λ _. add_claim-Kept refusal id (blind_state turn proposer body) (proposer ∷ []))

  vote-Kept :
      (refusal : Option BlackboardError) (claim voter : ℕ) (verdict : Verdict)
      → Kept (vote refusal b claim voter verdict)
  unfolding vote
  vote-Kept refusal claim voter verdict = elim (Option-cases (get claim b.claims)) [
    | inl unknown ↦ inr (rw (unknown, vote) refl)
    | inr (state, found) ↦
        rw (found, vote)
          (if-elim (Kept {A = Outcome}) (not (is_open state.status)) (λ _. inr refl)
            (λ _.
              if-elim (Kept {A = Outcome}) (voter == state.proposer) (λ _. inr refl)
                (λ _. record_vote-Kept refusal claim voter verdict state)))
  ]

  vote_blind-Kept :
      (refusal : Option BlackboardError) (claim voter : ℕ) (verdict : Verdict)
      → Kept (vote_blind refusal b claim voter verdict)
  unfolding vote_blind
  vote_blind-Kept refusal claim voter verdict = elim (Option-cases (get claim b.claims)) [
    | inl unknown ↦ inr (rw (unknown, vote_blind) refl)
    | inr (state, found) ↦
        rw (found, vote_blind)
          (if-elim (Kept {A = Outcome}) (not (is_open state.status)) (λ _. inr refl)
            (λ _.
              if-elim (Kept {A = Outcome})
                (not (state.proposer == voter)
                  || not (state.k == 1)
                  || not (length state.validators == 1))
                (λ _. inr refl) (λ _. record_vote-Kept refusal claim voter verdict state)))
  ]

  failure-Kept :
      {A : Type 0} (r : Blackboard × Result BlackboardError A) (e : BlackboardError)
      → Kept r
      → failure r.1 ≡ some e
      → r.0 ≡ b
  failure-Kept r e (inr same) failed = same
  failure-Kept r e (inl fine) failed = absurd (none-ne-some e (sym fine ∙ failed))

-- A call that fails, by a guard of the board, by a full tally, or because the engine refuses or rolls
-- back its transaction, changes neither the claims in memory nor the tables.
pub refused_unchanged :
    (refusal : Option BlackboardError) (command : Command) (b : Blackboard) (e : BlackboardError)
    → (step refusal command b).1 ≡ some e
    → (step refusal command b).0 ≡ b
unfolding step
refused_unchanged refusal (published id turn proposer validators body) b e failed =
    failure-Kept b (publish refusal id b turn proposer validators body) e
      (publish-Kept b refusal id turn proposer validators body) failed
refused_unchanged refusal (published_blind id turn proposer body) b e failed =
    failure-Kept b (publish_blind refusal id b turn proposer body) e
      (publish_blind-Kept b refusal id turn proposer body) failed
refused_unchanged refusal (voted claim voter verdict) b e failed =
    failure-Kept b (vote refusal b claim voter verdict) e (vote-Kept b refusal claim voter verdict)
      failed
refused_unchanged refusal (voted_blind claim voter verdict) b e failed =
    failure-Kept b (vote_blind refusal b claim voter verdict) e
      (vote_blind-Kept b refusal claim voter verdict) failed
