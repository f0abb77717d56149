-- ===== src/Board/Durability.antt =====
-- The tables always say what the claims in memory say, and a board that is opened again is the board in
-- memory: crates/supra_blackboard/src/board.rs.
use Prim.Native.String.{String, len}
use supra_harness.Prelude.{
  ℕ, ◌+◌, ◌≡◌, inl, inr, refl, sym, ◌∙◌, ap, subst, true, not, ◌||◌, Option, none, some, List, [],
  ◌∷◌, length, any, Result, Result-cases, Option-cases, if-elim, arith, ◌==◌, ltb,
}
use supra_harness.Prelude.OrdMap.{OrdMap, get, insert, IsSorted, insert-IsSorted, Holds}
use supra_harness.Cohort.Verdict.{Vote, Verdict}
use supra_harness.Cohort.Tally.{QuorumStatus, still_open}
use supra_harness.Board.Tables.{
  BlackboardError, Row, StoredClaim, insert_validators, insert_claim, with_transaction,
}
use supra_harness.Board.{
  Blackboard, ClaimState, Outcome, is_open, status_text, ordinary_tally, add_claim, publish,
  publish_blind, vote_rows, record_vote, vote, vote_blind,
}
use supra_harness.Board.Casting.{IsBallot, voted_state, implicit_yes-voted}
use supra_harness.Board.Commands.{
  Command, published, published_blind, voted, voted_blind, step, run,
}
use supra_harness.Board.Recording.{record_vote_cases}
use supra_harness.Board.Publishing.{ordinary_state, blind_state}
use supra_harness.Board.Restoring.{IsStored, stored_of}
use supra_harness.Board.Mirroring.{
  Mirrors, Mirrors-insert, Mirrors-get, keys-insert_old, cast_of-insert,
}
use supra_harness.Board.Committing.{
  voted_row, committed_body, vote_rows-committed, insert_claim-committed,
}
use supra_harness.Board.Enrolling.{ordinary_state-IsStored, blind_state-IsStored}
use supra_harness.Board.Soundness.{IsSound, step-IsSound}

pub IsSound-get :
    (b : Blackboard) (claim : ℕ) (state : ClaimState)
    → IsSound b
    → get claim b.claims ≡ some state
    → IsBallot state
IsSound-get b claim state s found = unfold IsSound Holds in (s claim state found)

abbrev pub IsMirrored : Blackboard → Type 0
IsMirrored b = Mirrors b.store b.claims × IsSorted b.claims

is_open-text : (status : QuorumStatus) → is_open status ≡ true → status_text status ≡ "open"
unfolding status_text
is_open-text still_open h = refl
is_open-text QuorumStatus.reached h = ground (arith, h)
is_open-text QuorumStatus.unreachable h = ground (arith, h)

voted_row-IsStored :
    (id voter : ℕ) (cast : Vote) (row : Row) (state : ClaimState)
    → IsBallot state
    → IsStored id row state
    → get voter state.validators ≡ some none
    → IsStored id
        (voted_row voter cast (voted_state voter cast state).status row)
        (voted_state voter cast state)
voted_row-IsStored id voter cast row state b s vacant =
    let after = voted_state voter cast state in
    let kept = keys-insert_old voter (some cast) none state.validators b.sorted vacant in
    record {
      stored = ap (λ (st : StoredClaim). record st { status = status_text after.status }) s.stored;
      roster = s.roster ∙ sym kept;
      votes =
          ap (insert voter cast) s.votes
          ∙ sym (cast_of-insert voter cast state.validators b.sorted vacant);
      proposed = elim s.proposed [
        | inl implicit ↦ inl (implicit_yes-voted voter cast state vacant ∙ implicit)
        | inr alone ↦ inr (kept ∙ alone)
      ];
    }

record_vote-IsMirrored :
    (refusal : Option BlackboardError) (claim voter : ℕ) (verdict : Verdict) (state : ClaimState)
    (b : Blackboard)
    → IsMirrored b
    → IsBallot state
    → get claim b.claims ≡ some state
    → is_open state.status ≡ true
    → IsMirrored (record_vote refusal claim voter verdict state b).0
record_vote-IsMirrored refusal claim voter verdict state b m it found still =
    elim (record_vote_cases refusal claim voter verdict state b it) [
      | inl (e, refused) ↦ rw refused m
      | inr (tables, vacant, committed, done) ↦
          let (row, row_found, s) = Mirrors-get claim b.store b.claims state m.0 found in
          let after = voted_state voter verdict.vote state in
          let is_text =
            ap (λ (st : StoredClaim). st.status) s.stored ∙ is_open-text state.status still in
          let body =
            committed_body refusal (vote_rows claim voter verdict.vote after.status b.store) tables
              committed in
          let e =
            vote_rows-committed claim voter verdict.vote after.status b.store row tables row_found
              is_text body in
          rw done (
            subst (λ t. Mirrors t (insert claim after b.claims)) (sym e)
                (Mirrors-insert claim (voted_row voter verdict.vote after.status row) after b.store
                  b.claims m.0 (voted_row-IsStored claim voter verdict.vote row state it s vacant)),
            insert-IsSorted claim after b.claims m.1,
          )
    ]

add_claim-IsMirrored :
    (refusal : Option BlackboardError) (id : ℕ) (state : ClaimState) (validators : List ℕ)
    (b : Blackboard)
    → IsMirrored b
    → status_text state.status ≡ "open"
    → ((filled : OrdMap (Unit {0}))
        → insert_validators validators [] ≡ some filled
        → IsStored id (record { stored = stored_of id state; roster = filled; votes = [] }) state)
    → IsMirrored (add_claim refusal id state validators b).0
unfolding add_claim
add_claim-IsMirrored refusal id state validators b m is_text made =
    let opened : StoredClaim = record {
      claim = id;
      turn = state.turn;
      proposer = state.proposer;
      body = state.body;
      k = state.k;
      status = "open";
    } in
    elim (Result-cases (with_transaction refusal (insert_claim opened validators b.store))) [
      | inl (tables, e) ↦
          let body = committed_body refusal (insert_claim opened validators b.store) tables e in
          let (filled, accepted, t) =
            insert_claim-committed opened validators b.store tables body in
          let same : opened ≡ stored_of id state = λ i. record opened { status = sym is_text i } in
          let s =
            subst (λ st. IsStored id (record { stored = st; roster = filled; votes = [] }) state)
              (sym same) (made filled accepted) in
          rw (e, add_claim)
            (
              subst (λ x. Mirrors x (insert id state b.claims)) (sym t)
                  (Mirrors-insert id (record { stored = opened; roster = filled; votes = [] }) state
                    b.store b.claims m.0 s),
              insert-IsSorted id state b.claims m.1,
            )
      | inr (e, failed) ↦ rw (failed, add_claim) m
    ]

publish-IsMirrored :
    (refusal : Option BlackboardError) (id : ℕ) (b : Blackboard) (turn proposer : ℕ)
    (validators : List ℕ) (body : String)
    → IsMirrored b
    → IsMirrored (publish refusal id b turn proposer validators body).0
unfolding publish status_text
publish-IsMirrored refusal id b turn proposer validators body m =
    let P = λ (r : Blackboard × Result BlackboardError ℕ). IsMirrored r.0 in
    let tally = ordinary_tally (length validators + 1) in
    if-elim P (any (λ a. a == proposer) validators) (λ _. m)
      (λ outside.
        if-elim P (ltb 2048 (len body)) (λ _. m)
          (λ _.
            add_claim-IsMirrored refusal id (ordinary_state tally turn proposer validators body)
              validators b m refl
              (λ filled accepted.
                ordinary_state-IsStored id turn proposer validators body tally filled outside
                  accepted)))

publish_blind-IsMirrored :
    (refusal : Option BlackboardError) (id : ℕ) (b : Blackboard) (turn proposer : ℕ) (body : String)
    → IsMirrored b
    → IsMirrored (publish_blind refusal id b turn proposer body).0
unfolding publish_blind status_text
publish_blind-IsMirrored refusal id b turn proposer body m =
    let P = λ (r : Blackboard × Result BlackboardError ℕ). IsMirrored r.0 in
    if-elim P (ltb 2048 (len body)) (λ _. m)
      (λ _.
        add_claim-IsMirrored refusal id (blind_state turn proposer body) (proposer ∷ []) b m refl
          (λ filled accepted. blind_state-IsStored id turn proposer body filled accepted))

vote-IsMirrored :
    (refusal : Option BlackboardError) (b : Blackboard) (claim voter : ℕ) (verdict : Verdict)
    → IsSound b
    → IsMirrored b
    → IsMirrored (vote refusal b claim voter verdict).0
unfolding vote
vote-IsMirrored refusal b claim voter verdict s m =
    let P = λ (r : Blackboard × Result BlackboardError Outcome). IsMirrored r.0 in
    elim (Option-cases (get claim b.claims)) [
      | inl unknown ↦ rw (unknown, vote) m
      | inr (state, found) ↦
          rw (found, vote)
            (if-elim P (not (is_open state.status)) (λ _. m)
              (λ still.
                if-elim P (voter == state.proposer) (λ _. m)
                  (λ _.
                    record_vote-IsMirrored refusal claim voter verdict state b m
                      (IsSound-get b claim state s found) found (ground (arith, still)))))
    ]

vote_blind-IsMirrored :
    (refusal : Option BlackboardError) (b : Blackboard) (claim voter : ℕ) (verdict : Verdict)
    → IsSound b
    → IsMirrored b
    → IsMirrored (vote_blind refusal b claim voter verdict).0
unfolding vote_blind
vote_blind-IsMirrored refusal b claim voter verdict s m =
    let P = λ (r : Blackboard × Result BlackboardError Outcome). IsMirrored r.0 in
    elim (Option-cases (get claim b.claims)) [
      | inl unknown ↦ rw (unknown, vote_blind) m
      | inr (state, found) ↦
          rw (found, vote_blind)
            (if-elim P (not (is_open state.status)) (λ _. m)
              (λ still.
                if-elim P
                  (not (state.proposer == voter)
                    || not (state.k == 1)
                    || not (length state.validators == 1))
                  (λ _. m)
                  (λ _.
                    record_vote-IsMirrored refusal claim voter verdict state b m
                      (IsSound-get b claim state s found) found (ground (arith, still)))))
    ]

pub step-IsMirrored :
    (refusal : Option BlackboardError) (command : Command) (b : Blackboard)
    → IsSound b
    → IsMirrored b
    → IsMirrored (step refusal command b).0
unfolding step
step-IsMirrored refusal (published id turn proposer validators body) b s m =
    publish-IsMirrored refusal id b turn proposer validators body m
step-IsMirrored refusal (published_blind id turn proposer body) b s m =
    publish_blind-IsMirrored refusal id b turn proposer body m
step-IsMirrored refusal (voted claim voter verdict) b s m =
    vote-IsMirrored refusal b claim voter verdict s m
step-IsMirrored refusal (voted_blind claim voter verdict) b s m =
    vote_blind-IsMirrored refusal b claim voter verdict s m

pub run-IsMirrored :
    (commands : List (Option BlackboardError × Command)) (b : Blackboard)
    → IsSound b × IsMirrored b
    → IsSound (run commands b) × IsMirrored (run commands b)
unfolding run
run-IsMirrored [] b h = h
run-IsMirrored ((refusal, command) ∷ commands) b (s, m) =
    run-IsMirrored commands (step refusal command b).0
      (step-IsSound refusal command b s, step-IsMirrored refusal command b s m)
