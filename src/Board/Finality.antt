-- ===== src/Board/Finality.antt =====
-- A decided claim stays as it is: crates/supra_blackboard/src/board.rs.
use Prim.Native.String.{String, len}
use mathlib.Core.Option.{some-injective}
use supra_harness.Prelude.{
  ℕ, ◌+◌, ◌≡◌, inl, inr, refl, sym, ◌∙◌, ap, false, not, ◌||◌, Option, some, List, [], ◌∷◌, length,
  any, Result, ok, err, Result-cases, Option-cases, Bool-cases, if-elim, arith, ◌==◌, ltb,
}
use supra_harness.Prelude.OrdMap.{get, get-insert}
use supra_harness.Cohort.Verdict.{Verdict}
use supra_harness.Board.Tables.{
  BlackboardError, Database, StoredClaim, has_key, insert_claim, with_transaction, sqlite_refused,
}
use supra_harness.Board.{
  Blackboard, ClaimState, Outcome, is_open, ordinary_tally, add_claim, publish, publish_blind,
  record_vote, vote, vote_blind,
}
use supra_harness.Board.Casting.{IsBallot, voted_state}
use supra_harness.Board.Commands.{
  Command, published, published_blind, voted, voted_blind, step, run, new_board,
}
use supra_harness.Board.Recording.{record_vote_cases}
use supra_harness.Board.Publishing.{ordinary_state, blind_state}
use supra_harness.Board.Mirroring.{Mirrors-get}
use supra_harness.Board.Committing.{committed_body}
use supra_harness.Board.Soundness.{IsSound, step-IsSound, new_board-IsSound}
use supra_harness.Board.Durability.{IsMirrored, IsSound-get, step-IsMirrored, run-IsMirrored}
use supra_harness.Board.Reopening.{new_board-mirrored}

insert_claim-new :
    (stored : StoredClaim) (validators : List ℕ) (store tables : Database)
    → insert_claim stored validators store ≡ ok tables
    → has_key stored.claim store ≡ false
unfolding insert_claim
insert_claim-new stored validators store tables h = elim (Bool-cases (has_key stored.claim store)) [
  | inr new ↦ new
  | inl old ↦
      let refused : insert_claim stored validators store ≡ err sqlite_refused =
        rw (old, insert_claim) refl in
      ground (arith, refused, h)
]

module _ (claim : ℕ) (state : ClaimState) where
  abbrev Stays : Blackboard → Type 0
  Stays b = get claim b.claims ≡ some state

  add_claim-Stays :
      (refusal : Option BlackboardError) (id : ℕ) (new_state : ClaimState) (validators : List ℕ)
      (b : Blackboard)
      → IsMirrored b
      → Stays b
      → Stays (add_claim refusal id new_state validators b).0
  unfolding add_claim
  add_claim-Stays refusal id new_state validators b m here =
      let opened : StoredClaim = record {
        claim = id;
        turn = new_state.turn;
        proposer = new_state.proposer;
        body = new_state.body;
        k = new_state.k;
        status = "open";
      } in
      elim (Result-cases (with_transaction refusal (insert_claim opened validators b.store))) [
        | inl (tables, e) ↦
            let body = committed_body refusal (insert_claim opened validators b.store) tables e in
            let new = insert_claim-new opened validators b.store tables body in
            let (row, found, s) = Mirrors-get claim b.store b.claims state m.0 here in
            rw (e, add_claim)
              (ground (arith, get-insert id claim new_state b.claims, new, found, here))
        | inr (e, failed) ↦ rw (failed, add_claim) here
      ]

  record_vote-Stays :
      (refusal : Option BlackboardError) (other voter : ℕ) (verdict : Verdict)
      (other_state : ClaimState) (b : Blackboard)
      → IsBallot other_state
      → (other == claim) ≡ false
      → Stays b
      → Stays (record_vote refusal other voter verdict other_state b).0
  record_vote-Stays refusal other voter verdict other_state b it differ here =
      elim (record_vote_cases refusal other voter verdict other_state b it) [
        | inl (e, refused) ↦ rw refused here
        | inr (tables, vacant, committed, done) ↦ rw done (
            ground (
              arith,
              get-insert other claim (voted_state voter verdict.vote other_state) b.claims,
              differ,
              here,
            ))
      ]

  another_claim :
      (other : ℕ) (other_state : ClaimState) (b : Blackboard)
      → is_open state.status ≡ false
      → not (is_open other_state.status) ≡ false
      → Stays b
      → get other b.claims ≡ some other_state
      → (other == claim) ≡ false
  another_claim other other_state b decided still here found = elim (Bool-cases (other == claim)) [
    | inr differ ↦ differ
    | inl same ↦
        let key : other ≡ claim = ground (arith, same) in
        let e : other_state ≡ state =
          some-injective other_state state (sym found ∙ ap (λ k. get k b.claims) key ∙ here) in
        let status = ap (λ (s : ClaimState). is_open s.status) e in
        ground (arith, status, decided, still)
  ]

  publish-Stays :
      (refusal : Option BlackboardError) (id : ℕ) (b : Blackboard) (turn proposer : ℕ)
      (validators : List ℕ) (body : String)
      → IsMirrored b
      → Stays b
      → Stays (publish refusal id b turn proposer validators body).0
  unfolding publish
  publish-Stays refusal id b turn proposer validators body m here =
      let P = λ (r : Blackboard × Result BlackboardError ℕ). Stays r.0 in
      if-elim P (any (λ a. a == proposer) validators) (λ _. here)
        (λ _.
          if-elim P (ltb 2048 (len body)) (λ _. here)
            (λ _.
              add_claim-Stays refusal id
                (ordinary_state (ordinary_tally (length validators + 1)) turn proposer validators
                  body)
                validators b m here))

  publish_blind-Stays :
      (refusal : Option BlackboardError) (id : ℕ) (b : Blackboard) (turn proposer : ℕ)
      (body : String)
      → IsMirrored b
      → Stays b
      → Stays (publish_blind refusal id b turn proposer body).0
  unfolding publish_blind
  publish_blind-Stays refusal id b turn proposer body m here =
      let P = λ (r : Blackboard × Result BlackboardError ℕ). Stays r.0 in
      if-elim P (ltb 2048 (len body)) (λ _. here)
        (λ _. add_claim-Stays refusal id (blind_state turn proposer body) (proposer ∷ []) b m here)

  vote-Stays :
      (refusal : Option BlackboardError) (b : Blackboard) (other voter : ℕ) (verdict : Verdict)
      → IsSound b
      → is_open state.status ≡ false
      → Stays b
      → Stays (vote refusal b other voter verdict).0
  unfolding vote
  vote-Stays refusal b other voter verdict s decided here =
      let P = λ (r : Blackboard × Result BlackboardError Outcome). Stays r.0 in
      elim (Option-cases (get other b.claims)) [
        | inl unknown ↦ rw (unknown, vote) here
        | inr (q, found) ↦
            rw (found, vote)
              (if-elim P (not (is_open q.status)) (λ _. here)
                (λ still.
                  if-elim P (voter == q.proposer) (λ _. here)
                    (λ _.
                      record_vote-Stays refusal other voter verdict q b
                        (IsSound-get b other q s found)
                        (another_claim other q b decided still here found) here)))
      ]

  vote_blind-Stays :
      (refusal : Option BlackboardError) (b : Blackboard) (other voter : ℕ) (verdict : Verdict)
      → IsSound b
      → is_open state.status ≡ false
      → Stays b
      → Stays (vote_blind refusal b other voter verdict).0
  unfolding vote_blind
  vote_blind-Stays refusal b other voter verdict s decided here =
      let P = λ (r : Blackboard × Result BlackboardError Outcome). Stays r.0 in
      elim (Option-cases (get other b.claims)) [
        | inl unknown ↦ rw (unknown, vote_blind) here
        | inr (q, found) ↦
            rw (found, vote_blind)
              (if-elim P (not (is_open q.status)) (λ _. here)
                (λ still.
                  if-elim P
                    (not (q.proposer == voter) || not (q.k == 1) || not (length q.validators == 1))
                    (λ _. here)
                    (λ _.
                      record_vote-Stays refusal other voter verdict q b
                        (IsSound-get b other q s found)
                        (another_claim other q b decided still here found) here)))
      ]

  step-Stays :
      (refusal : Option BlackboardError) (command : Command) (b : Blackboard)
      → IsSound b × IsMirrored b
      → is_open state.status ≡ false
      → Stays b
      → Stays (step refusal command b).0
  unfolding step
  step-Stays refusal (published id turn proposer validators body) b (s, m) decided here =
      publish-Stays refusal id b turn proposer validators body m here
  step-Stays refusal (published_blind id turn proposer body) b (s, m) decided here =
      publish_blind-Stays refusal id b turn proposer body m here
  step-Stays refusal (voted other voter verdict) b (s, m) decided here =
      vote-Stays refusal b other voter verdict s decided here
  step-Stays refusal (voted_blind other voter verdict) b (s, m) decided here =
      vote_blind-Stays refusal b other voter verdict s decided here

  run-Stays :
      (commands : List (Option BlackboardError × Command)) (b : Blackboard)
      → IsSound b × IsMirrored b
      → is_open state.status ≡ false
      → Stays b
      → Stays (run commands b)
  unfolding run
  run-Stays [] b h decided here = here
  run-Stays ((refusal, command) ∷ commands) b h decided here =
      run-Stays commands (step refusal command b).0
        (step-IsSound refusal command b h.0, step-IsMirrored refusal command b h.0 h.1) decided
        (step-Stays refusal command b h decided here)

-- A decision is final: once a claim on the board is reached or given up, no later calls change anything
-- of it, be they votes on it or a new claim that was given its id.
pub decided_final :
    (before later : List (Option BlackboardError × Command)) (claim : ℕ) (state : ClaimState)
    → get claim (run before new_board).claims ≡ some state
    → is_open state.status ≡ false
    → get claim (run later (run before new_board)).claims ≡ some state
decided_final before later claim state here decided =
    run-Stays claim state later (run before new_board)
      (run-IsMirrored before new_board (new_board-IsSound, new_board-mirrored)) decided here
