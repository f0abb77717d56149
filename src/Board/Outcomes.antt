-- ===== src/Board/Outcomes.antt =====
-- What a caller finds after a publication or a vote: `publish`, `publish_blind`, `vote` and
-- `vote_blind` of crates/supra_blackboard/src/board.rs.
use Prim.Native.String.{String, len}
use supra_harness.Prelude.{
  ℕ, ◌+◌, ◌≡◌, ◌⊎◌, inl, inr, refl, not, ◌||◌, Bool, true, false, Option, some, List, [], ◌∷◌,
  length, Result, ok, err, Result-cases, if-elim, any, ltb, ◌==◌, arith,
}
use supra_harness.Prelude.OrdMap.{get, Holds, get-insert}
use supra_harness.Cohort.Verdict.{Verdict}
use supra_harness.Board.Tables.{BlackboardError, with_transaction, insert_claim, StoredClaim}
use supra_harness.Board.{
  Blackboard, ClaimState, Outcome, is_open, ordinary_tally, add_claim, publish, publish_blind,
  record_vote, vote, vote_blind,
}
use supra_harness.Board.Publishing.{ordinary_state, blind_state}
use supra_harness.Board.Recording.{record_vote_cases, cast_vote}
use supra_harness.Board.Casting.{voted_state}
use supra_harness.Board.Soundness.{IsSound}

-- A vote is refused and changes nothing, or the open claim is stored with the outcome's status.
abbrev pub Voted :
    ℕ → ClaimState → Blackboard → Blackboard × Result BlackboardError Outcome → Type 0
Voted claim state b r =
    ((e : BlackboardError) × (r ≡ (b, err e)))
    ⊎ ((after : Blackboard) × (o : Outcome) × (next : ClaimState) × (r ≡ (after, ok o))
        × (get claim after.claims ≡ some next)
        × (o.status ≡ next.status)
        × (next.k ≡ state.k)
        × (is_open state.status ≡ true))

record_vote-Voted :
    (refusal : Option BlackboardError) (claim voter : ℕ) (verdict : Verdict) (state : ClaimState)
    (b : Blackboard)
    → IsSound b
    → get claim b.claims ≡ some state
    → is_open state.status ≡ true
    → Voted claim state b (record_vote refusal claim voter verdict state b)
record_vote-Voted refusal claim voter verdict state b s found still =
    elim (record_vote_cases refusal claim voter verdict state b
      (unfold IsSound Holds in (s claim state found))) [
        | inl refused ↦ inl refused
        | inr (tables, vacant, committed, done) ↦
            let r = cast_vote claim voter verdict.vote state tables b in
            inr (
              r.0,
              record {
                claim = claim;
                status = (voted_state voter verdict.vote state).status;
                tally = (voted_state voter verdict.vote state).tally;
              },
              voted_state voter verdict.vote state,
              done,
              ground
                  (arith, get-insert claim claim (voted_state voter verdict.vote state) b.claims),
              refl,
              refl,
              still,
            )
      ]

not-false : (b : Bool) → not b ≡ false → b ≡ true
not-false b h = ground arith

pub vote-Voted :
    (refusal : Option BlackboardError) (b : Blackboard) (claim voter : ℕ) (verdict : Verdict)
    (state : ClaimState)
    → IsSound b
    → get claim b.claims ≡ some state
    → Voted claim state b (vote refusal b claim voter verdict)
unfolding vote
vote-Voted refusal b claim voter verdict state s found =
    let P = Voted claim state b in
    rw (found, vote)
      (if-elim P (not (is_open state.status)) (λ _. inl (_, refl))
        (λ still.
          if-elim P (voter == state.proposer) (λ _. inl (_, refl))
            (λ _.
              record_vote-Voted refusal claim voter verdict state b s found
                (not-false (is_open state.status) still))))

pub vote_blind-Voted :
    (refusal : Option BlackboardError) (b : Blackboard) (claim voter : ℕ) (verdict : Verdict)
    (state : ClaimState)
    → IsSound b
    → get claim b.claims ≡ some state
    → Voted claim state b (vote_blind refusal b claim voter verdict)
unfolding vote_blind
vote_blind-Voted refusal b claim voter verdict state s found =
    let P = Voted claim state b in
    rw (found, vote_blind)
      (if-elim P (not (is_open state.status)) (λ _. inl (_, refl))
        (λ still.
          if-elim P
            (not (state.proposer == voter)
              || not (state.k == 1)
              || not (length state.validators == 1))
            (λ _. inl (_, refl))
            (λ _.
              record_vote-Voted refusal claim voter verdict state b s found
                (not-false (is_open state.status) still))))

-- A publication is refused, or this claim is stored under its id.
abbrev pub Opened : ℕ → ClaimState → Blackboard × Result BlackboardError ℕ → Type 0
Opened id state r =
    ((e : BlackboardError) × (r.1 ≡ err e)) ⊎ ((r.1 ≡ ok id) × (get id r.0.claims ≡ some state))

add_claim-Opened :
    (refusal : Option BlackboardError) (id : ℕ) (state : ClaimState) (validators : List ℕ)
    (b : Blackboard)
    → Opened id state (add_claim refusal id state validators b)
unfolding add_claim
add_claim-Opened refusal id state validators b =
    let stored : StoredClaim = record {
      claim = id;
      turn = state.turn;
      proposer = state.proposer;
      body = state.body;
      k = state.k;
      status = "open";
    } in
    elim (Result-cases (with_transaction refusal (insert_claim stored validators b.store))) [
      | inl (tables, e) ↦
          rw (e, add_claim) (inr (refl, ground (arith, get-insert id id state b.claims)))
      | inr (e, failed) ↦ rw (failed, add_claim) (inl (e, refl))
    ]

pub publish-Opened :
    (refusal : Option BlackboardError) (id : ℕ) (b : Blackboard) (turn proposer : ℕ)
    (validators : List ℕ) (body : String)
    → Opened id
        (ordinary_state (ordinary_tally (length validators + 1)) turn proposer validators body)
        (publish refusal id b turn proposer validators body)
unfolding publish
publish-Opened refusal id b turn proposer validators body =
    let state =
      ordinary_state (ordinary_tally (length validators + 1)) turn proposer validators body in
    let P = Opened id state in
    if-elim P (any (λ a. a == proposer) validators) (λ _. inl (_, refl))
      (λ _.
        if-elim P (ltb 2048 (len body)) (λ _. inl (_, refl))
          (λ _. add_claim-Opened refusal id state validators b))

pub publish_blind-Opened :
    (refusal : Option BlackboardError) (id : ℕ) (b : Blackboard) (turn proposer : ℕ) (body : String)
    → Opened id (blind_state turn proposer body) (publish_blind refusal id b turn proposer body)
unfolding publish_blind
publish_blind-Opened refusal id b turn proposer body =
    if-elim (Opened id (blind_state turn proposer body)) (ltb 2048 (len body)) (λ _. inl (_, refl))
      (λ _. add_claim-Opened refusal id (blind_state turn proposer body) (proposer ∷ []) b)
