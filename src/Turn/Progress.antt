-- ===== src/Turn/Progress.antt =====
-- The invariant of a turn, crates/supra_core/src/turn.rs, and the votes that keep it.
use supra_harness.Prelude.{
  ℕ, ◌+◌, ◌<◌, ◌≡◌, ◌⊎◌, inl, inr, refl, ap, subst, ◌&&◌, Bool, true, false, Option, none, some,
  List, [], ◌∷◌, ◌++◌, length, length-append, all, Result, ok, err, if-elim, arith,
}
use supra_harness.Prelude.OrdMap.{get}
use supra_harness.Canonical.{Bytes}
use supra_harness.Cohort.Verdict.{Verdict}
use supra_harness.Cohort.Tally.{QuorumStatus, still_open, reached, unreachable}
use supra_harness.Board.Tables.{BlackboardError}
use supra_harness.Board.{Blackboard, ClaimState, Outcome, is_open}
use supra_harness.Board.Outcomes.{Voted, vote-Voted, vote_blind-Voted}
use supra_harness.Board.Soundness.{IsSound, vote-IsSound, vote_blind-IsSound}
use supra_harness.Turn.{
  step_of, is_proposer, vote_turn, record_verdict, settle_vote, announce_outcome,
}
use supra_harness.Turn.State.{
  Turn, Step, collecting, step_reached, escalate, announce, no_answer, board_refused,
}
use supra_harness.Bus.Events.{vote_cast}

abbrev pub is_collecting : Step → Bool
is_collecting collecting = true
is_collecting step_reached = false
is_collecting escalate = false

-- Every vote so far left the claim open, but perhaps the last, which decided it.
abbrev pub Progress : QuorumStatus → List Step → Type 0
Progress standing steps =
    ((standing ≡ still_open) × (all is_collecting steps ≡ true))
    ⊎ ((earlier : List Step) × (steps ≡ earlier ++ step_of standing ∷ [])
        × (all is_collecting earlier ≡ true)
        × (is_open standing ≡ false))

pub record IsTurn (t : Turn) : Type 0 where
  pub sound : IsSound t.blackboard
  pub state : ClaimState
  pub found : get t.claim t.blackboard.claims ≡ some state
  pub counted : t.votes_seen ≡ length t.steps_seen
  pub answered :
      ((t.answer ≡ none) × (t.steps_seen ≡ []))
      ⊎ ((answer : Bytes) × (t.answer ≡ some answer) × (0 < length answer))
  pub progress : Progress state.status t.steps_seen
  pub closing : (t.finished ≡ false) ⊎ (state.status ≡ reached)

all-append :
    (steps : List Step) (s : Step)
    → all is_collecting (steps ++ s ∷ []) ≡ (all is_collecting steps && is_collecting s)
all-append [] s = ground arith
all-append (x ∷ steps) s = ground (arith, all-append steps s)

Progress-vote :
    (standing : QuorumStatus) (steps : List Step)
    → all is_collecting steps ≡ true
    → Progress standing (steps ++ step_of standing ∷ [])
Progress-vote still_open steps h = inl (refl, rw (all-append steps collecting, h) refl)
Progress-vote reached steps h = inr (steps, refl, h, refl)
Progress-vote unreachable steps h = inr (steps, refl, h, refl)

Progress-open :
    (standing : QuorumStatus) (steps : List Step)
    → Progress standing steps
    → is_open standing ≡ true
    → all is_collecting steps ≡ true
Progress-open standing steps (inl p) h = p.1
Progress-open standing steps (inr p) h = ground (arith, p, h)

pub vote_turn-Voted :
    (refusal : Option BlackboardError) (t : Turn) (agent : ℕ) (verdict : Verdict) (it : IsTurn t)
    → Voted t.claim it.state t.blackboard (vote_turn refusal t agent verdict)
vote_turn-Voted refusal t agent verdict it =
    if-elim (Voted t.claim it.state t.blackboard)
      (t.blind_rederivation && is_proposer agent t.session)
      (λ _. vote_blind-Voted refusal t.blackboard t.claim agent verdict it.state it.sound it.found)
      (λ _. vote-Voted refusal t.blackboard t.claim agent verdict it.state it.sound it.found)

vote_turn-IsSound :
    (refusal : Option BlackboardError) (t : Turn) (agent : ℕ) (verdict : Verdict)
    → IsSound t.blackboard
    → IsSound (vote_turn refusal t agent verdict).0
vote_turn-IsSound refusal t agent verdict s =
    if-elim (λ (r : Blackboard × Result BlackboardError Outcome). IsSound r.0)
      (t.blind_rederivation && is_proposer agent t.session)
      (λ _. vote_blind-IsSound refusal t.blackboard t.claim agent verdict s)
      (λ _. vote-IsSound refusal t.blackboard t.claim agent verdict s)

pub record_verdict-refused :
    (refusal : Option BlackboardError) (t : Turn) (agent : ℕ) (verdict : Verdict)
    (e : BlackboardError)
    → vote_turn refusal t agent verdict ≡ (t.blackboard, err e)
    → record_verdict refusal t agent verdict ≡ (t, err (no_answer (board_refused e)))
unfolding record_verdict
record_verdict-refused refusal t agent verdict e h = ap (settle_vote t agent verdict) h

-- The turn after a vote that is accepted.
abbrev pub voted_turn : Turn → ℕ → Verdict → Blackboard → Outcome → Turn
voted_turn t agent verdict after o = record t {
  blackboard = after;
  bus =
      announce_outcome t.claim o
        (announce (vote_cast t.claim agent verdict.vote verdict.confidence) t.bus);
  votes_seen = t.votes_seen + 1;
  steps_seen = t.steps_seen ++ step_of o.status ∷ [];
}

pub record_verdict-accepted :
    (refusal : Option BlackboardError) (t : Turn) (agent : ℕ) (verdict : Verdict)
    (after : Blackboard) (o : Outcome)
    → vote_turn refusal t agent verdict ≡ (after, ok o)
    → record_verdict refusal t agent verdict
      ≡ (voted_turn t agent verdict after o, ok (step_of o.status))
unfolding record_verdict
record_verdict-accepted refusal t agent verdict after o h = ap (settle_vote t agent verdict) h

-- A decided claim takes no vote.
open-closing :
    (finished : Bool) (standing : QuorumStatus)
    → (finished ≡ false) ⊎ (standing ≡ reached)
    → is_open standing ≡ true
    → finished ≡ false
open-closing finished standing (inl h) o = h
open-closing finished standing (inr h) o = ground (arith, h, o)

pub record_verdict-IsTurn :
    (refusal : Option BlackboardError) (t : Turn) (agent : ℕ) (verdict : Verdict) (answer : Bytes)
    → IsTurn t
    → t.answer ≡ some answer
    → IsTurn (record_verdict refusal t agent verdict).0
record_verdict-IsTurn refusal t agent verdict answer it given =
    elim (vote_turn-Voted refusal t agent verdict it) [
      | inl (e, refused) ↦ rw (record_verdict-refused refusal t agent verdict e refused) it
      | inr (after, o, next, done, found, same, kept, still) ↦
          let steps = Progress-open it.state.status t.steps_seen it.progress still in
          rw (record_verdict-accepted refusal t agent verdict after o done) (record {
            sound =
                subst IsSound (ap (λ r. r.0) done)
                  (vote_turn-IsSound refusal t agent verdict it.sound);
            state = next;
            found = found;
            counted = omega (arith, it.counted, length-append t.steps_seen (step_of o.status ∷ []));
            answered = elim it.answered [
              | inl (missing, _) ↦ absurd (ground (arith, missing, given))
              | inr there ↦ inr there
            ];
            progress =
                subst (λ s. Progress s (t.steps_seen ++ step_of o.status ∷ [])) same
                  (Progress-vote o.status t.steps_seen steps);
            closing = inl (open-closing t.finished it.state.status it.closing still);
          })
    ]
