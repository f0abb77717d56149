-- ===== src/Turn/Invariant.antt =====
-- The calls of a turn keep its invariant: crates/supra_core/src/turn.rs.
use supra_harness.Prelude.{
  ℕ, ◌<◌, ◌≡◌, ◌⊎◌, inl, inr, refl, subst, not, true, Option, none, some, length, Result, ok, err,
  if-elim, ◌==◌, arith,
}
use supra_harness.Canonical.{Bytes}
use supra_harness.Cohort.Verdict.{Verdict}
use supra_harness.Board.Tables.{BlackboardError}
use supra_harness.Turn.{is_proposer, submit, take_answer, record_answer}
use supra_harness.Turn.State.{Turn, Step, PeerAnswer, collecting, TurnError}
use supra_harness.Turn.Progress.{IsTurn, record_verdict-IsTurn}

-- A proposal is refused and changes nothing, or it is the proposer's first answer and not empty.
abbrev pub Submitted : Turn → ℕ → Bytes → Option Bytes → Turn × Result TurnError Step → Type 0
Submitted t agent body earlier r =
    ((e : TurnError) × (r ≡ (t, err e)))
    ⊎ ((r ≡ (record t { answer = some body }, ok collecting))
        × (earlier ≡ none)
        × (0 < length body)
        × (is_proposer agent t.session ≡ true))

pub submit-Submitted :
    (t : Turn) (agent : ℕ) (body : Bytes) (verdict : Option Verdict) (earlier : Option Bytes)
    → Submitted t agent body earlier (submit t agent body verdict earlier)
submit-Submitted t agent body (some verdict) earlier = inl (_, refl)
submit-Submitted t agent body none (some first) =
    let P = Submitted t agent body (some first) in
    if-elim P (not (is_proposer agent t.session)) (λ _. inl (_, refl))
      (λ _. if-elim P (length body == 0) (λ _. inl (_, refl)) (λ _. inl (_, refl)))
submit-Submitted t agent body none none =
    let P = Submitted t agent body none in
    if-elim P (not (is_proposer agent t.session)) (λ _. inl (_, refl))
      (λ own.
        if-elim P (length body == 0) (λ _. inl (_, refl))
          (λ full. inr (refl, refl, ground (arith, full), ground (arith, own))))

submit-IsTurn :
    (t : Turn) (agent : ℕ) (body : Bytes) (verdict : Option Verdict)
    → IsTurn t
    → IsTurn (submit t agent body verdict t.answer).0
submit-IsTurn t agent body verdict it = elim (submit-Submitted t agent body verdict t.answer) [
  | inl (e, refused) ↦ rw refused it
  | inr (done, first, full, own) ↦ rw done (record {
    sound = it.sound;
    state = it.state;
    found = it.found;
    counted = it.counted;
    answered = inr (body, refl, full);
    progress = it.progress;
    closing = it.closing;
  })
]

take_answer-IsTurn :
    (refusal : Option BlackboardError) (t : Turn) (agent : ℕ) (body : Option Bytes)
    (verdict : Option Verdict) (earlier : Option Bytes)
    → t.answer ≡ earlier
    → IsTurn t
    → IsTurn (take_answer refusal t agent body verdict earlier).0
take_answer-IsTurn refusal t agent (some body) verdict earlier e it =
    subst (λ a. IsTurn (submit t agent body verdict a).0) e (submit-IsTurn t agent body verdict it)
take_answer-IsTurn refusal t agent none verdict none e it = it
take_answer-IsTurn refusal t agent none none (some earlier) e it = it
take_answer-IsTurn refusal t agent none (some verdict) (some earlier) e it =
    record_verdict-IsTurn refusal t agent verdict earlier it e

pub record_answer-IsTurn :
    (refusal : Option BlackboardError) (t : Turn) (answer : PeerAnswer)
    → IsTurn t
    → IsTurn (record_answer refusal t answer).0
unfolding record_answer
record_answer-IsTurn refusal t answer it =
    take_answer-IsTurn refusal t answer.agent answer.text answer.verdict t.answer refl it
