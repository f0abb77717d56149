-- ===== src/Turn/Refusals.antt =====
-- The calls that a turn refuses: crates/supra_core/src/turn.rs.
use mathlib.Core.Option.{none-ne-some, some-injective}
use supra_harness.Prelude.{
  ℕ, ◌≡◌, ◌⊎◌, inl, inr, refl, sym, ◌∙◌, ap, true, Option, none, some, List, [], ◌∷◌, length,
  length-append, Result, ok, err, arith,
}
use supra_harness.Canonical.{Bytes}
use supra_harness.Prompt.Ledger.{PromptLedger}
use supra_harness.Cohort.Verdict.{Verdict}
use supra_harness.Cohort.Tally.{QuorumStatus, reached}
use supra_harness.Board.Tables.{BlackboardError}
use supra_harness.Turn.{step_of, take_answer, record_answer, finish}
use supra_harness.Turn.State.{Turn, Step, PeerAnswer, TurnError}
use supra_harness.Turn.Calls.{
  Call, recorded, finishing, bus_shared, call, error_of, ledger_before, ledger_after,
}
use supra_harness.Turn.Progress.{
  IsTurn, Progress, vote_turn-Voted, record_verdict-refused, record_verdict-accepted,
}
use supra_harness.Turn.Invariant.{submit-Submitted}
use supra_harness.Turn.Closing.{finish-Finished}

decided_counted :
    (standing : QuorumStatus) (steps : List Step)
    → standing ≡ reached
    → steps ≡ []
    → ¬ Progress standing steps
decided_counted standing steps decided empty = λ progress. elim progress [
  | inl (still, _) ↦ ground (arith, still, decided)
  | inr (earlier, all_steps, _, _) ↦
      ground
        (arith, length-append earlier (step_of standing ∷ []), ap length all_steps, ap length empty)
]

-- A claim that is decided takes no vote, and an answer that is there is not replaced.
finished_closed :
    (t : Turn) (it : IsTurn t)
    → t.finished ≡ true
    → (it.state.status ≡ reached) × ((answer : Bytes) × (t.answer ≡ some answer))
finished_closed t it ended = elim it.closing [
  | inl open_yet ↦ absurd (ground (arith, open_yet, ended))
  | inr decided ↦ (
    decided,
    elim it.answered [
      | inr (answer, given, _) ↦ (answer, given)
      | inl (_, none_counted) ↦
          absurd (decided_counted it.state.status t.steps_seen decided none_counted it.progress)
    ],
  )
]

take_answer-final :
    (refusal : Option BlackboardError) (t : Turn) (agent : ℕ) (body : Option Bytes)
    (verdict : Option Verdict) (earlier : Option Bytes) (given : Bytes) (it : IsTurn t)
    → it.state.status ≡ reached
    → earlier ≡ some given
    → (e : TurnError) × (take_answer refusal t agent body verdict earlier ≡ (t, err e))
take_answer-final refusal t agent (some body) verdict earlier given it decided e =
    elim (submit-Submitted t agent body verdict earlier) [
      | inl refused ↦ refused
      | inr (_, missing, _, _) ↦ absurd (none-ne-some given (sym missing ∙ e))
    ]
take_answer-final refusal t agent none verdict none given it decided e =
    absurd (none-ne-some given e)
take_answer-final refusal t agent none none (some earlier) given it decided e = (_, refl)
take_answer-final refusal t agent none (some verdict) (some earlier) given it decided e =
    elim (vote_turn-Voted refusal t agent verdict it) [
      | inl (failure, refused) ↦ (_, record_verdict-refused refusal t agent verdict failure refused)
      | inr (_, _, _, _, _, _, _, still) ↦ absurd (ground (arith, still, decided))
    ]

pub record_answer-final :
    (refusal : Option BlackboardError) (t : Turn) (answer : PeerAnswer) (it : IsTurn t)
    → t.finished ≡ true
    → (e : TurnError) × (record_answer refusal t answer ≡ (t, err e))
unfolding record_answer
record_answer-final refusal t answer it ended =
    let (decided, (given, e)) = finished_closed t it ended in
    take_answer-final refusal t answer.agent answer.text answer.verdict t.answer given it decided e

-- A call succeeds or changes nothing.
abbrev Kept : Turn → Turn × Result TurnError Step → Type 0
Kept t r = ((s : Step) × (r.1 ≡ ok s)) ⊎ (r.0 ≡ t)

take_answer-Kept :
    (refusal : Option BlackboardError) (t : Turn) (agent : ℕ) (body : Option Bytes)
    (verdict : Option Verdict) (earlier : Option Bytes) (it : IsTurn t)
    → Kept t (take_answer refusal t agent body verdict earlier)
take_answer-Kept refusal t agent (some body) verdict earlier it =
    elim (submit-Submitted t agent body verdict earlier) [
      | inl (e, refused) ↦ inr (ap (λ r. r.0) refused)
      | inr (done, _, _, _) ↦ inl (_, ap (λ r. r.1) done)
    ]
take_answer-Kept refusal t agent none verdict none it = inr refl
take_answer-Kept refusal t agent none none (some earlier) it = inr refl
take_answer-Kept refusal t agent none (some verdict) (some earlier) it =
    elim (vote_turn-Voted refusal t agent verdict it) [
      | inl (e, refused) ↦
          inr (ap (λ r. r.0) (record_verdict-refused refusal t agent verdict e refused))
      | inr (after, o, _, done, _, _, _, _) ↦
          inl (_, ap (λ r. r.1) (record_verdict-accepted refusal t agent verdict after o done))
    ]

Kept-err :
    (t : Turn) (r : Turn × Result TurnError Step) (next : Turn) (e : TurnError)
    → Kept t r
    → r ≡ (next, err e)
    → next ≡ t
Kept-err t r next e (inl (s, fine)) h = absurd (ground (arith, fine, h))
Kept-err t r next e (inr same) h = sym (ap (λ x. x.0) h) ∙ same

record_answer-kept :
    (refusal : Option BlackboardError) (t : Turn) (answer : PeerAnswer) (it : IsTurn t)
    (next : Turn) (e : TurnError)
    → record_answer refusal t answer ≡ (next, err e)
    → next ≡ t
unfolding record_answer
record_answer-kept refusal t answer it next e h =
    Kept-err t (record_answer refusal t answer) next e
      (take_answer-Kept refusal t answer.agent answer.text answer.verdict t.answer it) h

error_of-err :
    {A : Type 0} (r : Result TurnError A) (e : TurnError) → error_of r ≡ some e → r ≡ err e
error_of-err (ok a) e h = absurd (none-ne-some e h)
error_of-err (err f) e h = ap (λ x. err x) (some-injective f e h)

module _ (digest : Bytes → Bytes) where
  finish-kept :
      (segment_id : ℕ) (t : Turn) (ledger : PromptLedger) (closed : Turn) (after : PromptLedger)
      (f : TurnError)
      → finish digest segment_id t ledger ≡ ((closed, after), err f)
      → (closed ≡ t) × (after ≡ ledger)
  finish-kept segment_id t ledger closed after f h =
      elim (finish-Finished digest segment_id t ledger) [
        | inl (e, refused) ↦ (
          sym (ap (λ r. r.0.0) h) ∙ ap (λ r. r.0.0) refused,
          sym (ap (λ r. r.0.1) h) ∙ ap (λ r. r.0.1) refused,
        )
        | inr (_, _, _, _, _, _, _, _, done) ↦ absurd (ground (arith, done, h))
      ]

  pub call-kept :
      (c : Call) (t : Turn) (it : IsTurn t) (e : TurnError)
      → (call digest c t).1 ≡ some e
      → ((call digest c t).0 ≡ t) × (ledger_after digest c t ≡ ledger_before c)
  unfolding call
  call-kept (recorded refusal answer) t it e h = (
    record_answer-kept refusal t answer it (record_answer refusal t answer).0 e (
        ap (λ r. ((record_answer refusal t answer).0, r))
          (error_of-err (record_answer refusal t answer).1 e h)),
    refl,
  )
  call-kept (finishing segment_id ledger) t it e h =
      let (next, r) = finish digest segment_id t ledger in
      let kept =
        finish-kept segment_id t ledger next.0 next.1 e
          (ap (λ x. (next, x)) (error_of-err r e h)) in
      (kept.0, ap some kept.1)
  call-kept (bus_shared bus) t it e h = absurd (none-ne-some e h)
