-- ===== src/Turn/Authorship.antt =====
-- Whose answer a turn holds: crates/supra_core/src/turn.rs.
use mathlib.Core.Option.{none-ne-some, some-injective}
use supra_harness.Prelude.{
  ℕ, ◌≡◌, ◌⊎◌, inl, inr, refl, sym, ◌∙◌, ap, subst, true, Option, none, some, List, [], ◌∷◌, ◌++◌,
}
use supra_harness.Canonical.{Bytes}
use supra_harness.Cohort.Verdict.{Verdict}
use supra_harness.Board.Tables.{BlackboardError}
use supra_harness.Turn.{is_proposer, take_answer, record_answer}
use supra_harness.Turn.State.{Turn, proposal}
use supra_harness.Turn.Calls.{Call, recorded, finishing, bus_shared, call, call_all}
use supra_harness.Turn.Progress.{
  IsTurn, vote_turn-Voted, record_verdict-refused, record_verdict-accepted,
}
use supra_harness.Turn.Invariant.{submit-Submitted}
use supra_harness.Turn.Closing.{finish-Finished, call-IsTurn}

-- One of the calls is the first agent's proposal of this answer.
abbrev pub ProposedIn : List ℕ → Bytes → List Call → Type 0
ProposedIn agents answer cs =
    (earlier : List Call) × (later : List Call) × (refusal : Option BlackboardError) × (agent : ℕ)
    × (is_proposer agent agents ≡ true)
    × (cs ≡ earlier ++ recorded refusal (proposal agent answer) ∷ later)

-- A call keeps the members of the turn, and its answer unless it is the proposer's proposal.
abbrev Authored : Call → Turn → Turn → Type 0
Authored c t next =
    (next.session ≡ t.session)
    × ((next.answer ≡ t.answer)
        ⊎ ((answer : Bytes) × (refusal : Option BlackboardError) × (agent : ℕ) × (c
              ≡ recorded refusal (proposal agent answer))
            × (is_proposer agent t.session ≡ true)
            × (next.answer ≡ some answer)))

take_answer-Authored :
    (refusal : Option BlackboardError) (t : Turn) (agent : ℕ) (body : Option Bytes)
    (verdict : Option Verdict) (earlier : Option Bytes)
    → IsTurn t
    → Authored
        (recorded refusal (record { agent = agent; text = body; verdict = verdict }))
        t
        (take_answer refusal t agent body verdict earlier).0
unfolding proposal
take_answer-Authored refusal t agent (some body) (some verdict) earlier it = (refl, inl refl)
take_answer-Authored refusal t agent (some body) none earlier it =
    elim (submit-Submitted t agent body none earlier) [
      | inl (e, refused) ↦ (ap (λ r. r.0.session) refused, inl (ap (λ r. r.0.answer) refused))
      | inr (done, _, _, own) ↦ (
        ap (λ r. r.0.session) done,
        inr (body, refusal, agent, refl, own, ap (λ r. r.0.answer) done),
      )
    ]
take_answer-Authored refusal t agent none verdict none it = (refl, inl refl)
take_answer-Authored refusal t agent none none (some earlier) it = (refl, inl refl)
take_answer-Authored refusal t agent none (some verdict) (some earlier) it =
    elim (vote_turn-Voted refusal t agent verdict it) [
      | inl (e, refused) ↦
          let kept = record_verdict-refused refusal t agent verdict e refused in
          (ap (λ r. r.0.session) kept, inl (ap (λ r. r.0.answer) kept))
      | inr (after, o, _, done, _, _, _, _) ↦
          let made = record_verdict-accepted refusal t agent verdict after o done in
          (ap (λ r. r.0.session) made, inl (ap (λ r. r.0.answer) made))
    ]

module _ (digest : Bytes → Bytes) where
  call-Authored : (c : Call) (t : Turn) → IsTurn t → Authored c t (call digest c t).0
  unfolding call record_answer
  call-Authored (recorded refusal answer) t it =
      take_answer-Authored refusal t answer.agent answer.text answer.verdict t.answer it
  call-Authored (finishing segment_id ledger) t it =
      elim (finish-Finished digest segment_id t ledger) [
        | inl (e, refused) ↦ (ap (λ r. r.0.0.session) refused, inl (ap (λ r. r.0.0.answer) refused))
        | inr (_, _, _, _, _, _, _, _, done) ↦
            (ap (λ r. r.0.0.session) done, inl (ap (λ r. r.0.0.answer) done))
      ]
  call-Authored (bus_shared bus) t it = (refl, inl refl)

  later_call :
      (c : Call) (agents : List ℕ) (answer : Bytes) (cs : List Call)
      → ProposedIn agents answer cs
      → ProposedIn agents answer (c ∷ cs)
  later_call c agents answer cs (earlier, later, refusal, agent, own, same) =
      (c ∷ earlier, later, refusal, agent, own, ap (λ l. c ∷ l) same)

  -- An answer that is there was there before the calls, or is the proposal of one of them.
  call_all-Authored :
      (cs : List Call) (t : Turn) (answer : Bytes)
      → IsTurn t
      → (call_all digest cs t).answer ≡ some answer
      → (t.answer ≡ some answer) ⊎ ProposedIn t.session answer cs
  unfolding call_all
  call_all-Authored [] t answer it given = inl given
  call_all-Authored (c ∷ cs) t answer it given =
      let next = (call digest c t).0 in
      let (members, made) = call-Authored c t it in
      elim (call_all-Authored cs next answer (call-IsTurn digest c t it) given) [
        | inr later ↦ inr (
            later_call c t.session answer cs
              (subst (λ agents. ProposedIn agents answer cs) members later))
        | inl there ↦ elim made [
          | inl kept ↦ inl (sym kept ∙ there)
          | inr (body, refusal, agent, same, own, now) ↦
              let it_is : body ≡ answer = some-injective body answer (sym now ∙ there) in
              inr (
                [],
                cs,
                refusal,
                agent,
                own,
                ap (λ x. x ∷ cs) (same ∙ ap (λ b. recorded refusal (proposal agent b)) it_is),
              )
        ]
      ]

  pub call_all-ProposedIn :
      (cs : List Call) (t : Turn) (answer : Bytes)
      → IsTurn t
      → t.answer ≡ none
      → (call_all digest cs t).answer ≡ some answer
      → ProposedIn t.session answer cs
  call_all-ProposedIn cs t answer it none_yet given =
      elim (call_all-Authored cs t answer it given) [
        | inl there ↦ absurd (none-ne-some answer (sym none_yet ∙ there))
        | inr proposed ↦ proposed
      ]
