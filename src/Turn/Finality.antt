-- ===== src/Turn/Finality.antt =====
-- How a turn ends: crates/supra_core/src/turn.rs.
use Prim.Native.String.{String}
use mathlib.Core.Option.{some-injective}
use supra_harness.Prelude.{
  ℕ, ◌+◌, ◌≤◌, ◌<◌, ◌≡◌, ◌⊎◌, inl, inr, sym, ◌∙◌, ap, subst, Bool-cases, true, Option, none, some,
  List, [], ◌∷◌, ◌++◌, length, ok, err, arith,
}
use supra_harness.Prelude.OrdMap.{get, Holds}
use supra_harness.Canonical.{Bytes}
use supra_harness.Prompt.Ledger.{PromptLedger, append, mem, ids}
use supra_harness.Prompt.Sealed.{seal}
use supra_harness.Segment.{Segment}
use supra_harness.Cohort.Quorum.{quorum}
use supra_harness.Cohort.Tally.{reached}
use supra_harness.Board.Tables.{BlackboardError}
use supra_harness.Board.{ClaimState}
use supra_harness.Board.Casting.{IsBallot}
use supra_harness.Board.Assent.{assenting, AllDifferent}
use supra_harness.Board.Soundness.{IsSound, IsBallot-assenting}
use supra_harness.Turn.Authorship.{ProposedIn, call_all-ProposedIn}
use supra_harness.Bus.{Bus}
use supra_harness.Bus.Events.{Event}
use supra_harness.Turn.{record_answer, finish, start_shared}
use supra_harness.Turn.State.{Turn, PeerAnswer, TurnError}
use supra_harness.Turn.Calls.{Call, call, call_all, ledger_before, ledger_after}
use supra_harness.Turn.Progress.{IsTurn, Progress}
use supra_harness.Turn.Closing.{finish-Finished, answer_segment, call_all-IsTurn, status-IsTurn}
use supra_harness.Turn.Opening.{started}
use supra_harness.Board.Commands.{Command, run, new_board}
use supra_harness.Board.Soundness.{run-IsSound, new_board-IsSound}
use supra_harness.Turn.Refusals.{record_answer-final, call-kept}

abbrev pub extended : (Bytes → Bytes) → PromptLedger → Segment → PromptLedger
extended digest ledger segment = record ledger {
  entries = ledger.entries ++ seal digest ledger.next_seq segment ∷ [];
  next_seq = ledger.next_seq + 1;
}

append-ok :
    (digest : Bytes → Bytes) (l : PromptLedger) (s : Segment) (next : PromptLedger) (seq : ℕ)
    → append digest l s ≡ (next, ok seq)
    → next ≡ extended digest l s
unfolding append
append-ok digest l s next seq h = elim (Bool-cases (mem s.id (ids l.entries))) [
  | inl old ↦ absurd (ground (arith, old, h))
  | inr fresh ↦ sym (ap (λ r. r.0) (rw fresh at h))
]

-- A turn that was opened on a board after any history, and then called in any way.
module _ (digest : Bytes → Bytes) (history : List (Option BlackboardError × Command))
    (refusal : Option BlackboardError) (turn_id claim_id : ℕ) (bus : Bus Event) (task : String)
    (agents : List ℕ) (t : Turn)
    (opened : start_shared refusal turn_id claim_id (run history new_board) bus task agents ≡ ok t)
    (cs : List Call) where
  opened-Fresh : IsTurn t × (t.answer ≡ none) × (t.session ≡ agents)
  opened-Fresh =
      started refusal turn_id claim_id (run history new_board) bus task agents t
        (run-IsSound history new_board new_board-IsSound) opened

  reached-IsTurn : IsTurn (call_all digest cs t)
  reached-IsTurn = call_all-IsTurn digest cs t opened-Fresh.0

  answer_proposed :
      (answer : Bytes) → (call_all digest cs t).answer ≡ some answer → ProposedIn agents answer cs
  answer_proposed answer given =
      let (it, none_yet, members) = opened-Fresh in
      subst (λ l. ProposedIn l answer cs) members
        (call_all-ProposedIn digest cs t answer it none_yet given)

  -- A turn that was opened on a board of any history, and on which any calls were made, is closed only
  -- when different agents, a quorum of its cohort, assent to its claim: validators whose slot holds a
  -- yes and, for an ordinary claim, the proposer, whose publication the code counts as a yes. The
  -- answer is not empty, and one of the calls proposed it on behalf of the turn's first agent. The
  -- turn is then finished, and the ledger is the old one with this answer sealed at its end, as the
  -- assistant's segment of this turn, under the next sequence number.
  pub turn_by_quorum :
      (segment_id sealed_id : ℕ) (ledger : PromptLedger)
      → (finish digest segment_id (call_all digest cs t) ledger).1 ≡ ok sealed_id
      → (state : ClaimState) × (answer : Bytes) × (get
            (call_all digest cs t).claim
            (call_all digest cs t).blackboard.claims
          ≡ some state)
        × (quorum state.k ≤ length (assenting state))
        × AllDifferent (assenting state)
        × ProposedIn agents answer cs
        × (0 < length answer)
        × ((finish digest segment_id (call_all digest cs t) ledger).0.0.finished ≡ true)
        × ((finish digest segment_id (call_all digest cs t) ledger).0.1
            ≡ extended digest ledger (answer_segment segment_id (call_all digest cs t) answer))
  turn_by_quorum segment_id sealed_id ledger done =
      let it = reached-IsTurn in
      let ballot : IsBallot it.state =
        unfold IsSound Holds in (it.sound (call_all digest cs t).claim it.state it.found) in
      elim (finish-Finished digest segment_id (call_all digest cs t) ledger) [
        | inl (e, refused) ↦ absurd (ground (arith, refused, done))
        | inr (answer, next, seq, open_yet, standing, given, full, appended, closed) ↦
            let (carried, different, _) =
              IsBallot-assenting it.state ballot
                (status-IsTurn digest (call_all digest cs t) it reached standing) in
            (
              it.state,
              answer,
              it.found,
              carried,
              different,
              answer_proposed answer given,
              full,
              ap (λ r. r.0.0.finished) closed,
              ap (λ r. r.0.1) closed
                  ∙ append-ok digest ledger
                      (answer_segment segment_id (call_all digest cs t) answer) next seq appended,
            )
      ]

  -- The votes that are counted have a step each. While the claim is open every step was a plain one; once
  -- it is decided the last step says how, and every earlier one was plain, so that the cohort is told to
  -- stop once at most. No vote is counted before there is an answer.
  pub steps-Progress :
      (state : ClaimState)
      → get (call_all digest cs t).claim (call_all digest cs t).blackboard.claims ≡ some state
      → ((call_all digest cs t).votes_seen ≡ length (call_all digest cs t).steps_seen)
        × Progress state.status (call_all digest cs t).steps_seen
        × ((((call_all digest cs t).answer ≡ none) × ((call_all digest cs t).steps_seen ≡ []))
            ⊎ ((answer : Bytes) × ((call_all digest cs t).answer ≡ some answer)
                × (0 < length answer)))
  steps-Progress state found =
      let it = reached-IsTurn in
      let same : it.state ≡ state = some-injective it.state state (sym it.found ∙ found) in
      (
        it.counted,
        subst (λ s. Progress s (call_all digest cs t).steps_seen) (ap (λ x. x.status) same)
            it.progress,
        it.answered,
      )

  -- A turn that is finished is final: every later answer, vote and attempt to finish is refused, and
  -- leaves the turn and the ledger as they are.
  pub finished_final :
      (call_all digest cs t).finished ≡ true
      → (later : Option BlackboardError) (answer : PeerAnswer) (segment_id : ℕ)
        (ledger : PromptLedger)
      → ((e : TurnError) × (record_answer later (call_all digest cs t) answer
            ≡ (call_all digest cs t, err e)))
        × ((e : TurnError) × (finish digest segment_id (call_all digest cs t) ledger
              ≡ ((call_all digest cs t, ledger), err e)))
  finished_final ended later answer segment_id ledger =
      let it = reached-IsTurn in
      (
        record_answer-final later (call_all digest cs t) answer it ended,
        elim (finish-Finished digest segment_id (call_all digest cs t) ledger) [
          | inl refused ↦ refused
          | inr (_, _, _, open_yet, _, _, _, _, _) ↦ absurd (ground (arith, open_yet, ended))
        ],
      )

  -- A call that fails, be it an answer, a vote or an attempt to finish, leaves the turn as it was, the
  -- board behind it included; an attempt to finish that fails leaves the ledger as it was too.
  pub turn_refused_unchanged :
      (c : Call) (e : TurnError)
      → (call digest c (call_all digest cs t)).1 ≡ some e
      → ((call digest c (call_all digest cs t)).0 ≡ call_all digest cs t)
        × (ledger_after digest c (call_all digest cs t) ≡ ledger_before c)
  turn_refused_unchanged c e failed =
      call-kept digest c (call_all digest cs t) reached-IsTurn e failed
