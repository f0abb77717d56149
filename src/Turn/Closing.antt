-- ===== src/Turn/Closing.antt =====
-- How a turn is closed, `finish` of crates/supra_core/src/turn.rs.
use supra_harness.Prelude.{
  ℕ, ◌<◌, ◌≡◌, ◌⊎◌, inl, inr, refl, sym, ap, subst, Bool, true, false, Option, none, some, List, [],
  ◌∷◌, length, Result, ok, err, if-elim, ◌==◌, arith,
}
use supra_harness.Canonical.{Bytes}
use supra_harness.Segment.{Segment, turn_of, assistant, text}
use supra_harness.Prompt.Ledger.{PromptLedger, append, prefix_hash, ids, mem}
use supra_harness.Prompt.Error.{PromptError}
use supra_harness.Segment
use supra_harness.Cohort.Tally.{QuorumStatus, still_open, reached, unreachable}
use supra_harness.Board.{outcome}
use supra_harness.Bus.Events.{turn_completed, segment_sealed}
use supra_harness.Turn.{seal_answer, close_turn, seal_segment, record_seal, finish, status}
use supra_harness.Turn.State.{Turn, TurnError, announce}
use supra_harness.Turn.Calls.{Call, recorded, finishing, bus_shared, call, call_all}
use supra_harness.Turn.Progress.{IsTurn}
use supra_harness.Turn.Invariant.{record_answer-IsTurn}

-- The segment of the answer.
abbrev pub answer_segment : ℕ → Turn → Bytes → Segment
answer_segment segment_id t answer = record {
  id = segment_id;
  kind = turn_of t.id assistant;
  blocks = text answer ∷ [];
}

-- What a turn needs to be closed, and what `finish` then does; otherwise it refuses and changes nothing.
answer_segment-new :
    (segment_id : ℕ) (t : Turn) (answer : Bytes)
    → Segment.new segment_id (turn_of t.id assistant) (text answer ∷ [])
      ≡ ok (record { id = segment_id; kind = turn_of t.id assistant; blocks = text answer ∷ [] })
unfolding Segment.new Segment.first_interleaving Segment.interleaving_from Segment.is_tool_traffic
answer_segment-new segment_id t answer = refl

module _ (digest : Bytes → Bytes) where
  -- The turn after its answer is sealed.
  abbrev pub sealed_turn : Turn → ℕ → PromptLedger → Turn
  sealed_turn t seq next = record t {
    bus =
        announce (turn_completed t.id)
          (announce (segment_sealed seq (prefix_hash digest next)) t.bus);
    finished = true;
  }

  abbrev pub Finished :
      ℕ → Turn → PromptLedger → (Turn × PromptLedger) × Result TurnError ℕ → Type 0
  Finished segment_id t ledger r =
      ((e : TurnError) × (r ≡ ((t, ledger), err e)))
      ⊎ ((answer : Bytes) × (next : PromptLedger) × (seq : ℕ) × (t.finished ≡ false)
          × (status t ≡ some reached)
          × (t.answer ≡ some answer)
          × (0 < length answer)
          × (append digest ledger (answer_segment segment_id t answer) ≡ (next, ok seq))
          × (r ≡ ((sealed_turn t seq next, next), ok segment_id)))

  append-cases :
      (l : PromptLedger) (s : Segment)
      → ((e : PromptError) × (append digest l s ≡ (l, err e)))
        ⊎ ((next : PromptLedger) × (seq : ℕ) × (append digest l s ≡ (next, ok seq)))
  unfolding append
  append-cases l s =
      if-elim
        (λ (r : PromptLedger × Result PromptError ℕ).
          ((e : PromptError) × (r ≡ (l, err e)))
          ⊎ ((next : PromptLedger) × (seq : ℕ) × (r ≡ (next, ok seq))))
        (mem s.id (ids l.entries)) (λ _. inl (_, refl)) (λ _. inr (_, _, refl))

  close_turn-Finished :
      (segment_id : ℕ) (t : Turn) (ledger : PromptLedger) (finished : Bool)
      (standing : Option QuorumStatus) (answer : Option Bytes)
      → t.finished ≡ finished
      → status t ≡ standing
      → t.answer ≡ answer
      → Finished segment_id t ledger
          (close_turn digest segment_id t ledger finished standing answer)
  unfolding seal_answer
  close_turn-Finished segment_id t ledger true standing answer f s a = inl (_, refl)
  close_turn-Finished segment_id t ledger false none answer f s a = inl (_, refl)
  close_turn-Finished segment_id t ledger false (some still_open) answer f s a = inl (_, refl)
  close_turn-Finished segment_id t ledger false (some unreachable) answer f s a = inl (_, refl)
  close_turn-Finished segment_id t ledger false (some reached) none f s a = inl (_, refl)
  close_turn-Finished segment_id t ledger false (some reached) (some answer) f s a =
      let P = Finished segment_id t ledger in
      if-elim P (length answer == 0) (λ _. inl (_, refl))
        (λ full.
          subst (λ made. P (seal_segment digest segment_id t ledger made))
            (sym (answer_segment-new segment_id t answer))
            (elim (append-cases ledger (answer_segment segment_id t answer)) [
              | inl (e, refused) ↦ inl (_, ap (record_seal digest segment_id t) refused)
              | inr (next, seq, done) ↦ inr (
                answer,
                next,
                seq,
                f,
                s,
                a,
                ground (arith, full),
                done,
                ap (record_seal digest segment_id t) done,
              )
            ]))

  pub finish-Finished :
      (segment_id : ℕ) (t : Turn) (ledger : PromptLedger)
      → Finished segment_id t ledger (finish digest segment_id t ledger)
  unfolding finish
  finish-Finished segment_id t ledger =
      close_turn-Finished segment_id t ledger t.finished (status t) t.answer refl refl refl

  -- A turn is closed only once its claim is reached.
  pub status-IsTurn :
      (t : Turn) (it : IsTurn t) (standing : QuorumStatus)
      → status t ≡ some standing
      → it.state.status ≡ standing
  unfolding status outcome
  status-IsTurn t it standing h = ground (arith, h, it.found)

  pub finish-IsTurn :
      (segment_id : ℕ) (t : Turn) (ledger : PromptLedger)
      → IsTurn t
      → IsTurn (finish digest segment_id t ledger).0.0
  finish-IsTurn segment_id t ledger it = elim (finish-Finished segment_id t ledger) [
    | inl (e, refused) ↦ rw refused it
    | inr (answer, next, seq, open_yet, standing, given, full, appended, done) ↦ rw done (record {
      sound = it.sound;
      state = it.state;
      found = it.found;
      counted = it.counted;
      answered = it.answered;
      progress = it.progress;
      closing = inr (status-IsTurn t it reached standing);
    })
  ]

  pub call-IsTurn : (c : Call) (t : Turn) → IsTurn t → IsTurn (call digest c t).0
  unfolding call
  call-IsTurn (recorded refusal answer) t it = record_answer-IsTurn refusal t answer it
  call-IsTurn (finishing segment_id ledger) t it = finish-IsTurn segment_id t ledger it
  call-IsTurn (bus_shared bus) t it = record {
    sound = it.sound;
    state = it.state;
    found = it.found;
    counted = it.counted;
    answered = it.answered;
    progress = it.progress;
    closing = it.closing;
  }

  pub call_all-IsTurn : (cs : List Call) (t : Turn) → IsTurn t → IsTurn (call_all digest cs t)
  unfolding call_all
  call_all-IsTurn [] t it = it
  call_all-IsTurn (c ∷ cs) t it = call_all-IsTurn cs (call digest c t).0 (call-IsTurn c t it)
