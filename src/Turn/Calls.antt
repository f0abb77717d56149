-- ===== src/Turn/Calls.antt =====
-- The calls of a turn, crates/supra_core/src/turn.rs, between which other parts of the program use the
-- ledger and the shared bus.
use supra_harness.Prelude.{ℕ, Option, none, some, List, [], ◌∷◌, Result, ok, err}
use supra_harness.Canonical.{Bytes}
use supra_harness.Prompt.Ledger.{PromptLedger}
use supra_harness.Board.Tables.{BlackboardError}
use supra_harness.Bus.{Bus}
use supra_harness.Bus.Events.{Event}
use supra_harness.Turn.{record_answer, finish}
use supra_harness.Turn.State.{Turn, PeerAnswer, TurnError}

-- `finishing` carries the ledger as it is at the time of the call, `bus_shared` the bus as the other
-- publishers leave it.
pub data Call : Type 0 where
  recorded : Option BlackboardError → PeerAnswer → Call
  finishing : ℕ → PromptLedger → Call
  bus_shared : Bus Event → Call

abbrev pub error_of {ℓ} : {A : Type ℓ} → Result TurnError A → Option TurnError
error_of (ok a) = none
error_of (err e) = some e

-- The ledger that a call is given.
abbrev pub ledger_before : Call → Option PromptLedger
ledger_before (recorded refusal answer) = none
ledger_before (finishing segment_id ledger) = some ledger
ledger_before (bus_shared bus) = none

module _ (digest : Bytes → Bytes) where
  unfoldable pub call : Call → Turn → Turn × Option TurnError
  unfolding record_answer finish
  call (recorded refusal answer) t =
      let (next, r) = record_answer refusal t answer in (next, error_of r)
  call (finishing segment_id ledger) t =
      let (next, r) = finish digest segment_id t ledger in (next.0, error_of r)
  call (bus_shared bus) t = (record t { bus = bus }, none)

  -- The ledger that a call gives back.
  abbrev pub ledger_after : Call → Turn → Option PromptLedger
  ledger_after (recorded refusal answer) t = none
  ledger_after (finishing segment_id ledger) t = some (finish digest segment_id t ledger).0.1
  ledger_after (bus_shared bus) t = none

  unfoldable pub call_all : List Call → Turn → Turn
  unfolding call
  call_all [] t = t
  call_all (c ∷ cs) t = call_all cs (call c t).0
