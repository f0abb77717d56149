-- ===== src/Board/Opening.antt =====
-- `Blackboard::open` of crates/supra_blackboard/src/board.rs: the claims restored from the tables, in
-- the order of `read_all` of crates/supra_blackboard/src/schema.rs.
use Prim.Native.String.{String}
use text.Mathlib.Text.{◌==◌ as str_eq}
use supra_harness.Prelude.{
  ℕ, Bool, true, false, ◌&&◌, ◌||◌, Option, none, some, List, [], ◌∷◌, Result, ok, err, ◌==◌,
  if◌then◌else◌, max,
}
use supra_harness.Prelude.OrdMap.{OrdMap, get, insert}
use supra_harness.Cohort.Verdict.{Vote}
use supra_harness.Cohort.Tally.{
  QuorumTally, QuorumStatus, TallyError, still_open, reached, unreachable,
  record_vote as tally_vote, status as tally_status,
}
use supra_harness.Cohort.Tally
use supra_harness.Board.Tables.{BlackboardError, store_refused, StoredClaim, Database}
use supra_harness.Board.{ClaimState, ordinary_tally, empty_slots}

abbrev pub keys : {V : Type 0} → OrdMap V → List ℕ
keys [] = []
keys ((k, v) ∷ m) = k ∷ keys m

-- The slots, the tally, and whether a vote did not fit.
pub record Replay : Type 0 where
  pub slots : OrdMap (Option Vote)
  pub tally : QuorumTally
  pub inconsistent : Bool

abbrev is_refused : Result TallyError QuorumStatus → Bool
is_refused (ok status) = false
is_refused (err e) = true

-- The loop over the stored votes.
unfoldable pub replay : OrdMap Vote → Replay → Replay
replay [] r = r
replay ((voter, vote) ∷ votes) r = elim (get voter r.slots) [
  | some none ↦
      let (tally, counted) = tally_vote r.tally vote in
      replay votes (record {
        slots = insert voter (some vote) r.slots;
        tally = tally;
        inconsistent = r.inconsistent || is_refused counted;
      })
  | some (some earlier) ↦ replay votes (record r { inconsistent = true })
  | none ↦ replay votes (record r { inconsistent = true })
]

abbrev pub sole : ℕ → List ℕ → Bool
sole proposer (agent ∷ []) = agent == proposer
sole proposer [] = false
sole proposer (a ∷ b ∷ agents) = false

unfoldable pub opening_tally : ℕ → ℕ → List ℕ → QuorumTally
unfolding ordinary_tally
opening_tally k proposer agents =
    if k == 1 && sole proposer agents then Tally.new k else ordinary_tally k

unfoldable pub read_status : String → QuorumTally → Result BlackboardError QuorumStatus
read_status text tally =
    if str_eq text "open"
    then ok (tally_status tally)
    else if str_eq text "reached"
    then ok reached
    else if str_eq text "unreachable"
    then ok unreachable
    else err store_refused

-- The state that is restored after the votes were replayed.
unfoldable pub restored : StoredClaim → ℕ → Replay → Result BlackboardError ClaimState
unfolding read_status
restored stored k end =
    if end.inconsistent then err store_refused else elim (read_status stored.status end.tally) [
      | err e ↦ err e
      | ok status ↦ ok (record {
        turn = stored.turn;
        proposer = stored.proposer;
        body = stored.body;
        k = k;
        tally = end.tally;
        status = status;
        validators = end.slots;
      })
    ]

-- The body of the loop over the stored claims, for a claim with its validators and its votes.
unfoldable pub restore_claim :
    StoredClaim → List ℕ → OrdMap Vote → Result BlackboardError ClaimState
unfolding replay opening_tally empty_slots restored
restore_claim stored agents votes =
    let k = max stored.k 1 in
    restored stored k (
      replay votes (record {
        slots = empty_slots agents [];
        tally = opening_tally k stored.proposer agents;
        inconsistent = false;
      }))

unfoldable pub restore_all :
    Database → OrdMap ClaimState → Result BlackboardError (OrdMap ClaimState)
unfolding restore_claim
restore_all [] claims = ok claims
restore_all ((id, row) ∷ rows) claims =
    elim (restore_claim row.stored (keys row.roster) row.votes) [
      | err e ↦ err e
      | ok state ↦ restore_all rows (insert row.stored.claim state claims)
    ]

unfoldable pub open_board : Database → Result BlackboardError (OrdMap ClaimState)
unfolding restore_all
open_board tables = restore_all tables []
