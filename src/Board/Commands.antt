-- ===== src/Board/Commands.antt =====
-- The operations of `Blackboard` that change it, as commands, and a board after any sequence of them:
-- crates/supra_blackboard/src/board.rs.
use Prim.Native.String.{String}
use supra_harness.Prelude.{ℕ, Option, none, some, List, [], ◌∷◌, Result, ok, err}
use supra_harness.Cohort.Verdict.{Verdict}
use supra_harness.Board.Tables.{BlackboardError}
use supra_harness.Board.{Blackboard, publish, publish_blind, vote, vote_blind}

-- `published id …` stands for a call that generates this id.
pub data Command : Type 0 where
  published : ℕ → ℕ → ℕ → List ℕ → String → Command
  published_blind : ℕ → ℕ → ℕ → String → Command
  voted voted_blind : ℕ → ℕ → Verdict → Command

-- The call's error, if it fails.
abbrev pub failure {ℓ} : {A : Type ℓ} → Result BlackboardError A → Option BlackboardError
failure (ok a) = none
failure (err e) = some e

unfoldable pub step :
    Option BlackboardError → Command → Blackboard → Blackboard × Option BlackboardError
unfolding publish publish_blind vote vote_blind
step refusal (published id turn proposer validators body) b =
    let (after, r) = publish refusal id b turn proposer validators body in (after, failure r)
step refusal (published_blind id turn proposer body) b =
    let (after, r) = publish_blind refusal id b turn proposer body in (after, failure r)
step refusal (voted claim voter verdict) b =
    let (after, r) = vote refusal b claim voter verdict in (after, failure r)
step refusal (voted_blind claim voter verdict) b =
    let (after, r) = vote_blind refusal b claim voter verdict in (after, failure r)

-- Each command stands with the refusal of the engine, if there is one.
unfoldable pub run : List (Option BlackboardError × Command) → Blackboard → Blackboard
unfolding step
run [] b = b
run ((refusal, command) ∷ commands) b = run commands (step refusal command b).0

unfoldable pub new_board : Blackboard
new_board = record { store = []; claims = [] }
