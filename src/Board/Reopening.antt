-- ===== src/Board/Reopening.antt =====
-- `Blackboard::open` after any history: crates/supra_blackboard/src/board.rs.
use mathlib.Core.List.{append-nil, append_assoc}
use supra_harness.Prelude.{ℕ, ◌≡◌, refl, sym, ◌∙◌, ap, Option, List, [], ◌∷◌, ◌++◌, ok, arith}
use supra_harness.Prelude.OrdMap.{OrdMap, get, insert, IsSorted, Above, get-Above, Holds}
use supra_harness.Board.Tables.{BlackboardError, Database, StoredClaim}
use supra_harness.Board.{ClaimState}
use supra_harness.Board.Casting.{IsBallot}
use supra_harness.Board.Commands.{Command, run, new_board}
use supra_harness.Board.Opening.{restore_all, open_board}
use supra_harness.Board.Replaying.{Follows, Follows-tail, Follows-start, insert_last}
use supra_harness.Board.Restoring.{settle, restore_claim-IsStored}
use supra_harness.Board.Mirroring.{Mirrors}
use supra_harness.Board.Soundness.{IsSound, new_board-IsSound}
use supra_harness.Board.Durability.{run-IsMirrored}

abbrev pub settle_all : OrdMap ClaimState → OrdMap ClaimState
settle_all [] = []
settle_all ((k, state) ∷ m) = (k, settle state) ∷ settle_all m

Holds-tail :
    (k : ℕ) (q : ClaimState) (m : OrdMap ClaimState)
    → Above k m
    → Holds IsBallot ((k, q) ∷ m)
    → IsBallot q × Holds IsBallot m
unfolding Holds get
Holds-tail k q m a h =
    (h k q (ground arith), λ j v found. h j v (ground (arith, found, get-Above k j m a)))

restore_all-Mirrors :
    (p : OrdMap ClaimState) (rows : Database) (states : OrdMap ClaimState)
    → Follows p states
    → Mirrors rows states
    → Holds IsBallot states
    → restore_all rows p ≡ ok (p ++ settle_all states)
unfolding restore_all
restore_all-Mirrors p [] [] f m h = ap ok (sym (append-nil p))
restore_all-Mirrors p [] ((j, q) ∷ states) f m h = absurd m
restore_all-Mirrors p ((i, row) ∷ rows) [] f m h = absurd m
restore_all-Mirrors p ((i, row) ∷ rows) ((j, q) ∷ states) f (e, s, rest) h =
    let (ballot, others) = Holds-tail j q states f.1 h in
    let read : restore_all ((i, row) ∷ rows) p
        ≡ restore_all rows (insert row.stored.claim (settle q) p) =
      rw (restore_claim-IsStored i row q ballot s, restore_all) refl in
    let id = ap (λ (st : StoredClaim). st.claim) s.stored ∙ e in
    read
    ∙ ap (λ x. restore_all rows (insert x (settle q) p)) id
    ∙ ap (restore_all rows) (insert_last j p (settle q) f.0)
    ∙ restore_all-Mirrors (p ++ (j, settle q) ∷ []) rows states
        (Follows-tail p j q (settle q) states f) rest others
    ∙ ap ok (append_assoc p ((j, settle q) ∷ []) (settle_all states))

pub new_board-mirrored : Mirrors new_board.store new_board.claims × IsSorted new_board.claims
unfolding new_board
new_board-mirrored = (tt, tt)

-- Nothing is lost by closing: after any calls, refused or not, opening the tables again succeeds and
-- gives back every claim in memory with its cohort, its slots and its tally, and with its status, unless
-- the claim was still open: then with the status of its tally.
pub reopened :
    (commands : List (Option BlackboardError × Command))
    → open_board (run commands new_board).store ≡ ok (settle_all (run commands new_board).claims)
unfolding open_board
reopened commands =
    let b = run commands new_board in
    let (sound, (mirrored, sorted)) =
      run-IsMirrored commands new_board (new_board-IsSound, new_board-mirrored) in
    restore_all-Mirrors [] b.store b.claims (Follows-start ClaimState b.claims sorted) mirrored
      (unfold IsSound in sound)
