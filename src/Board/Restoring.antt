-- ===== src/Board/Restoring.antt =====
-- One claim restored from its rows: the body of `Blackboard::open` in
-- crates/supra_blackboard/src/board.rs.
use supra_harness.Prelude.{
  ℕ, suc, ◌+◌, ◌≡◌, ◌⊎◌, inl, inr, refl, sym, ◌∙◌, ap, true, false, ◌&&◌, Option, [], ◌∷◌, length,
  ok, arith, ◌==◌, if◌then◌else◌, max, if-elim,
}
use supra_harness.Prelude.OrdMap.{OrdMap, get}
use supra_harness.Cohort.Quorum.{quorum}
use supra_harness.Cohort.Verdict.{Vote}
use supra_harness.Cohort.Tally.{
  QuorumTally, QuorumStatus, still_open, reached, unreachable, status as tally_status,
}
use supra_harness.Cohort.Tally
use supra_harness.Board.Tables.{StoredClaim, Row, has_key}
use supra_harness.Board.{ClaimState, is_open, status_text, empty_slots}
use supra_harness.Board.Casting.{IsBallot, implicit_yes, ordinary_tally_lem}
use supra_harness.Board.Opening.{
  keys, replay, sole, opening_tally, read_status, restored, restore_claim,
}
use supra_harness.Board.Replaying.{cast_of, from_slots, first_tally, replay-IsBallot}

-- A claim as a board that is opened again shows it: a claim that was left open has its tally's status.
unfoldable pub settle : ClaimState → ClaimState
settle state = record state {
  status = if is_open state.status then tally_status state.tally else state.status;
}

abbrev pub stored_of : ℕ → ClaimState → StoredClaim
stored_of id state = record {
  claim = id;
  turn = state.turn;
  proposer = state.proposer;
  body = state.body;
  k = state.k;
  status = status_text state.status;
}

-- The rows of a claim say what its state says; a validator who is the proposer is the only one.
pub record IsStored (id : ℕ) (row : Row) (state : ClaimState) : Type 0 where
  pub stored : row.stored ≡ stored_of id state
  pub roster : keys row.roster ≡ keys state.validators
  pub votes : row.votes ≡ cast_of state.validators
  pub proposed : (implicit_yes state ≡ 1) ⊎ (keys state.validators ≡ state.proposer ∷ [])

sole-has_key : (p : ℕ) (m : OrdMap (Option Vote)) → sole p (keys m) ≡ true → has_key p m ≡ true
unfolding get
sole-has_key p [] h = ground (arith, h)
sole-has_key p ((a, s) ∷ []) h = ground (arith, h)
sole-has_key p ((a, s) ∷ b ∷ m) h = ground (arith, h)

length-keys : {V : Type 0} (m : OrdMap V) → length (keys m) ≡ length m
length-keys [] = refl
length-keys ((k, v) ∷ m) = ap suc (length-keys m)

keys_one :
    (p : ℕ) (m : OrdMap (Option Vote))
    → keys m ≡ p ∷ []
    → (has_key p m ≡ true) × (sole p (keys m) ≡ true)
unfolding get
keys_one p [] h = ground (arith, h)
keys_one p ((a, s) ∷ []) h = ground (arith, h)
keys_one p ((a, s) ∷ b ∷ m) h = ground (arith, h)

implicit_yes-member :
    (state : ClaimState) → has_key state.proposer state.validators ≡ true → implicit_yes state ≡ 0
unfolding implicit_yes
implicit_yes-member state h = ap (λ b. if b then 0 else 1) h

-- The tally of a claim before any vote, by the implicit yes votes.
abbrev begun : ClaimState → ℕ → QuorumTally
begun state n = record {
  k = state.k;
  needed = quorum state.k;
  yes_votes = n;
  no_votes = 0;
  abstain_votes = 0;
}

not_alone :
    (id : ℕ) (row : Row) (state : ClaimState)
    → IsBallot state
    → IsStored id row state
    → (state.k == 1 && sole state.proposer (keys state.validators)) ≡ false
    → implicit_yes state ≡ 1
not_alone id row state b s other = elim s.proposed [
  | inl implicit ↦ implicit
  | inr alone ↦
      let (member, only) = keys_one state.proposer state.validators alone in
      let none_implicit = implicit_yes-member state member in
      let one : length (keys state.validators) ≡ 1 = ap length alone in
      let single : state.k ≡ 1 =
        omega (arith, b.sized, none_implicit, one, length-keys state.validators) in
      ground (arith, other, only, single)
]

opening_tally-first :
    (id : ℕ) (row : Row) (state : ClaimState)
    → IsBallot state
    → IsStored id row state
    → opening_tally state.k state.proposer (keys state.validators) ≡ first_tally state
unfolding opening_tally Tally.new
opening_tally-first id row state b s =
    if-elim (λ t. t ≡ first_tally state)
      (state.k == 1 && sole state.proposer (keys state.validators))
      (λ alone.
        let only : sole state.proposer (keys state.validators) ≡ true = ground (arith, alone) in
        ap (begun state)
          (sym (implicit_yes-member state (sole-has_key state.proposer state.validators only))))
      (λ other.
        let implicit = not_alone id row state b s other in
        ordinary_tally_lem state.k (omega (arith, implicit, b.sized))
        ∙ ap (begun state) (sym implicit))

read_status-text :
    (state : ClaimState)
    → read_status (status_text state.status) state.tally ≡ ok (settle state).status
unfolding read_status status_text settle
read_status-text state = by_status state.status state.tally
  where
    by_status :
        (status : QuorumStatus) (tally : QuorumTally)
        → read_status (status_text status) tally
          ≡ ok (if is_open status then tally_status tally else status)
    by_status still_open tally = refl
    by_status reached tally = refl
    by_status unreachable tally = refl

restored-settle :
    (id : ℕ) (state : ClaimState)
    → restored (stored_of id state) state.k (from_slots state.validators state.tally)
      ≡ ok (settle state)
unfolding restored settle
restored-settle id state = rw (read_status-text state, restored) refl

-- A claim whose rows agree with its state is restored to that state, settled.
pub restore_claim-IsStored :
    (id : ℕ) (row : Row) (state : ClaimState)
    → IsBallot state
    → IsStored id row state
    → restore_claim row.stored (keys row.roster) row.votes ≡ ok (settle state)
unfolding restore_claim
restore_claim-IsStored id row state b s =
    let stored = stored_of id state in
    let agents = keys state.validators in
    let peers : (n l : ℕ) → n + l ≡ state.k → (l ≡ 1) ⊎ (n ≡ 1) → max state.k 1 ≡ state.k =
      λ n l sum one. ground (arith, sum, one) in
    let some_peer : max state.k 1 ≡ state.k =
      peers (length state.validators) (implicit_yes state) b.sized (peer_count id row state s) in
    (λ i. restore_claim (s.stored i) (s.roster i) (s.votes i))
    ∙ ap
        (λ k. restored stored k (
          replay (cast_of state.validators)
            (from_slots (empty_slots agents []) (opening_tally k state.proposer agents))))
        some_peer
    ∙ ap
        (λ t.
          restored stored state.k
            (replay (cast_of state.validators) (from_slots (empty_slots agents []) t)))
        (opening_tally-first id row state b s)
    ∙ ap (λ r. restored stored state.k r) (replay-IsBallot state b)
    ∙ restored-settle id state
  where
    peer_count :
        (id : ℕ) (row : Row) (state : ClaimState)
        → IsStored id row state
        → (implicit_yes state ≡ 1) ⊎ (length state.validators ≡ 1)
    peer_count id row state s = elim s.proposed [
      | inl implicit ↦ inl implicit
      | inr alone ↦ inr (sym (length-keys state.validators) ∙ ap length alone)
    ]
