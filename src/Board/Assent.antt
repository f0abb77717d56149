-- ===== src/Board/Assent.antt =====
-- Who said yes to a claim of crates/supra_blackboard/src/board.rs.
use supra_harness.Prelude.{
  ℕ, ◌+◌, ◌≡◌, inl, inr, refl, false, Bool-cases, Option, none, List, [], ◌∷◌, length,
  if◌then◌else◌, any, arith, ◌==◌,
}
use supra_harness.Prelude.OrdMap.{OrdMap, get, IsSorted, Above-IsSorted, get-Above}
use supra_harness.Cohort.Verdict.{Vote, vote_yes}
use supra_harness.Board.Tables.{has_key}
use supra_harness.Board.{ClaimState}
use supra_harness.Board.Ballots.{is_vote, votes_for}
use supra_harness.Board.Casting.{implicit_yes}

-- The agents whose slot holds a yes.
unfoldable pub yes_voters : OrdMap (Option Vote) → List ℕ
unfolding is_vote
yes_voters [] = []
yes_voters ((agent, slot) ∷ slots) =
    let rest = yes_voters slots in if is_vote vote_yes slot then agent ∷ rest else rest

-- Them and, for an ordinary claim, the proposer, whose publication of it is counted as a yes.
unfoldable pub assenting : ClaimState → List ℕ
unfolding yes_voters
assenting state =
    let voters = yes_voters state.validators in
    if has_key state.proposer state.validators then voters else state.proposer ∷ voters

-- No agent stands twice.
abbrev pub AllDifferent : List ℕ → Type 0
AllDifferent [] = Unit {0}
AllDifferent (a ∷ agents) = (any (λ b. b == a) agents ≡ false) × AllDifferent agents

length-yes_voters :
    (slots : OrdMap (Option Vote)) → length (yes_voters slots) ≡ votes_for vote_yes slots
unfolding yes_voters votes_for
length-yes_voters [] = refl
length-yes_voters ((agent, slot) ∷ slots) = ground (arith, length-yes_voters slots)

missing_voter :
    (agent : ℕ) (slots : OrdMap (Option Vote))
    → get agent slots ≡ none
    → any (λ b. b == agent) (yes_voters slots) ≡ false
unfolding yes_voters get
missing_voter agent [] h = refl
missing_voter agent ((a, slot) ∷ slots) h = ground (arith, missing_voter agent slots)

yes_voters-AllDifferent :
    (slots : OrdMap (Option Vote)) → IsSorted slots → AllDifferent (yes_voters slots)
unfolding yes_voters
yes_voters-AllDifferent [] s = tt
yes_voters-AllDifferent ((a, slot) ∷ slots) s =
    let rest = yes_voters-AllDifferent slots (Above-IsSorted a slots s) in
    let new = missing_voter a slots (get-Above a a slots s (omega arith)) in
    elim (Bool-cases (is_vote vote_yes slot)) [
      | inl yes_vote ↦ rw yes_vote (new, rest)
      | inr other ↦ rw other rest
    ]

pub length-assenting :
    (state : ClaimState)
    → length (assenting state) ≡ votes_for vote_yes state.validators + implicit_yes state
unfolding assenting implicit_yes
length-assenting state = ground (arith, length-yes_voters state.validators)

pub assenting-AllDifferent :
    (state : ClaimState) → IsSorted state.validators → AllDifferent (assenting state)
unfolding assenting
assenting-AllDifferent state s =
    let rest = yes_voters-AllDifferent state.validators s in
    elim (Bool-cases (has_key state.proposer state.validators)) [
      | inl there ↦ rw there rest
      | inr outside ↦
          rw outside (missing_voter state.proposer state.validators (ground (arith, outside)), rest)
    ]
