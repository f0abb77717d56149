-- ===== src/Board/Ballots.antt =====
-- The votes in the slots of a claim's validators, and what a new vote does to their counts:
-- crates/supra_blackboard/src/board.rs.
use mathlib.Core.Option.{some-injective}
use supra_harness.Prelude.{
  Bool-cases, inl, inr, ℕ, suc, ◌+◌, ◌<◌, ◌≡◌, refl, Bool, true, false, Option, none, some, [], ◌∷◌,
  length, if◌then◌else◌, arith, ◌==◌,
}
use supra_harness.Prelude.OrdMap.{
  OrdMap, get, insert, IsSorted, insert_here, insert_later, Above-IsSorted,
}
use supra_harness.Cohort.Verdict.{Vote, vote_yes, vote_no, vote_abstain}

unfoldable pub is_vote : Vote → Option Vote → Bool
is_vote v none = false
is_vote vote_yes (some vote_yes) = true
is_vote vote_no (some vote_no) = true
is_vote vote_abstain (some vote_abstain) = true
is_vote v (some w) = false

-- How many slots hold this vote.
unfoldable pub votes_for : Vote → OrdMap (Option Vote) → ℕ
unfolding is_vote
votes_for v [] = 0
votes_for v ((agent, slot) ∷ slots) =
    let rest = votes_for v slots in if is_vote v slot then suc rest else rest

unfoldable pub empty_count : OrdMap (Option Vote) → ℕ
empty_count [] = 0
empty_count ((agent, none) ∷ slots) = suc (empty_count slots)
empty_count ((agent, some v) ∷ slots) = empty_count slots

if_suc :
    (b c : Bool) (n : ℕ)
    → (let rest = (if c then suc n else n) in if b then suc rest else rest)
      ≡ (if c then suc (if b then suc n else n) else (if b then suc n else n))
if_suc true true n = refl
if_suc true false n = refl
if_suc false true n = refl
if_suc false false n = refl

pub votes_for-insert :
    (v w : Vote) (agent : ℕ) (slots : OrdMap (Option Vote))
    → IsSorted slots
    → get agent slots ≡ some none
    → votes_for v (insert agent (some w) slots)
      ≡ (if is_vote v (some w) then suc (votes_for v slots) else votes_for v slots)
unfolding votes_for get
votes_for-insert v w agent [] s h = ground arith
votes_for-insert v w agent ((a, slot) ∷ slots) s h = elim (Bool-cases (a == agent)) [
  | inl here ↦
      let vacant : slot ≡ none = some-injective slot none (rw here at h) in
      rw (insert_here agent a (some w) slot slots here, vacant) (unfold is_vote in refl)
  | inr later ↦
      let found : get agent slots ≡ some none = rw later at h in
      let ih = votes_for-insert v w agent slots (Above-IsSorted a slots s) found in
      rw (insert_later agent a (some w) slot none slots s found, ih)
        (if_suc (is_vote v slot) (is_vote v (some w)) (votes_for v slots))
]

-- Every slot is empty or holds one of the three votes.
pub slots_counted :
    (slots : OrdMap (Option Vote))
    → votes_for vote_yes slots
        + votes_for vote_no slots
        + votes_for vote_abstain slots
        + empty_count slots
      ≡ length slots
unfolding votes_for empty_count is_vote
slots_counted [] = refl
slots_counted ((a, none) ∷ slots) = omega (arith, slots_counted slots)
slots_counted ((a, some vote_yes) ∷ slots) = omega (arith, slots_counted slots)
slots_counted ((a, some vote_no) ∷ slots) = omega (arith, slots_counted slots)
slots_counted ((a, some vote_abstain) ∷ slots) = omega (arith, slots_counted slots)

pub empty_slot_counted :
    (agent : ℕ) (slots : OrdMap (Option Vote)) → get agent slots ≡ some none → 0 < empty_count slots
unfolding get empty_count
empty_slot_counted agent [] h = ground arith
empty_slot_counted agent ((a, none) ∷ slots) h = omega arith
empty_slot_counted agent ((a, some v) ∷ slots) h = ground (arith, empty_slot_counted agent slots)

is_vote-none : (v : Vote) → is_vote v none ≡ false
unfolding is_vote
is_vote-none v = refl

pub votes_for-insert_empty :
    (v : Vote) (agent : ℕ) (slots : OrdMap (Option Vote))
    → get agent slots ≡ none
    → votes_for v (insert agent none slots) ≡ votes_for v slots
unfolding votes_for get insert
votes_for-insert_empty v agent [] h = ground (arith, is_vote-none v)
votes_for-insert_empty v agent ((a, slot) ∷ slots) h =
    ground (arith, is_vote-none v, votes_for-insert_empty v agent slots)
