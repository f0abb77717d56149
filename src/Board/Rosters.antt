-- ===== src/Board/Rosters.antt =====
-- The roster of a new claim: as many empty slots as validators, since the engine refuses an agent
-- that is named twice. `publish` of crates/supra_blackboard/src/board.rs with `insert_claim` of
-- crates/supra_blackboard/src/schema.rs.
use supra_harness.Prelude.{
  sym, ◌∙◌, ap, ℕ, ◌+◌, ◌≡◌, refl, false, Option, none, some, List, [], ◌∷◌, length, ◌||◌, any,
  if◌then◌else◌, arith, ◌==◌, Bool-cases, inl, inr,
}
use supra_harness.Prelude.OrdMap.{
  OrdMap, get, insert, get-insert, IsSorted, insert-IsSorted, length-insert_new,
}
use supra_harness.Cohort.Verdict.{Vote}
use supra_harness.Board.Tables.{has_key, insert_validators}
use supra_harness.Board.{empty_slots}
use supra_harness.Board.Ballots.{votes_for, votes_for-insert_empty}

pub has_key-insert :
    {V : Type 0} (a k : ℕ) (v : V) (m : OrdMap V)
    → has_key k (insert a v m) ≡ (a == k || has_key k m)
has_key-insert a k v m = ground (arith, get-insert a k v m)

-- Two maps with the same keys.
abbrev pub SameKeys : {V W : Type 0} → OrdMap V → OrdMap W → Type 0
SameKeys m n = (k : ℕ) → has_key k m ≡ has_key k n

has_key-none : {V : Type 0} (k : ℕ) (m : OrdMap V) → has_key k m ≡ false → get k m ≡ none
has_key-none k m h = ground arith

pub record IsRoster (validators : List ℕ) (slots made : OrdMap (Option Vote)) : Type 0 where
  pub sorted : IsSorted made
  pub sized : length made ≡ length validators + length slots
  pub votes : (v : Vote) → votes_for v made ≡ votes_for v slots
  pub keys : (k : ℕ) → has_key k made ≡ (any (λ a. a == k) validators || has_key k slots)

pub empty_slots-IsRoster :
    (validators : List ℕ) (roster filled : OrdMap (Unit {0})) (slots : OrdMap (Option Vote))
    → SameKeys roster slots
    → IsSorted slots
    → insert_validators validators roster ≡ some filled
    → IsRoster validators slots (empty_slots validators slots)
unfolding empty_slots insert_validators
empty_slots-IsRoster [] roster filled slots same s h = record {
  sorted = s;
  sized = omega arith;
  votes = λ v. refl;
  keys = λ k. refl;
}
empty_slots-IsRoster (a ∷ validators) roster filled slots same s h =
    elim (Bool-cases (has_key a roster)) [
      | inl taken ↦ ground (arith, taken, h)
      | inr free ↦
          let vacant : get a slots ≡ none = has_key-none a slots (sym (same a) ∙ free) in
          let rest =
            empty_slots-IsRoster validators (insert a tt roster) filled (insert a none slots)
              (λ k.
                has_key-insert a k tt roster
                ∙ ap (λ x. a == k || x) (same k)
                ∙ sym (has_key-insert a k none slots))
              (insert-IsSorted a none slots s) (rw free at h) in
          record {
            sorted = rest.sorted;
            sized = omega (arith, rest.sized, length-insert_new a none slots vacant);
            votes = λ v. rest.votes v ∙ votes_for-insert_empty v a slots vacant;
            keys = λ k. ground (arith, rest.keys k, has_key-insert a k none slots);
          }
    ]

-- The slots of a new claim: an empty one for each validator.
pub get-empty_slots :
    (agent : ℕ) (validators : List ℕ) (slots : OrdMap (Option Vote))
    → get agent (empty_slots validators slots)
      ≡ (if any (λ a. a == agent) validators then some none else get agent slots)
unfolding empty_slots
get-empty_slots agent [] slots = refl
get-empty_slots agent (a ∷ validators) slots =
    ground
      (arith, get-empty_slots agent validators (insert a none slots), get-insert a agent none slots)
