-- ===== src/Board/Enrolling.antt =====
-- The rows of a claim just published agree with its state: `publish` and `publish_blind` of
-- crates/supra_blackboard/src/board.rs.
use Prim.Native.String.{String}
use mathlib.Core.Option.{some-injective}
use supra_harness.Prelude.{
  ℕ, ◌≡◌, inl, inr, refl, sym, ◌∙◌, ap, false, Option, none, some, List, [], ◌∷◌, any, arith, ◌==◌,
  ltb, if◌then◌else◌, Bool-cases,
}
use supra_harness.Prelude.OrdMap.{OrdMap, get, insert}
use supra_harness.Cohort.Verdict.{Vote}
use supra_harness.Cohort.Tally.{QuorumTally}
use supra_harness.Board.Tables.{insert_validators, has_key}
use supra_harness.Board.{empty_slots}
use supra_harness.Board.Casting.{implicit_yes}
use supra_harness.Board.Opening.{keys}
use supra_harness.Board.Replaying.{cast_of}
use supra_harness.Board.Restoring.{IsStored, stored_of}
use supra_harness.Board.Rosters.{empty_slots-IsRoster}
use supra_harness.Board.Publishing.{ordinary_state, blind_state}

abbrev insert_key : ℕ → List ℕ → List ℕ
insert_key a [] = a ∷ []
insert_key a (k ∷ ks) =
    if ltb a k then a ∷ k ∷ ks else if a == k then a ∷ ks else k ∷ insert_key a ks

keys-insert :
    {V : Type 0} (a : ℕ) (v : V) (m : OrdMap V) → keys (insert a v m) ≡ insert_key a (keys m)
unfolding insert
keys-insert a v [] = refl
keys-insert a v ((k, w) ∷ m) = ground (arith, keys-insert a v m)

roster-keys :
    (validators : List ℕ) (roster filled : OrdMap (Unit {0})) (slots : OrdMap (Option Vote))
    → keys roster ≡ keys slots
    → insert_validators validators roster ≡ some filled
    → keys filled ≡ keys (empty_slots validators slots)
unfolding insert_validators empty_slots
roster-keys [] roster filled slots same h = ap keys (sym (some-injective roster filled h)) ∙ same
roster-keys (a ∷ validators) roster filled slots same h = elim (Bool-cases (has_key a roster)) [
  | inl taken ↦ ground (arith, taken, h)
  | inr free ↦
      roster-keys validators (insert a tt roster) filled (insert a none slots)
        (keys-insert a tt roster ∙ ap (insert_key a) same ∙ sym (keys-insert a none slots))
        (rw free at h)
]

cast_of-insert-none :
    (a : ℕ) (m : OrdMap (Option Vote)) → cast_of m ≡ [] → cast_of (insert a none m) ≡ []
unfolding insert
cast_of-insert-none a [] h = refl
cast_of-insert-none a ((k, none) ∷ m) h = ground (arith, cast_of-insert-none a m, h)
cast_of-insert-none a ((k, some v) ∷ m) h = ground (arith, h)

cast_of-empty_slots :
    (validators : List ℕ) (m : OrdMap (Option Vote))
    → cast_of m ≡ []
    → cast_of (empty_slots validators m) ≡ []
unfolding empty_slots
cast_of-empty_slots [] m h = h
cast_of-empty_slots (a ∷ validators) m h =
    cast_of-empty_slots validators (insert a none m) (cast_of-insert-none a m h)

pub ordinary_state-IsStored :
    (id turn proposer : ℕ) (validators : List ℕ) (body : String) (t : QuorumTally)
    (filled : OrdMap (Unit {0}))
    → any (λ a. a == proposer) validators ≡ false
    → insert_validators validators [] ≡ some filled
    → (let state = ordinary_state t turn proposer validators body in
        IsStored id (record { stored = stored_of id state; roster = filled; votes = [] }) state)
unfolding get implicit_yes
ordinary_state-IsStored id turn proposer validators body t filled outside accepted =
    let made = empty_slots-IsRoster validators [] filled [] (λ k. refl) tt accepted in
    let missing : has_key proposer (empty_slots validators []) ≡ false =
      ground (arith, made.keys proposer, outside) in
    record {
      stored = refl;
      roster = roster-keys validators [] filled [] refl accepted;
      votes = sym (cast_of-empty_slots validators [] refl);
      proposed = inl (ap (λ b. if b then 0 else 1) missing);
    }

pub blind_state-IsStored :
    (id turn proposer : ℕ) (body : String) (filled : OrdMap (Unit {0}))
    → insert_validators (proposer ∷ []) [] ≡ some filled
    → (let state = blind_state turn proposer body in
        IsStored id (record { stored = stored_of id state; roster = filled; votes = [] }) state)
unfolding empty_slots insert
blind_state-IsStored id turn proposer body filled accepted = record {
  stored = refl;
  roster = roster-keys (proposer ∷ []) [] filled [] refl accepted;
  votes = refl;
  proposed = inr refl;
}
