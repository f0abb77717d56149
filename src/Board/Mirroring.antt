-- ===== src/Board/Mirroring.antt =====
-- The tables of the blackboard and its claims in memory, claim by claim:
-- crates/supra_blackboard/src/board.rs with crates/supra_blackboard/src/schema.rs.
use mathlib.Core.Option.{some-injective, none-ne-some}
use supra_harness.Prelude.{
  ℕ, ◌<◌, ◌≡◌, inl, inr, refl, sym, ◌∙◌, ap, subst, Bool, true, false, Option, none, some, [], ◌∷◌,
  arith, ◌==◌, ltb, if◌then◌else◌, Bool-cases,
}
use supra_harness.Prelude.OrdMap.{
  OrdMap, get, insert, IsSorted, Above, insert_here, insert_later, Above-IsSorted, get-Above,
}
use supra_harness.Cohort.Verdict.{Vote}
use supra_harness.Board.Tables.{Row, Database}
use supra_harness.Board.{ClaimState}
use supra_harness.Board.Opening.{keys}
use supra_harness.Board.Replaying.{cast_of}
use supra_harness.Board.Restoring.{IsStored}

abbrev pub Mirrors : Database → OrdMap ClaimState → Type 0
Mirrors [] [] = Unit {0}
Mirrors [] ((j, state) ∷ states) = ⊥
Mirrors ((i, row) ∷ rows) [] = ⊥
Mirrors ((i, row) ∷ rows) ((j, state) ∷ states) =
    (i ≡ j) × IsStored i row state × Mirrors rows states

if-elim2 :
    {A B : Type 0} (P : A → B → Type 0) (b : Bool) {x y : A} {u v : B}
    → (b ≡ true → P x u)
    → (b ≡ false → P y v)
    → P (if b then x else y) (if b then u else v)
if-elim2 P true f g = f refl
if-elim2 P false f g = g refl

pub Mirrors-insert :
    (k : ℕ) (row : Row) (state : ClaimState) (rows : Database) (states : OrdMap ClaimState)
    → Mirrors rows states
    → IsStored k row state
    → Mirrors (insert k row rows) (insert k state states)
unfolding insert
Mirrors-insert k row state [] [] m s = (refl, s, tt)
Mirrors-insert k row state [] ((j, q) ∷ states) m s = absurd m
Mirrors-insert k row state ((i, r) ∷ rows) [] m s = absurd m
Mirrors-insert k row state ((i, r) ∷ rows) ((j, q) ∷ states) (e, kept, rest) s =
    subst (λ x. Mirrors (insert k row ((i, r) ∷ rows)) (insert k state ((x, q) ∷ states))) e
      (if-elim2 Mirrors (ltb k i) (λ _. (refl, s, (refl, kept, rest)))
        (λ _.
          if-elim2 Mirrors (k == i) (λ _. (refl, s, rest))
            (λ _. (refl, kept, Mirrors-insert k row state rows states rest s))))

-- What a found claim has in the tables.
pub Mirrors-get :
    (k : ℕ) (rows : Database) (states : OrdMap ClaimState) (state : ClaimState)
    → Mirrors rows states
    → get k states ≡ some state
    → (row : Row) × (get k rows ≡ some row) × IsStored k row state
unfolding get
Mirrors-get k [] [] state m h = ground (arith, h)
Mirrors-get k [] ((j, q) ∷ states) state m h = absurd m
Mirrors-get k ((i, r) ∷ rows) [] state m h = absurd m
Mirrors-get k ((i, r) ∷ rows) ((j, q) ∷ states) state (e, kept, rest) h =
    elim (Bool-cases (j == k)) [
      | inl here ↦
          let same : q ≡ state = some-injective q state (rw here at h) in
          let key : i ≡ k = ground (arith, e, here) in
          (
            r,
            ground (arith, key),
            subst (λ x. IsStored k r x) same (subst (λ x. IsStored x r q) key kept),
          )
      | inr later ↦
          let (row, found, stored) = Mirrors-get k rows states state rest (rw later at h) in
          (row, ground (arith, e, later, found), stored)
    ]

pub insert-insert :
    {V : Type 0} (k : ℕ) (v w : V) (m : OrdMap V) → insert k v (insert k w m) ≡ insert k v m
unfolding insert
insert-insert k v w [] = ground arith
insert-insert k v w ((j, u) ∷ m) = ground (arith, insert-insert k v w m)

pub keys-insert_old :
    {V : Type 0} (k : ℕ) (v w : V) (m : OrdMap V)
    → IsSorted m
    → get k m ≡ some w
    → keys (insert k v m) ≡ keys m
unfolding get
keys-insert_old k v w [] s h = ground (arith, h)
keys-insert_old k v w ((j, u) ∷ m) s h = elim (Bool-cases (j == k)) [
  | inl here ↦
      let same : k ≡ j = ground (arith, here) in
      ap keys (insert_here k j v u m here) ∙ ap (λ x. x ∷ keys m) same
  | inr later ↦
      let found : get k m ≡ some w = rw later at h in
      ap keys (insert_later k j v u w m s found)
      ∙ ap (λ x. j ∷ x) (keys-insert_old k v w m (Above-IsSorted j m s) found)
]

module _ {V : Type 0} where
  Above-trans : (a b : ℕ) (m : OrdMap V) → a < b → Above b m → Above a m
  Above-trans a b [] h m = tt
  Above-trans a b ((k, v) ∷ m) h s = (omega (arith, h, s.0), s.1)

  insert_first : (k : ℕ) (v : V) (m : OrdMap V) → Above k m → insert k v m ≡ (k, v) ∷ m
  unfolding insert
  insert_first k v [] a = refl
  insert_first k v ((j, u) ∷ m) a = ground (arith, a.0)

  insert_past :
      (k j : ℕ) (v u : V) (m : OrdMap V) → j < k → insert k v ((j, u) ∷ m) ≡ (j, u) ∷ insert k v m
  unfolding insert
  insert_past k j v u m h = ground (arith, h)

  get-lt : (a k : ℕ) (v : V) (m : OrdMap V) → Above a m → get k m ≡ some v → a < k
  get-lt a k v m s h = ground (arith, get-Above a k m s, h)

Above-cast_of : (n : ℕ) (m : OrdMap (Option Vote)) → Above n m → Above n (cast_of m)
Above-cast_of n [] a = tt
Above-cast_of n ((k, none) ∷ m) a = Above-cast_of n m (Above-trans n k m a.0 a.1)
Above-cast_of n ((k, some v) ∷ m) a = (a.0, Above-cast_of k m a.1)

pub cast_of-insert :
    (k : ℕ) (v : Vote) (m : OrdMap (Option Vote))
    → IsSorted m
    → get k m ≡ some none
    → cast_of (insert k (some v) m) ≡ insert k v (cast_of m)
unfolding get
cast_of-insert k v [] s h = ground (arith, h)
cast_of-insert k v ((a, none) ∷ m) s h = elim (Bool-cases (a == k)) [
  | inl here ↦
      let same : a ≡ k = ground (arith, here) in
      ap cast_of (insert_here k a (some v) none m here)
      ∙ sym (insert_first k v (cast_of m) (Above-cast_of k m (subst (λ x. Above x m) same s)))
  | inr later ↦
      let found : get k m ≡ some none = rw later at h in
      ap cast_of (insert_later k a (some v) none none m s found)
      ∙ cast_of-insert k v m (Above-IsSorted a m s) found
]
cast_of-insert k v ((a, some w) ∷ m) s h = elim (Bool-cases (a == k)) [
  | inl here ↦ absurd (none-ne-some w (sym (some-injective (some w) none (rw here at h))))
  | inr later ↦
      let found : get k m ≡ some none = rw later at h in
      ap cast_of (insert_later k a (some v) (some w) none m s found)
      ∙ ap (λ c. (a, w) ∷ c) (cast_of-insert k v m (Above-IsSorted a m s) found)
      ∙ sym (insert_past k a v w (cast_of m) (get-lt a k none m s found))
]
