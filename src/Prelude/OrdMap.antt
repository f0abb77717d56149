-- ===== src/Prelude/OrdMap.antt =====
-- `BTreeMap` with numbers for keys: an association list in ascending order of its keys.
use Prim.Native.Nat.{ℕ, suc, ◌≤◌, ◌<◌}
use mathlib.Core.Path.{◌≡◌, refl, sym, ◌∙◌, subst}
use mathlib.Core.Logic.{inl, inr}
use mathlib.Core.Option.{Option, none, some, some-injective}
use mathlib.Core.List.{List, [], ◌∷◌}
use native.Mathlib.Omega.{arith}
use mathlib.Core.Bool.{true}
use supra_harness.Prelude.Lists.{length}
use supra_harness.Prelude.Tests.{Bool-cases, if◌then◌else◌, ltb, ◌==◌}

abbrev pub OrdMap {ℓ} : Type ℓ → Type ℓ
OrdMap V = List (ℕ × V)

module _ {ℓ} {V : Type ℓ} where
  unfoldable pub get : ℕ → OrdMap V → Option V
  get k [] = none
  get k ((j, v) ∷ m) = if j == k then some v else get k m

  unfoldable pub insert : ℕ → V → OrdMap V → OrdMap V
  insert k v [] = (k, v) ∷ []
  insert k v ((j, w) ∷ m) =
      if ltb k j then (k, v) ∷ (j, w) ∷ m else if k == j then (k, v) ∷ m else (j, w) ∷ insert k v m

  unfoldable pub remove : ℕ → OrdMap V → OrdMap V
  remove k [] = []
  remove k ((j, v) ∷ m) = if j == k then m else (j, v) ∷ remove k m

module _ {ℓ} {V : Type ℓ} where
  -- Every key is above `n`, and the keys ascend.
  abbrev pub Above : ℕ → OrdMap V → Type 0
  Above n [] = Unit {0}
  Above n ((k, v) ∷ m) = (n < k) × Above k m

  abbrev pub IsSorted : OrdMap V → Type 0
  IsSorted [] = Unit {0}
  IsSorted ((k, v) ∷ m) = Above k m

  pub Above-IsSorted : (n : ℕ) (m : OrdMap V) → Above n m → IsSorted m
  Above-IsSorted n [] a = tt
  Above-IsSorted n ((k, v) ∷ m) a = a.1

  pub get-insert :
      (k j : ℕ) (v : V) (m : OrdMap V) → get j (insert k v m) ≡ (if k == j then some v else get j m)
  unfolding get insert
  get-insert k j v [] = refl
  get-insert k j v ((i, w) ∷ m) = ground (arith, get-insert k j v m)

  pub Above-insert : (n k : ℕ) (v : V) (m : OrdMap V) → n < k → Above n m → Above n (insert k v m)
  unfolding insert
  Above-insert n k v [] h a = (h, tt)
  Above-insert n k v ((j, w) ∷ m) h a = ground (arith, Above-insert j k v m)

  pub insert-IsSorted : (k : ℕ) (v : V) (m : OrdMap V) → IsSorted m → IsSorted (insert k v m)
  unfolding insert
  insert-IsSorted k v [] s = tt
  insert-IsSorted k v ((j, w) ∷ m) s = ground (arith, Above-insert j k v m)

  pub get-Above : (n k : ℕ) (m : OrdMap V) → Above n m → k ≤ n → get k m ≡ none
  unfolding get
  get-Above n k [] a h = refl
  get-Above n k ((j, v) ∷ m) a h = ground (arith, get-Above j k m)

  -- A key that is there keeps its place, a new one makes the map longer.
  pub length-insert_old :
      (k : ℕ) (v w : V) (m : OrdMap V)
      → IsSorted m
      → get k m ≡ some w
      → length (insert k v m) ≡ length m
  unfolding get insert
  length-insert_old k v w [] s h = ground arith
  length-insert_old k v w ((j, u) ∷ []) s h = ground arith
  length-insert_old k v w ((j, u) ∷ (i, t) ∷ m) s h =
      ground (arith, length-insert_old k v w ((i, t) ∷ m), get-Above j k ((i, t) ∷ m))

  pub length-insert_new :
      (k : ℕ) (v : V) (m : OrdMap V) → get k m ≡ none → length (insert k v m) ≡ suc (length m)
  unfolding get insert
  length-insert_new k v [] h = refl
  length-insert_new k v ((j, u) ∷ m) h = ground (arith, length-insert_new k v m)

module _ {ℓ} {V : Type ℓ} where
  pub get-remove :
      (k j : ℕ) (m : OrdMap V)
      → IsSorted m
      → get j (remove k m) ≡ (if k == j then none else get j m)
  unfolding get remove
  get-remove k j [] s = ground arith
  get-remove k j ((i, w) ∷ m) s =
      ground (arith, get-remove k j m, get-Above i j m, Above-IsSorted i m)

  Above-remove : (n k : ℕ) (m : OrdMap V) → Above n m → Above n (remove k m)
  unfolding remove
  Above-remove n k [] a = tt
  Above-remove n k ((j, w) ∷ []) a = ground arith
  Above-remove n k ((j, w) ∷ (i, v) ∷ m) a = ground (arith, Above-remove j k ((i, v) ∷ m))

  pub remove-IsSorted : (k : ℕ) (m : OrdMap V) → IsSorted m → IsSorted (remove k m)
  unfolding remove
  remove-IsSorted k [] s = tt
  remove-IsSorted k ((j, w) ∷ m) s = ground (arith, Above-remove j k m, Above-IsSorted j m)

  -- Taking out a key that is there makes the map shorter by one.
  pub length-remove_old :
      (k : ℕ) (w : V) (m : OrdMap V) → get k m ≡ some w → suc (length (remove k m)) ≡ length m
  unfolding get remove
  length-remove_old k w [] h = ground arith
  length-remove_old k w ((j, u) ∷ m) h = ground (arith, length-remove_old k w m)

module _ {V : Type 0} where
  -- Where an old key is met again, and where it is further on.
  pub insert_here :
      (k j : ℕ) (v w : V) (m : OrdMap V) → (j == k) ≡ true → insert k v ((j, w) ∷ m) ≡ (k, v) ∷ m
  unfolding insert
  insert_here k j v w m h = ground arith

  pub insert_later :
      (k j : ℕ) (v w x : V) (m : OrdMap V)
      → Above j m
      → get k m ≡ some x
      → insert k v ((j, w) ∷ m) ≡ (j, w) ∷ insert k v m
  unfolding insert
  insert_later k j v w x m a h = ground (arith, get-Above j k m)

module _ {ℓ κ} {V : Type ℓ} (P : V → Type κ) where
  unfoldable pub Holds : OrdMap V → Type (ℓ ⊔ κ)
  Holds m = (k : ℕ) (v : V) → get k m ≡ some v → P v

  pub Holds-insert : (k : ℕ) (v : V) (m : OrdMap V) → Holds m → P v → Holds (insert k v m)
  unfolding Holds
  Holds-insert k v m all it j w found =
      let e : (if k == j then some v else get j m) ≡ some w = sym (get-insert k j v m) ∙ found in
      elim (Bool-cases (k == j)) [
        | inl same ↦ subst P (some-injective v w (rw same at e)) it
        | inr other ↦ all j w (rw other at e)
      ]
