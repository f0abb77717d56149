-- ===== src/Prelude/Extensional.antt =====
-- Maps in the order of their keys that answer alike are equal.
use mathlib.Core.Option.{none-ne-some, some-injective}
use supra_harness.Prelude.{
  ℕ, ◌≡◌, ◌<◌, ◌⊎◌, inl, inr, refl, sym, ap, subst, ◌∙◌, none, some, [], ◌∷◌, Bool-cases, ◌==◌,
  arith,
}
use supra_harness.Prelude.OrdMap.{OrdMap, get, IsSorted, Above, Above-IsSorted, get-Above}

module _ {V : Type 0} where
  get-head : (k : ℕ) (v : V) (m : OrdMap V) → get k ((k, v) ∷ m) ≡ some v
  unfolding get
  get-head k v m = ground arith

  get-below : (k j : ℕ) (v : V) (m : OrdMap V) → Above j m → k < j → get k ((j, v) ∷ m) ≡ none
  unfolding get
  get-below k j v m a h = ground (arith, get-Above j k m a)

  -- The answers of the rest, from those of the whole.
  get-rest :
      (k i : ℕ) (v w : V) (m n : OrdMap V)
      → Above k m
      → Above k n
      → get i ((k, v) ∷ m) ≡ get i ((k, w) ∷ n)
      → get i m ≡ get i n
  unfolding get
  get-rest k i v w m n a b h = elim (Bool-cases (k == i)) [
    | inl here ↦ ground (arith, here, get-Above k i m a, get-Above k i n b)
    | inr there ↦ rw there at h
  ]

  pub map_ext : (m n : OrdMap V) → IsSorted m → IsSorted n → ((k : ℕ) → get k m ≡ get k n) → m ≡ n
  unfolding get
  map_ext [] [] s t h = refl
  map_ext [] ((k, w) ∷ n) s t h = absurd (none-ne-some w (h k ∙ get-head k w n))
  map_ext ((j, v) ∷ m) [] s t h = absurd (none-ne-some v (sym (h j) ∙ get-head j v m))
  map_ext ((j, v) ∷ m) ((k, w) ∷ n) s t h = elim (order j k) [
    | inl below ↦
        absurd (none-ne-some v (sym (get-below j k w n t below) ∙ sym (h j) ∙ get-head j v m))
    | inr (inl above) ↦
        absurd (none-ne-some w (sym (get-below k j v m s above) ∙ h k ∙ get-head k w n))
    | inr (inr same) ↦
        let keep_key : (j, w) ∷ n ≡ (k, w) ∷ n = ap (λ i. (i, w) ∷ n) same in
        let here : v ≡ w =
          some-injective v w
            (sym (get-head j v m) ∙ h j ∙ ap (get j) (sym keep_key) ∙ get-head j w n) in
        let rest : m ≡ n = map_ext m n (Above-IsSorted j m s) (Above-IsSorted k n t) (λ i.
          get-rest j i v w m n s (subst (λ x. Above x n) (sym same) t)
            (h i ∙ ap (get i) (sym keep_key))) in
        ap (λ x. (j, x) ∷ m) here ∙ ap (λ l. (j, w) ∷ l) rest ∙ keep_key
  ]
    where
      order : (a b : ℕ) → (a < b) ⊎ (b < a) ⊎ (a ≡ b)
      order a b = ground arith
