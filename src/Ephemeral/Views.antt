-- ===== src/Ephemeral/Views.antt =====
-- The block as a function from the keys to values: crates/supra_types/src/ephemeral.rs.
use mathlib.Core.Option.{none-ne-some, some-injective}
use supra_harness.Prelude.{
  ℕ, ◌≡◌, refl, sym, ap, ◌∙◌, inl, inr, Bool-cases, Option, none, some, List, [], ◌∷◌, ◌==◌,
  if◌then◌else◌, arith,
}
use supra_harness.Prelude.OrdMap.{
  OrdMap, insert, remove, IsSorted, get-insert, get-remove, insert-IsSorted, remove-IsSorted,
}
use supra_harness.Prelude.OrdMap
use supra_harness.Canonical.{Bytes}
use supra_harness.Ephemeral.{
  EphemeralKey, key_rank, Slot, EphemeralBlock, new_block, set, get, clear, value_of,
}

pub data Edit : Type 0 where
  was_set : EphemeralKey → Bytes → Edit
  was_cleared : EphemeralKey → Edit

unfoldable pub edit : EphemeralBlock → Edit → EphemeralBlock
edit block (was_set key value) = set block key value
edit block (was_cleared key) = clear block key

unfoldable pub edit_all : EphemeralBlock → List Edit → EphemeralBlock
unfolding edit
edit_all block [] = block
edit_all block (e ∷ es) = edit_all (edit block e) es

-- The value that the edits leave for a key, read from the last one back: the abstract state is a
-- function from the keys.
abbrev pub after_edit : EphemeralKey → Edit → Option Bytes → Option Bytes
after_edit key (was_set k value) old = if key_rank k == key_rank key then some value else old
after_edit key (was_cleared k) old = if key_rank k == key_rank key then none else old

unfoldable pub edited : (EphemeralKey → Option Bytes) → List Edit → EphemeralKey → Option Bytes
edited values [] key = values key
edited values (e ∷ es) key = edited (λ k. after_edit k e (values k)) es key

-- The entries are sorted, and each stands under the rank of its key.
pub record IsRegister (block : EphemeralBlock) : Type 0 where
  pub sorted : IsSorted block.entries
  pub keyed :
      (rank : ℕ) (slot : Slot)
      → OrdMap.get rank block.entries ≡ some slot
      → key_rank slot.key ≡ rank

get-set :
    (block : EphemeralBlock) (k key : EphemeralKey) (value : Bytes)
    → get (set block k value) key ≡ after_edit key (was_set k value) (get block key)
unfolding get set
get-set block k key value =
    ap value_of
      (get-insert (key_rank k) (key_rank key) (record { key = k; value = value }) block.entries)
    ∙ (elim (Bool-cases (key_rank k == key_rank key)) [ inl e ↦ rw e refl | inr e ↦ rw e refl ])

get-clear :
    (block : EphemeralBlock) (k key : EphemeralKey)
    → IsSorted block.entries
    → get (clear block k) key ≡ after_edit key (was_cleared k) (get block key)
unfolding get clear
get-clear block k key s =
    ap value_of (get-remove (key_rank k) (key_rank key) block.entries s)
    ∙ (elim (Bool-cases (key_rank k == key_rank key)) [ inl e ↦ rw e refl | inr e ↦ rw e refl ])

edit-IsRegister : (block : EphemeralBlock) (e : Edit) → IsRegister block → IsRegister (edit block e)
unfolding edit set clear
edit-IsRegister block (was_set k value) it = record {
  sorted = insert-IsSorted (key_rank k) (record { key = k; value = value }) block.entries it.sorted;
  keyed = λ rank slot found.
      let at =
        sym (get-insert (key_rank k) rank (record { key = k; value = value }) block.entries)
        ∙ found in
      elim (Bool-cases (key_rank k == rank)) [
        | inl here ↦
            ap (λ (s : Slot). key_rank s.key)
              (sym (some-injective (record { key = k; value = value }) slot (rw here at at)))
            ∙ ground (arith, here)
        | inr there ↦ it.keyed rank slot (rw there at at)
      ];
}
edit-IsRegister block (was_cleared k) it = record {
  sorted = remove-IsSorted (key_rank k) block.entries it.sorted;
  keyed = λ rank slot found.
      let at = sym (get-remove (key_rank k) rank block.entries it.sorted) ∙ found in
      elim (Bool-cases (key_rank k == rank)) [
        | inl here ↦ absurd (none-ne-some slot (rw here at at))
        | inr there ↦ it.keyed rank slot (rw there at at)
      ];
}

pub edit_all-IsRegister :
    (block : EphemeralBlock) (es : List Edit) → IsRegister block → IsRegister (edit_all block es)
unfolding edit_all
edit_all-IsRegister block [] it = it
edit_all-IsRegister block (e ∷ es) it =
    edit_all-IsRegister (edit block e) es (edit-IsRegister block e it)

pub new_block-IsRegister : IsRegister new_block
unfolding new_block OrdMap.get
new_block-IsRegister = record {
  sorted = tt;
  keyed = λ rank slot found. absurd (none-ne-some slot found);
}

after_edit-cong :
    (key : EphemeralKey) (e : Edit) (v w : Option Bytes)
    → v ≡ w
    → after_edit key e v ≡ after_edit key e w
after_edit-cong key e v w h = ap (after_edit key e) h

edited-cong :
    (v w : EphemeralKey → Option Bytes) (es : List Edit) (key : EphemeralKey)
    → ((k : EphemeralKey) → v k ≡ w k)
    → edited v es key ≡ edited w es key
unfolding edited
edited-cong v w [] key h = h key
edited-cong v w (e ∷ es) key h =
    edited-cong (λ k. after_edit k e (v k)) (λ k. after_edit k e (w k)) es key
      (λ k. after_edit-cong k e (v k) (w k) (h k))

get-edit :
    (block : EphemeralBlock) (e : Edit) (key : EphemeralKey)
    → IsRegister block
    → get (edit block e) key ≡ after_edit key e (get block key)
unfolding edit
get-edit block (was_set k value) key it = get-set block k key value
get-edit block (was_cleared k) key it = get-clear block k key it.sorted

get-edit_all :
    (block : EphemeralBlock) (es : List Edit) (key : EphemeralKey)
    → IsRegister block
    → get (edit_all block es) key ≡ edited (get block) es key
unfolding edit_all edited
get-edit_all block [] key it = refl
get-edit_all block (e ∷ es) key it =
    get-edit_all (edit block e) es key (edit-IsRegister block e it)
    ∙ edited-cong (get (edit block e)) (λ k. after_edit k e (get block k)) es key
        (λ k. get-edit block e k it)

get-new_block : (k : EphemeralKey) → get new_block k ≡ none
unfolding get new_block OrdMap.get
get-new_block k = refl

-- The register is a function from the keys to values: after any edits a key has the value of the last edit
-- that names it, and none if there is no such edit or the last one cleared it.
pub edits_refined :
    (es : List Edit) (key : EphemeralKey)
    → get (edit_all new_block es) key ≡ edited (λ k. none) es key
edits_refined es key =
    get-edit_all new_block es key new_block-IsRegister
    ∙ edited-cong (get new_block) (λ k. none) es key get-new_block
