-- ===== src/Ephemeral/Rendering.antt =====
-- What a block renders depends on its values alone: crates/supra_types/src/ephemeral.rs.
use mathlib.Core.Option.{none-ne-some, some-injective}
use supra_harness.Prelude.{
  ℕ, ◌≡◌, refl, sym, ap, subst, ◌∙◌, inl, inr, none, some, Option-cases, List, get_elem?,
}
use supra_harness.Prelude.OrdMap.{
  OrdMap, insert, remove, IsSorted, get-insert, get-remove, insert-IsSorted, remove-IsSorted,
}
use supra_harness.Prelude.OrdMap
use supra_harness.Prelude.Extensional.{map_ext}
use supra_harness.Canonical.{Bytes}
use supra_harness.Ephemeral.{
  EphemeralKey, all_keys, key_rank, timestamp, working_dir, git_branch, git_clean, context_percent,
  permission_mode, sandbox_tier, todo_state, cohort_size, Slot, EphemeralBlock, new_block, get,
  value_of, render,
}
use supra_harness.Ephemeral.Views.{
  Edit, edit_all, IsRegister, edit_all-IsRegister, new_block-IsRegister,
}

key_at : ℕ → EphemeralKey
key_at rank = elim (get_elem? all_keys rank) [ none ↦ timestamp | some key ↦ key ]

key_at-key_rank : (k : EphemeralKey) → key_at (key_rank k) ≡ k
unfolding key_at
key_at-key_rank timestamp = refl
key_at-key_rank working_dir = refl
key_at-key_rank git_branch = refl
key_at-key_rank git_clean = refl
key_at-key_rank context_percent = refl
key_at-key_rank permission_mode = refl
key_at-key_rank sandbox_tier = refl
key_at-key_rank todo_state = refl
key_at-key_rank cohort_size = refl

key_rank-injective : (j k : EphemeralKey) → key_rank j ≡ key_rank k → j ≡ k
key_rank-injective j k h = sym (key_at-key_rank j) ∙ ap key_at h ∙ key_at-key_rank k

abbrev slot_of : EphemeralKey → Bytes → Slot
slot_of key value = record { key = key; value = value }

abbrev block_of : OrdMap Slot → EphemeralBlock
block_of entries = record { entries = entries }

-- A slot that one block has the other has too, if their values agree.
same_slot :
    (b c : EphemeralBlock) (rank : ℕ) (slot : Slot)
    → IsRegister b
    → IsRegister c
    → ((key : EphemeralKey) → get b key ≡ get c key)
    → OrdMap.get rank b.entries ≡ some slot
    → OrdMap.get rank c.entries ≡ some slot
unfolding get
same_slot b c rank slot it jt h found =
    let at : key_rank slot.key ≡ rank = it.keyed rank slot found in
    let value : value_of (OrdMap.get rank c.entries) ≡ some slot.value =
      subst
        (λ r.
          value_of (OrdMap.get r b.entries) ≡ value_of (OrdMap.get r c.entries)
          → value_of (OrdMap.get rank c.entries) ≡ some slot.value)
        (sym at) (λ e. sym e ∙ ap value_of found) (h slot.key) in
    elim (Option-cases (OrdMap.get rank c.entries)) [
      | inl missing ↦ absurd (none-ne-some slot.value (sym (ap value_of missing) ∙ value))
      | inr (other, there) ↦
          there
          ∙ ap some (
              ap (λ k. slot_of k other.value)
                (key_rank-injective other.key slot.key (jt.keyed rank other there ∙ sym at))
              ∙ ap (slot_of slot.key)
                  (some-injective other.value slot.value (sym (ap value_of there) ∙ value)))
    ]

-- Two histories of edits that leave the same values leave the same block, so that it is rendered, and
-- its tokens are estimated, the same: neither the order of the edits nor what was overwritten shows.
pub rendered_by_values :
    (es fs : List Edit)
    → ((key : EphemeralKey) → get (edit_all new_block es) key ≡ get (edit_all new_block fs) key)
    → (edit_all new_block es ≡ edit_all new_block fs)
      × (render (edit_all new_block es) ≡ render (edit_all new_block fs))
rendered_by_values es fs h =
    let it = edit_all-IsRegister new_block es new_block-IsRegister in
    let jt = edit_all-IsRegister new_block fs new_block-IsRegister in
    let b = edit_all new_block es in
    let c = edit_all new_block fs in
    let same : b.entries ≡ c.entries = map_ext b.entries c.entries it.sorted jt.sorted (λ rank.
      elim (Option-cases (OrdMap.get rank b.entries)) [
        | inr (slot, found) ↦ found ∙ sym (same_slot b c rank slot it jt h found)
        | inl missing ↦ elim (Option-cases (OrdMap.get rank c.entries)) [
          | inl also ↦ missing ∙ sym also
          | inr (slot, found) ↦ absurd (
              none-ne-some slot
                (sym missing ∙ same_slot c b rank slot jt it (λ k. sym (h k)) found))
        ]
      ]) in
    (ap (λ entries. block_of entries) same, ap (λ entries. render (block_of entries)) same)
