-- ===== src/Ephemeral.antt =====
-- The ephemeral block, what changes each turn and never enters the prefix:
-- crates/supra_types/src/ephemeral.rs. A text is the list of its bytes. The binary search in the sorted
-- entries is the search of a map in the order of its keys.
pub mod Views
pub mod Rendering
use supra_harness.Prelude.{ℕ, ◌+◌, ◌≡◌, Bool, Option, none, some, List, [], ◌∷◌, ◌++◌, length, ◌==◌}
use supra_harness.Prelude.OrdMap.{OrdMap, insert, remove}
use supra_harness.Prelude.OrdMap
use supra_harness.Cohort.Quorum.{div_ceil}
use supra_harness.Canonical.{Bytes}

pub data EphemeralKey : Type 0 where
  timestamp working_dir git_branch git_clean context_percent permission_mode : EphemeralKey
  sandbox_tier todo_state cohort_size : EphemeralKey

abbrev pub all_keys : List EphemeralKey
all_keys =
    timestamp ∷ working_dir ∷ git_branch ∷ git_clean ∷ context_percent ∷ permission_mode
    ∷ sandbox_tier ∷ todo_state ∷ cohort_size ∷ []

-- the derived order
abbrev pub key_rank : EphemeralKey → ℕ
key_rank timestamp = 0
key_rank working_dir = 1
key_rank git_branch = 2
key_rank git_clean = 3
key_rank context_percent = 4
key_rank permission_mode = 5
key_rank sandbox_tier = 6
key_rank todo_state = 7
key_rank cohort_size = 8

-- The ASCII codes of time, cwd, branch, clean, context, mode, sandbox, todo and peers.
unfoldable pub label : EphemeralKey → Bytes
label timestamp = 116 ∷ 105 ∷ 109 ∷ 101 ∷ []
label working_dir = 99 ∷ 119 ∷ 100 ∷ []
label git_branch = 98 ∷ 114 ∷ 97 ∷ 110 ∷ 99 ∷ 104 ∷ []
label git_clean = 99 ∷ 108 ∷ 101 ∷ 97 ∷ 110 ∷ []
label context_percent = 99 ∷ 111 ∷ 110 ∷ 116 ∷ 101 ∷ 120 ∷ 116 ∷ []
label permission_mode = 109 ∷ 111 ∷ 100 ∷ 101 ∷ []
label sandbox_tier = 115 ∷ 97 ∷ 110 ∷ 100 ∷ 98 ∷ 111 ∷ 120 ∷ []
label todo_state = 116 ∷ 111 ∷ 100 ∷ 111 ∷ []
label cohort_size = 112 ∷ 101 ∷ 101 ∷ 114 ∷ 115 ∷ []

-- An entry stands under the rank of its key.
pub record Slot : Type 0 where
  pub key : EphemeralKey
  pub value : Bytes

pub record EphemeralBlock : Type 0 where
  pub entries : OrdMap Slot

unfoldable pub new_block : EphemeralBlock
new_block = record { entries = [] }

unfoldable pub set : EphemeralBlock → EphemeralKey → Bytes → EphemeralBlock
set block key value = record {
  entries = insert (key_rank key) (record { key = key; value = value }) block.entries;
}

abbrev pub value_of : Option Slot → Option Bytes
value_of none = none
value_of (some slot) = some slot.value

unfoldable pub get : EphemeralBlock → EphemeralKey → Option Bytes
get block key = value_of (OrdMap.get (key_rank key) block.entries)

unfoldable pub clear : EphemeralBlock → EphemeralKey → EphemeralBlock
clear block key = record { entries = remove (key_rank key) block.entries }

unfoldable pub size : EphemeralBlock → ℕ
size block = length block.entries

unfoldable pub is_empty : EphemeralBlock → Bool
unfolding size
is_empty block = size block == 0

-- `label: value` and a line break for each entry
unfoldable pub render_entries : OrdMap Slot → Bytes
unfolding label
render_entries [] = []
render_entries ((rank, slot) ∷ entries) =
    label slot.key ++ 58 ∷ 32 ∷ (slot.value ++ 10 ∷ render_entries entries)

unfoldable pub render : EphemeralBlock → Bytes
unfolding render_entries
render block = render_entries block.entries

unfoldable pub estimated_tokens : EphemeralBlock → ℕ
unfolding render
estimated_tokens block = div_ceil (length (render block)) 4

-- The loop of `deserialize`.
unfoldable pub set_all : EphemeralBlock → List (EphemeralKey × Bytes) → EphemeralBlock
unfolding set
set_all block [] = block
set_all block ((key, value) ∷ entries) = set_all (set block key value) entries

unfoldable pub deserialize : List (EphemeralKey × Bytes) → EphemeralBlock
unfolding set_all new_block
deserialize entries = set_all new_block entries
