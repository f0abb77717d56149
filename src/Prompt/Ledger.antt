-- ===== src/Prompt/Ledger.antt =====
-- The append-only prompt ledger and its generations: crates/supra_prompt/src/ledger.rs and
-- generation.rs. Counters of 64 bits that overflow abort the program, so they are plain numbers.
pub mod Snapshots
pub mod Appending
pub mod Rewriting
pub mod Resealing
use supra_harness.Prelude.{
  ℕ, zero, suc, ◌+◌, ◌*◌, ◌-◌, ◌^◌, Bool, true, false, not, ◌||◌, Option, none, some, List, [], ◌∷◌,
  ◌++◌, Result, ok, err, ltb, leb, ◌==◌, if◌then◌else◌, length, map, any, ◌>>=◌,
}
use supra_harness.Canonical.{Bytes, Writer, for_kind, write_bytes, write_u64, bytes_eq}
use supra_harness.Segment.{Segment}
use supra_harness.Prompt.Error.{
  PromptError, duplicate_segment, generation_unverified, invalid_snapshot,
}
use supra_harness.Prompt.Sealed.{Sealed, seal, verify}

pub record Generation : Type 0 where
  pub generation : ℕ
  pub segments : List ℕ
  pub prefix_hash : Bytes

pub record LedgerSnapshot : Type 0 where
  pub entries : List Sealed
  pub next_seq : ℕ
  pub generation : ℕ
  pub latest_generation : Option Generation

pub record PromptLedger : Type 0 where
  pub entries : List Sealed
  pub next_seq : ℕ
  pub generation : ℕ
  pub latest_generation : Option Generation

unfoldable pub new : PromptLedger
new = record { entries = []; next_seq = 0; generation = 0; latest_generation = none }

-- The ids of the sealed segments, in order.
abbrev pub ids : List Sealed → List ℕ
ids [] = []
ids (entry ∷ entries) = entry.value.id ∷ ids entries

abbrev pub mem : ℕ → List ℕ → Bool
mem id [] = false
mem id (x ∷ xs) = x == id || mem id xs

unfoldable pub snapshot : PromptLedger → LedgerSnapshot
snapshot l = record {
  entries = l.entries;
  next_seq = l.next_seq;
  generation = l.generation;
  latest_generation = l.latest_generation;
}

unfoldable pub clear_for_rewrite : PromptLedger → PromptLedger
clear_for_rewrite l = record l { entries = [] }

-- The pairs of a sequence number and a hash, as `Pairs::write_canonical` writes them.
unfoldable pub write_pairs : Writer → List Sealed → Writer
unfolding write_u64 write_bytes
write_pairs w [] = w
write_pairs w (entry ∷ entries) =
    write_pairs (write_bytes (write_u64 w 2 entry.seq) 3 entry.hash) entries

module _ (digest : Bytes → Bytes) where
  unfoldable pub append : PromptLedger → Segment → PromptLedger × Result PromptError ℕ
  unfolding seal
  append l segment =
      if mem segment.id (ids l.entries) then (l, err (duplicate_segment segment.id)) else (
        record l {
          entries = l.entries ++ seal digest l.next_seq segment ∷ [];
          next_seq = l.next_seq + 1;
        },
        ok l.next_seq,
      )

  -- 0x20 is the kind of a prefix hash.
  unfoldable pub hash_sequence : List Sealed → Bytes
  hash_sequence entries = digest (write_pairs (write_u64 (for_kind 32) 1 (length entries)) entries)

  unfoldable pub prefix_hash : PromptLedger → Bytes
  prefix_hash l = hash_sequence l.entries

  unfoldable pub seal_generation : PromptLedger → PromptLedger × Generation
  unfolding prefix_hash
  seal_generation l =
      let sealed : Generation = record {
        generation = l.generation;
        segments = ids l.entries;
        prefix_hash = prefix_hash l;
      } in
      (record l { generation = l.generation + 1; latest_generation = some sealed }, sealed)

  unfoldable pub verify_generation : PromptLedger → Generation → Result PromptError (Unit {0})
  unfolding prefix_hash
  verify_generation l sealed =
      if not (bytes_eq (prefix_hash l) sealed.prefix_hash)
      then err (generation_unverified sealed.generation)
      else ok tt

  -- The loop over the entries, with the ids seen so far.
  unfoldable pub validate_entries : ℕ → List ℕ → List Sealed → Result PromptError (Unit {0})
  unfolding verify
  validate_entries index seen [] = ok tt
  validate_entries index seen (entry ∷ entries) =
      let rest = validate_entries (suc index) (entry.value.id ∷ seen) entries in
      if not (entry.seq == index)
      then err invalid_snapshot
      else if not (verify digest entry)
      then err invalid_snapshot
      else if mem entry.value.id seen
      then err invalid_snapshot
      else rest

  -- The seal of the last generation, if there is one, describes the entries. The first test is the
  -- `checked_add` on the number of the seal.
  unfoldable pub validate_seal : LedgerSnapshot → Result PromptError (Unit {0})
  unfolding hash_sequence
  validate_seal s = elim s.latest_generation [
    | none ↦ if s.generation == 0 then ok tt else err invalid_snapshot
    | some sealed ↦
        if leb (2 ^ 64 - 1) sealed.generation
        then err invalid_snapshot
        else if not (s.generation == sealed.generation + 1)
        then err invalid_snapshot
        else if not (bytes_eq sealed.segments (ids s.entries))
        then err invalid_snapshot
        else if not (bytes_eq sealed.prefix_hash (hash_sequence s.entries))
        then err invalid_snapshot
        else ok tt
  ]

  unfoldable pub validate_snapshot : LedgerSnapshot → Result PromptError (Unit {0})
  unfolding validate_entries validate_seal
  validate_snapshot s = do
    checked ← validate_entries 0 [] s.entries
    if not (s.next_seq == length s.entries) then err invalid_snapshot else validate_seal s

  unfoldable pub from_snapshot : LedgerSnapshot → Result PromptError PromptLedger
  unfolding validate_snapshot
  from_snapshot s = do
    checked ← validate_snapshot s
    ok (record {
      entries = s.entries;
      next_seq = s.next_seq;
      generation = s.generation;
      latest_generation = s.latest_generation;
    })

  -- The loop of `rewrite`: every segment is appended again, and the refusals are collected.
  unfoldable pub append_live :
      List Sealed → PromptLedger → List PromptError → PromptLedger × List PromptError
  unfolding append
  append_live [] l skipped = (l, skipped)
  append_live (entry ∷ live) l skipped =
      let (l', appended) = append l entry.value in
      append_live live l' (elim appended [ ok seq ↦ skipped | err e ↦ skipped ++ e ∷ [] ])

  unfoldable pub rewrite :
      PromptLedger → PromptLedger × (Generation × Generation × List PromptError)
  unfolding seal_generation append_live clear_for_rewrite
  rewrite l =
      let (sealed, before) = seal_generation l in
      let (appended, skipped) = append_live sealed.entries (clear_for_rewrite sealed) [] in
      let (final, after) = seal_generation appended in (final, (before, after, skipped))

unfoldable pub verify_rewrite : Generation → Generation → Result PromptError (Unit {0})
verify_rewrite before after =
    if not (bytes_eq before.segments after.segments)
    then err (generation_unverified after.generation)
    else ok tt

unfoldable pub needs_rewrite : ℕ → Bool
needs_rewrite usage_percent = leb 92 usage_percent
