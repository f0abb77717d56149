-- ===== src/Prompt/Ledger/Resealing.antt =====
-- A ledger that grows after it was sealed: crates/supra_prompt/src/ledger.rs.
use mathlib.Core.List.{append_assoc}
use supra_harness.Prelude.{
  ℕ, ◌-◌, ◌^◌, ◌<◌, ◌≡◌, ◌≢◌, inl, inr, refl, ap, sym, ◌∙◌, false, none, some, List, [], ◌∷◌, ◌++◌,
  ok, err, length, length-append, arith, Option-cases,
}
use supra_harness.Canonical.{Bytes}
use supra_harness.Segment.{Segment}
use supra_harness.Prompt.Error.{invalid_snapshot}
use supra_harness.Prompt.Sealed.{seal}
use supra_harness.Prompt.Ledger.{
  PromptLedger, ids, mem, snapshot, append, seal_generation, prefix_hash, from_snapshot,
}
use supra_harness.Prompt.Ledger.Snapshots.{IsRestorable, from_snapshot_iff, not_restorable_err}
use supra_harness.Prompt.Ledger.Appending.{
  append_all, append_all_prefix, append_all-IsLinked, append_all-sealed, ids-append,
}

module _ (digest : Bytes → Bytes) where
  not-append_self : (xs ys : List ℕ) (x : ℕ) → xs ≢ xs ++ x ∷ ys
  not-append_self xs ys x e = omega (arith, ap length e, length-append xs (x ∷ ys))

  appended_entries :
      (l : PromptLedger) (segment : Segment)
      → mem segment.id (ids l.entries) ≡ false
      → (append digest l segment).0.entries ≡ l.entries ++ seal digest l.next_seq segment ∷ []
  unfolding append
  appended_entries l segment h = rw h refl

  appended_ids :
      (l : PromptLedger) (segment : Segment)
      → ids (l.entries ++ seal digest l.next_seq segment ∷ []) ≡ ids l.entries ++ segment.id ∷ []
  unfolding seal
  appended_ids l segment = ids-append l.entries (seal digest l.next_seq segment ∷ [])

  -- What stands behind the old ids once a new segment is in.
  grown_ids :
      (l : PromptLedger) (segment : Segment) (later : List Segment)
      → mem segment.id (ids l.entries) ≡ false
      → (rest : List ℕ) × (ids (append_all digest l (segment ∷ later)).entries
          ≡ ids l.entries ++ segment.id ∷ rest)
  unfolding append_all
  grown_ids l segment later fresh =
      let (rest, e) = append_all_prefix digest (append digest l segment).0 later in
      let new = seal digest l.next_seq segment in
      (
        ids rest,
        ap ids (e ∙ ap (λ es. es ++ rest) (appended_entries l segment fresh))
            ∙ ids-append (l.entries ++ new ∷ []) rest
            ∙ ap (λ is. is ++ ids rest) (appended_ids l segment)
            ∙ append_assoc (ids l.entries) (segment.id ∷ []) (ids rest),
      )

  refused_until_sealed :
      (l : PromptLedger) (segment : Segment) (later : List Segment)
      → IsRestorable digest l
      → l.latest_generation ≢ none
      → mem segment.id (ids l.entries) ≡ false
      → from_snapshot digest (snapshot (append_all digest l (segment ∷ later)))
        ≡ err invalid_snapshot
  refused_until_sealed l segment later r sealed fresh = elim (Option-cases l.latest_generation) [
    | inl missing ↦ absurd (sealed missing)
    | inr (g, e) ↦ not_restorable_err digest (append_all digest l (segment ∷ later)) (λ bad.
        let grown = append_all digest l (segment ∷ later) in
        let latest : grown.latest_generation ≡ some g =
          (append_all-sealed digest l (segment ∷ later)).0 ∙ e in
        let before : g.segments ≡ ids l.entries = ground (arith, r.sealed, e) in
        let after : g.segments ≡ ids grown.entries = ground (arith, bad.sealed, latest) in
        let (rest, names) = grown_ids l segment later fresh in
        not-append_self (ids l.entries) rest segment.id (sym before ∙ after ∙ names))
  ]

  resealed :
      (l : PromptLedger) (segments : List Segment)
      → IsRestorable digest l
      → l.generation < 2 ^ 64 - 1
      → let grown = append_all digest l segments in
        from_snapshot digest (snapshot (seal_generation digest grown).0)
        ≡ ok (seal_generation digest grown).0
  unfolding seal_generation prefix_hash
  resealed l segments r room =
      let grown = append_all digest l segments in
      let linked =
        append_all-IsLinked digest l segments
          (record { chained = r.chained; distinct = r.distinct; counted = r.counted }) in
      (from_snapshot_iff digest (snapshot (seal_generation digest grown).0)
          (seal_generation digest grown).0).1
        (
          refl,
          record {
            chained = linked.chained;
            distinct = linked.distinct;
            counted = linked.counted;
            sealed = (rw (append_all-sealed digest l segments).1 room, refl, refl, refl);
          },
        )

  -- A seal describes the whole ledger as it was. Once a segment is appended to a sealed ledger that can
  -- be resumed, the snapshot is one that a resume refuses, and stays so whatever is appended after it;
  -- the next seal makes it one that is resumed again, as long as the generations are not used up.
  pub append_after_seal :
      (l : PromptLedger) (segment : Segment) (later : List Segment)
      → IsRestorable digest l
      → l.latest_generation ≢ none
      → mem segment.id (ids l.entries) ≡ false
      → l.generation < 2 ^ 64 - 1
      → let grown = append_all digest l (segment ∷ later) in
        (from_snapshot digest (snapshot grown) ≡ err invalid_snapshot)
        × (from_snapshot digest (snapshot (seal_generation digest grown).0)
            ≡ ok (seal_generation digest grown).0)
  append_after_seal l segment later r sealed fresh room =
      (refused_until_sealed l segment later r sealed fresh, resealed l (segment ∷ later) r room)
