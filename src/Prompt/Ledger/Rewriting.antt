-- ===== src/Prompt/Ledger/Rewriting.antt =====
-- The generation rewrite: what it moves, and what its sequence numbers do to a later resume.
use native.Mathlib.Nat.{add-zero}
use native.Mathlib.Numerals.{add-one}
use mathlib.Core.List.{append_assoc, append-nil}
use supra_harness.Prelude.{
  ℕ, suc, ◌+◌, ◌≡◌, ◌≢◌, refl, ap, sym, ◌∙◌, false, List, [], ◌∷◌, ◌++◌, ok, err, length, arith,
  subst,
}
use supra_harness.Canonical.{Bytes, bytes_eq_refl}
use supra_harness.Segment.{Segment}
use supra_harness.Prompt.Error.{PromptError, invalid_snapshot}
use supra_harness.Prompt.Sealed.{Sealed, seal}
use supra_harness.Prompt.Ledger.{
  PromptLedger, ids, mem, snapshot, append, append_live, clear_for_rewrite, seal_generation,
  rewrite, verify_rewrite, from_snapshot,
}
use supra_harness.Prompt.Ledger.Snapshots.{
  Distinct, Unseen, Unseen-nil, Chained, IsRestorable, not_restorable_err,
}
use supra_harness.Prompt.Ledger.Appending.{mem-append, ids-append}

Unseen-snoc :
    (id : ℕ) (seen : List ℕ) (es : List Sealed)
    → mem id (ids es) ≡ false
    → Unseen seen es
    → Unseen (seen ++ id ∷ []) es
Unseen-snoc id seen [] h u = tt
Unseen-snoc id seen (e ∷ es) h u =
    ground (arith, mem-append e.value.id id seen, Unseen-snoc id seen es)

-- The segments of the entries, in order.
abbrev pub values : List Sealed → List Segment
values [] = []
values (e ∷ es) = e.value ∷ values es

module _ (digest : Bytes → Bytes) where
  -- The same segments sealed again, with sequence numbers from `n`.
  abbrev pub reseal : ℕ → List Sealed → List Sealed
  reseal n [] = []
  reseal n (e ∷ es) = seal digest n e.value ∷ reseal (suc n) es

  append_fresh :
      (l : PromptLedger) (segment : Segment)
      → mem segment.id (ids l.entries) ≡ false
      → append digest l segment ≡ (
        record l {
          entries = l.entries ++ seal digest l.next_seq segment ∷ [];
          next_seq = l.next_seq + 1;
        },
        ok l.next_seq,
      )
  unfolding append
  append_fresh l segment h = rw h

  append_live_lem :
      (es : List Sealed) (l : PromptLedger) (skipped : List PromptError)
      → Distinct (ids es)
      → Unseen (ids l.entries) es
      → append_live digest es l skipped ≡ (
        record l { entries = l.entries ++ reseal l.next_seq es; next_seq = l.next_seq + length es },
        skipped,
      )
  unfolding append_live
  append_live_lem [] l skipped d u = rw (append-nil, add-zero)
  append_live_lem (e ∷ es) l skipped d u =
      let x = seal digest l.next_seq e.value in
      let l' = record l { entries = l.entries ++ x ∷ []; next_seq = l.next_seq + 1 } in
      let seen : ids (l.entries ++ x ∷ []) ≡ ids l.entries ++ e.value.id ∷ [] =
        unfold seal in ids-append l.entries (x ∷ []) in
      let unseen : Unseen (ids (l.entries ++ x ∷ [])) es =
        rw seen (Unseen-snoc e.value.id (ids l.entries) es d.0 u.1) in
      let moved : (l.entries ++ x ∷ []) ++ reseal (l.next_seq + 1) es
          ≡ l.entries ++ (x ∷ reseal (suc l.next_seq) es) =
        rw add-one (append_assoc l.entries (x ∷ []) (reseal (suc l.next_seq) es)) in
      let counted : l.next_seq + 1 + length es ≡ l.next_seq + suc (length es) = omega arith in
      rw (append_fresh l e.value u.0) (
        append_live_lem es l' skipped d.1 unseen ∙ λ i.
        (record l { entries = moved i; next_seq = counted i }, skipped))

  -- The ledger that a rewrite leaves, when no id stands twice.
  rewrite_lem :
      (l : PromptLedger)
      → Distinct (ids l.entries)
      → ((rewrite digest l).0.entries ≡ reseal l.next_seq l.entries)
        × ((rewrite digest l).1.0.segments ≡ ids l.entries)
        × ((rewrite digest l).1.1.segments ≡ ids (reseal l.next_seq l.entries))
        × ((rewrite digest l).1.2 ≡ [])
  unfolding rewrite
  rewrite_lem l d =
      let cleared = clear_for_rewrite (seal_generation digest l).0 in
      let moved = append_live_lem l.entries cleared [] d (Unseen-nil l.entries) in
      (
        ap (λ (r : PromptLedger × List PromptError). r.0.entries) moved,
        refl,
        ap (λ (r : PromptLedger × List PromptError). ids r.0.entries) moved,
        ap (λ (r : PromptLedger × List PromptError). r.1) moved,
      )

  values-reseal : (n : ℕ) (es : List Sealed) → values (reseal n es) ≡ values es
  unfolding seal
  values-reseal n [] = refl
  values-reseal n (e ∷ es) = ap (λ l. e.value ∷ l) (values-reseal (suc n) es)

  ids-reseal : (n : ℕ) (es : List Sealed) → ids (reseal n es) ≡ ids es
  unfolding seal
  ids-reseal n [] = refl
  ids-reseal n (e ∷ es) = ap (λ l. e.value.id ∷ l) (ids-reseal (suc n) es)

  -- A rewrite of a ledger in which no id stands twice moves its segments and changes none: the new
  -- entries hold the same segments in the same order, no segment is refused, and the two seals of the
  -- rewrite verify against each other.
  pub rewrite_moves :
      (l : PromptLedger)
      → Distinct (ids l.entries)
      → (values (rewrite digest l).0.entries ≡ values l.entries)
        × ((rewrite digest l).1.2 ≡ [])
        × (verify_rewrite (rewrite digest l).1.0 (rewrite digest l).1.1 ≡ ok tt)
  unfolding verify_rewrite
  rewrite_moves l d =
      let made = rewrite_lem l d in
      let same : (rewrite digest l).1.0.segments ≡ (rewrite digest l).1.1.segments =
        made.1 ∙ sym (made.2 ∙ ids-reseal l.next_seq l.entries) in
      (
        ap values made.0 ∙ values-reseal l.next_seq l.entries,
        made.3,
        ground (arith, same, bytes_eq_refl (rewrite digest l).1.1.segments),
      )

  -- The sequence numbers of a rewritten ledger do not restart: a restorable ledger that is not empty
  -- is, once rewritten, refused by the very check that a resume makes of its snapshot.
  pub rewrite_not_restorable :
      (l : PromptLedger)
      → IsRestorable digest l
      → l.entries ≢ []
      → from_snapshot digest (snapshot (rewrite digest l).0) ≡ err invalid_snapshot
  rewrite_not_restorable l r filled = not_restorable_err digest (rewrite digest l).0 (λ bad.
      first_seq l.entries r.counted filled
        (subst (Chained digest 0) (rewrite_lem l r.distinct).0 bad.chained))
    where
      first_seq :
          (es : List Sealed)
          → l.next_seq ≡ length es
          → es ≢ []
          → ¬ Chained digest 0 (reseal l.next_seq es)
      first_seq [] n filled c = filled refl
      first_seq (e ∷ es) n filled c =
          unfold seal in (let z : l.next_seq ≡ 0 = c.0 in omega (arith, n, z))
