-- ===== src/Prompt/Ledger/Appending.antt =====
-- What appending keeps: the prefix that is there already, and that the ledger can be restored.
use mathlib.Core.List.{append_assoc, append-nil}
use supra_harness.Prelude.{
  ℕ, suc, ◌+◌, ◌≡◌, inl, inr, refl, ap, sym, ◌∙◌, false, ◌||◌, none, List, [], ◌∷◌, ◌++◌, ok,
  length, length-append, Bool-cases, arith, ◌==◌,
}
use supra_harness.Canonical.{Bytes}
use supra_harness.Segment.{Segment}
use supra_harness.Prompt.Sealed.{Sealed, seal}
use supra_harness.Prompt.Ledger.{PromptLedger, new, ids, mem, snapshot, append, from_snapshot}
use supra_harness.Prompt.Ledger.Snapshots.{Distinct, Chained, IsRestorable, from_snapshot_iff}

pub ids-append : (es fs : List Sealed) → ids (es ++ fs) ≡ ids es ++ ids fs
ids-append [] fs = refl
ids-append (e ∷ es) fs = ap (λ l. e.value.id ∷ l) (ids-append es fs)

pub mem-append : (x y : ℕ) (xs : List ℕ) → mem x (xs ++ y ∷ []) ≡ (mem x xs || y == x)
mem-append x y [] = ground arith
mem-append x y (z ∷ xs) = ground (arith, mem-append x y xs)

Distinct-append : (xs : List ℕ) (y : ℕ) → Distinct xs → mem y xs ≡ false → Distinct (xs ++ y ∷ [])
Distinct-append [] y d h = (refl, tt)
Distinct-append (x ∷ xs) y d h = ground (arith, Distinct-append xs y, mem-append x y xs)

module _ (digest : Bytes → Bytes) where
  Chained-append :
      (n : ℕ) (es : List Sealed) (segment : Segment)
      → Chained digest n es
      → Chained digest n (es ++ seal digest (n + length es) segment ∷ [])
  unfolding seal
  Chained-append n [] segment h = (omega arith, refl, tt)
  Chained-append n (e ∷ es) segment h =
      let rest = Chained-append (suc n) es segment h.2 in
      let at : suc n + length es ≡ n + suc (length es) = omega arith in (h.0, h.1, rw at at rest)

  -- The ledger after the appends of a session, those refused included.
  unfoldable pub append_all : PromptLedger → List Segment → PromptLedger
  append_all l [] = l
  append_all l (segment ∷ segments) = append_all (append digest l segment).0 segments

  append_prefix :
      (l : PromptLedger) (segment : Segment)
      → (rest : List Sealed) × ((append digest l segment).0.entries ≡ l.entries ++ rest)
  unfolding append
  append_prefix l segment = elim (Bool-cases (mem segment.id (ids l.entries))) [
    | inl old ↦ ([], rw old (sym (append-nil l.entries)))
    | inr fresh ↦ (seal digest l.next_seq segment ∷ [], rw fresh)
  ]

  -- The prefix is append-only: whatever is appended, accepted or refused, the entries that were there
  -- stay at the front with their sequence numbers, hashes and segments unchanged.
  pub append_all_prefix :
      (l : PromptLedger) (segments : List Segment)
      → (rest : List Sealed) × ((append_all l segments).entries ≡ l.entries ++ rest)
  unfolding append_all
  append_all_prefix l [] = ([], sym (append-nil l.entries))
  append_all_prefix l (segment ∷ segments) =
      let (first, e) = append_prefix l segment in
      let (later, f) = append_all_prefix (append digest l segment).0 segments in
      (first ++ later, f ∙ ap (λ es. es ++ later) e ∙ append_assoc l.entries first later)

  -- The entries of a ledger, without its seals.
  pub record IsLinked (l : PromptLedger) : Type 0 where
    pub chained : Chained digest 0 l.entries
    pub distinct : Distinct (ids l.entries)
    pub counted : l.next_seq ≡ length l.entries

  append-IsLinked :
      (l : PromptLedger) (segment : Segment) → IsLinked l → IsLinked (append digest l segment).0
  unfolding append
  append-IsLinked l segment r = elim (Bool-cases (mem segment.id (ids l.entries))) [
    | inl old ↦ rw old r
    | inr fresh ↦
        let at : 0 + length l.entries ≡ l.next_seq = omega (arith, r.counted) in
        let made = Chained-append 0 l.entries segment r.chained in
        let unique = Distinct-append (ids l.entries) segment.id r.distinct fresh in
        rw fresh (record {
          chained = rw at at made;
          distinct = rw ids-append unique;
          counted =
              omega
                (arith, r.counted, length-append l.entries (seal digest l.next_seq segment ∷ []));
        })
  ]

  pub append_all-IsLinked :
      (l : PromptLedger) (segments : List Segment) → IsLinked l → IsLinked (append_all l segments)
  unfolding append_all
  append_all-IsLinked l [] h = h
  append_all-IsLinked l (segment ∷ segments) h =
      append_all-IsLinked (append digest l segment).0 segments (append-IsLinked l segment h)

  append-sealed :
      (l : PromptLedger) (segment : Segment)
      → ((append digest l segment).0.latest_generation ≡ l.latest_generation)
        × ((append digest l segment).0.generation ≡ l.generation)
  unfolding append
  append-sealed l segment = elim (Bool-cases (mem segment.id (ids l.entries))) [
    | inl old ↦ rw old (refl, refl)
    | inr fresh ↦ rw fresh (refl, refl)
  ]

  -- Appending leaves the last seal and the generation alone.
  pub append_all-sealed :
      (l : PromptLedger) (segments : List Segment)
      → ((append_all l segments).latest_generation ≡ l.latest_generation)
        × ((append_all l segments).generation ≡ l.generation)
  unfolding append_all
  append_all-sealed l [] = (refl, refl)
  append_all-sealed l (segment ∷ segments) =
      let here = append-sealed l segment in
      let later = append_all-sealed (append digest l segment).0 segments in
      (later.0 ∙ here.0, later.1 ∙ here.1)

  append_all-IsRestorable :
      (l : PromptLedger) (segments : List Segment)
      → l.latest_generation ≡ none
      → IsRestorable digest l
      → IsRestorable digest (append_all l segments)
  append_all-IsRestorable l segments none_yet r =
      let kept = append_all-sealed l segments in
      let linked =
        append_all-IsLinked l segments
          (record { chained = r.chained; distinct = r.distinct; counted = r.counted }) in
      record {
        chained = linked.chained;
        distinct = linked.distinct;
        counted = linked.counted;
        sealed = ground (arith, r.sealed, none_yet, kept.0, kept.1);
      }

  new-IsRestorable : IsRestorable digest new
  unfolding new
  new-IsRestorable = record { chained = tt; distinct = tt; counted = refl; sealed = refl }

  -- A session that only appends can be resumed: the snapshot of its ledger, after any segments,
  -- accepted or refused, is restored to that very ledger.
  pub resume_appended :
      (segments : List Segment)
      → from_snapshot digest (snapshot (append_all new segments)) ≡ ok (append_all new segments)
  resume_appended segments =
      (from_snapshot_iff digest (snapshot (append_all new segments)) (append_all new segments)).1
        (refl, append_all-IsRestorable new segments (unfold new in refl) new-IsRestorable)
