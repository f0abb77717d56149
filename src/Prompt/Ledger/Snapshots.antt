-- ===== src/Prompt/Ledger/Snapshots.antt =====
-- Which snapshots can be restored: the proof that `from_snapshot` demands, and what keeps it.
use supra_harness.Prelude.{
  ℕ, suc, ◌+◌, ◌-◌, ◌^◌, ◌<◌, ◌≡◌, ◌↔◌, ◌⊎◌, inl, inr, refl, sym, true, false, Option, none, some,
  List, [], ◌∷◌, ok, err, length, arith, Result-cases, Option-cases,
}
use supra_harness.Canonical.{Bytes, bytes_eq_iff}
use supra_harness.Prompt.Error.{invalid_snapshot}
use supra_harness.Prompt.Sealed.{Sealed, content_hash, verify}
use supra_harness.Prompt.Ledger.{
  PromptLedger, LedgerSnapshot, Generation, ids, mem, snapshot, hash_sequence, validate_entries,
  validate_seal, validate_snapshot, from_snapshot,
}

abbrev pub Distinct : List ℕ → Type 0
Distinct [] = Unit {0}
Distinct (x ∷ xs) = (mem x xs ≡ false) × Distinct xs

-- None of the ids of the entries was seen before.
abbrev pub Unseen : List ℕ → List Sealed → Type 0
Unseen seen [] = Unit {0}
Unseen seen (e ∷ es) = (mem e.value.id seen ≡ false) × Unseen seen es

Unseen-cons :
    (id : ℕ) (seen : List ℕ) (es : List Sealed)
    → Unseen (id ∷ seen) es ↔ ((mem id (ids es) ≡ false) × Unseen seen es)
Unseen-cons id seen [] = (λ h. (refl, tt), λ h. tt)
Unseen-cons id seen (e ∷ es) = (
  λ h. ground (arith, (Unseen-cons id seen es).0),
  λ h. ground (arith, (Unseen-cons id seen es).1),
)

pub Unseen-nil : (es : List Sealed) → Unseen [] es
Unseen-nil [] = tt
Unseen-nil (e ∷ es) = (refl, Unseen-nil es)

module _ (digest : Bytes → Bytes) where
  -- The sequence numbers count from `n`, and every hash is that of its value.
  abbrev pub Chained : ℕ → List Sealed → Type 0
  Chained n [] = Unit {0}
  Chained n (e ∷ es) = (e.seq ≡ n) × (e.hash ≡ content_hash digest e.value) × Chained (suc n) es

  -- What the last seal says of the entries.
  abbrev pub SealFits : Option Generation → ℕ → List Sealed → Type 0
  SealFits none generation entries = generation ≡ 0
  SealFits (some sealed) generation entries =
      (sealed.generation < 2 ^ 64 - 1)
      × (generation ≡ sealed.generation + 1)
      × (sealed.segments ≡ ids entries)
      × (sealed.prefix_hash ≡ hash_sequence digest entries)

  pub record IsRestorable (l : PromptLedger) : Type 0 where
    pub chained : Chained 0 l.entries
    pub distinct : Distinct (ids l.entries)
    pub counted : l.next_seq ≡ length l.entries
    pub sealed : SealFits l.latest_generation l.generation l.entries

  verify_iff : (e : Sealed) → (verify digest e ≡ true) ↔ (e.hash ≡ content_hash digest e.value)
  unfolding verify
  verify_iff e = (
    λ h. sym ((bytes_eq_iff (content_hash digest e.value) e.hash).0 h),
    λ h. (bytes_eq_iff (content_hash digest e.value) e.hash).1 (sym h),
  )

  validate_entries_iff :
      (n : ℕ) (seen : List ℕ) (es : List Sealed)
      → (validate_entries digest n seen es ≡ ok tt)
        ↔ (Chained n es × Distinct (ids es) × Unseen seen es)
  unfolding validate_entries
  validate_entries_iff n seen [] = (λ h. (tt, tt, tt), λ h. refl)
  validate_entries_iff n seen (e ∷ es) =
      let rest = validate_entries_iff (suc n) (e.value.id ∷ seen) es in
      let shift = Unseen-cons e.value.id seen es in
      (
        λ h.
            let parts = rest.0 (ground (arith, h)) in
            let unseen = shift.0 parts.2 in
            (
              (ground (arith, h), (verify_iff e).0 (ground (arith, h)), parts.0),
              (unseen.0, parts.1),
              (ground (arith, h), unseen.1),
            ),
        λ h.
            let valid = (verify_iff e).1 h.0.1 in
            let tail = rest.1 (h.0.2, h.1.1, shift.1 (h.1.0, h.2.1)) in
            ground (arith, valid, tail, h.0.0, h.2.0),
      )

  validate_seal_iff :
      (s : LedgerSnapshot)
      → (validate_seal digest s ≡ ok tt) ↔ SealFits s.latest_generation s.generation s.entries
  unfolding validate_seal
  validate_seal_iff s = elim (Option-cases s.latest_generation) [
    | inl e ↦ rw e (ground arith)
    | inr (sealed, e) ↦
        let same_ids = bytes_eq_iff sealed.segments (ids s.entries) in
        let same_hash = bytes_eq_iff sealed.prefix_hash (hash_sequence digest s.entries) in
        rw e (λ h. ground arith, λ h. ground arith)
  ]

  validate_snapshot_iff :
      (s : LedgerSnapshot)
      → (validate_snapshot digest s ≡ ok tt) ↔ (
          (validate_entries digest 0 [] s.entries ≡ ok tt)
          × (s.next_seq ≡ length s.entries)
          × (validate_seal digest s ≡ ok tt))
  unfolding validate_snapshot
  validate_snapshot_iff s = elim (Result-cases (validate_entries digest 0 [] s.entries)) [
    | inl (u, e) ↦ rw e (λ h. ground arith, λ h. ground arith)
    | inr (x, e) ↦ rw e (λ h. ground arith, λ h. ground arith)
  ]

  IsRestorable-iff :
      (l : PromptLedger) → (validate_snapshot digest (snapshot l) ≡ ok tt) ↔ IsRestorable l
  unfolding snapshot
  IsRestorable-iff l =
      let whole = validate_snapshot_iff (snapshot l) in
      let entries = validate_entries_iff 0 [] l.entries in
      let seals = validate_seal_iff (snapshot l) in
      (
        λ h.
            let parts = whole.0 h in
            let walked = entries.0 parts.0 in
            record {
              chained = walked.0;
              distinct = walked.1;
              counted = parts.1;
              sealed = seals.0 parts.2;
            },
        λ r.
            whole.1 (
              entries.1 (r.chained, r.distinct, Unseen-nil l.entries),
              r.counted,
              seals.1 r.sealed,
            ),
      )

  -- A snapshot is restored exactly when it is that of the ledger returned and its sequence numbers
  -- count from zero without gaps, every hash is the hash of its segment, no id stands twice, the next
  -- sequence number is the number of entries, and the last seal, if there is one, was the last number
  -- given out, names the ids of the entries in order and has the hash of the sequence.
  pub from_snapshot_iff :
      (s : LedgerSnapshot) (l : PromptLedger)
      → (from_snapshot digest s ≡ ok l) ↔ ((s ≡ snapshot l) × IsRestorable l)
  unfolding from_snapshot
  from_snapshot_iff s l = (
    λ h.
        let checked : validate_snapshot digest s ≡ ok tt = ground (arith, h) in
        let same : s ≡ snapshot l = unfold snapshot in ground (arith, h) in
        (same, (IsRestorable-iff l).0 (rw same at checked)),
    λ h.
        let valid = (IsRestorable-iff l).1 h.1 in rw h.0 (unfold snapshot in ground (arith, valid)),
  )

  validate_entries_cases :
      (n : ℕ) (seen : List ℕ) (es : List Sealed)
      → (validate_entries digest n seen es ≡ ok tt)
        ⊎ (validate_entries digest n seen es ≡ err invalid_snapshot)
  unfolding validate_entries
  validate_entries_cases n seen [] = inl refl
  validate_entries_cases n seen (e ∷ es) =
      ground (arith, validate_entries_cases (suc n) (e.value.id ∷ seen) es)

  validate_snapshot_cases :
      (s : LedgerSnapshot)
      → (validate_snapshot digest s ≡ ok tt) ⊎ (validate_snapshot digest s ≡ err invalid_snapshot)
  unfolding validate_snapshot
  validate_snapshot_cases s = ground (arith, validate_entries_cases 0 [] s.entries)

  -- A snapshot that is not restorable is refused as such.
  pub not_restorable_err :
      (l : PromptLedger)
      → ¬ IsRestorable l
      → from_snapshot digest (snapshot l) ≡ err invalid_snapshot
  unfolding from_snapshot
  not_restorable_err l bad = elim (validate_snapshot_cases (snapshot l)) [
    | inl valid ↦ absurd (bad ((IsRestorable-iff l).0 valid))
    | inr refused ↦ ground (arith, refused)
  ]
