-- ===== src/Bus/Shedding.antt =====
-- Making room in a subscription's ring, and pushing: the parts of `Slot::offer` in
-- crates/supra_eventbus/src/bus.rs.
use supra_harness.Prelude.{
  if-elim, ℕ, suc, ◌+◌, ◌≤◌, ◌<◌, ◌≡◌, inl, inr, refl, sym, Bool-cases, List, [], ◌∷◌, ◌++◌, ltb,
  leb, ◌==◌, length, length-append, arith, if◌then◌else◌, subst,
}
use supra_harness.Bus.{Delivery, Slot, Shed, shed, charge, offer, miss}

module _ {E : Type 0} where
  -- Deliveries numbered from the first sequence number on, each after the gap it reports, up to the
  -- last number.
  unfoldable pub Chain : ℕ → List (Delivery E) → ℕ → Type 0
  Chain p [] q = p ≡ q
  Chain p (d ∷ ds) q = (d.seq ≡ p + d.missed_before) × Chain (suc d.seq) ds q

  pub Chain-append :
      (p q r : ℕ) (ds es : List (Delivery E)) → Chain p ds q → Chain q es r → Chain p (ds ++ es) r
  unfolding Chain
  Chain-append p q r [] es h k = subst (λ x. Chain x es r) (sym h) k
  Chain-append p q r (d ∷ ds) es h k = (h.0, Chain-append (suc d.seq) q r ds es h.1 k)

  record IsShed (capacity p q loss dropped : ℕ) (ds : List (Delivery E)) (t : Shed E) : Type 0 where
    lost : ℕ
    reported : t.loss ≡ loss + lost
    chained : Chain (p + lost) t.kept q
    counted : t.dropped + length t.kept ≡ dropped + length ds
    fits : length t.kept < capacity

  shed-IsShed :
      (capacity p q loss dropped : ℕ) (ds : List (Delivery E))
      → 0 < capacity
      → Chain p ds q
      → IsShed capacity p q loss dropped ds (shed capacity ds loss dropped)
  unfolding Chain shed
  shed-IsShed capacity p q loss dropped [] room h = record {
    lost = 0;
    reported = omega arith;
    chained = omega (arith, h);
    counted = omega arith;
    fits = room;
  }
  shed-IsShed capacity p q loss dropped (d ∷ ds) room h =
      let rest =
        shed-IsShed capacity (suc d.seq) q (loss + (d.missed_before + 1)) (dropped + 1) ds room
          h.1 in
      elim (Bool-cases (leb capacity (length (d ∷ ds)))) [
        | inl full ↦
            let at : suc d.seq + rest.lost ≡ p + (d.missed_before + 1 + rest.lost) =
              omega (arith, h.0) in
            rw full (record {
              lost = d.missed_before + 1 + rest.lost;
              reported = omega (arith, rest.reported);
              chained =
                  subst
                    (λ x.
                      Chain x (shed capacity ds (loss + (d.missed_before + 1)) (dropped + 1)).kept
                        q)
                    at rest.chained;
              counted = omega (arith, rest.counted);
              fits = rest.fits;
            })
        | inr free ↦ rw free (record {
          lost = 0;
          reported = omega arith;
          chained = (omega (arith, h.0), h.1);
          counted = refl;
          fits = ground arith;
        })
      ]

  -- What a subscriber and its slot know after `offered` offers.
  pub record IsAccounted (offered : ℕ) (got : List (Delivery E)) (s : Slot E) : Type 0 where
    pub next : ℕ
    pub last : ℕ
    pub received : Chain 0 got next
    pub buffered : Chain next s.ring last
    pub pending : last + s.pending_missed ≡ offered
    pub counted : s.missed_total + length got + length s.ring ≡ offered
    pub bounded : length s.ring ≤ s.capacity

  IsAccounted-miss :
      (n : ℕ) (got : List (Delivery E)) (s : Slot E)
      → IsAccounted n got s
      → IsAccounted (suc n) got (miss s)
  IsAccounted-miss n got s a = record {
    next = a.next;
    last = a.last;
    received = a.received;
    buffered = a.buffered;
    pending = omega (arith, a.pending);
    counted = omega (arith, a.counted);
    bounded = a.bounded;
  }

  -- A slot after room was made, before the new delivery is pushed.
  record HasRoom (n : ℕ) (got : List (Delivery E)) (s : Slot E) : Type 0 where
    next : ℕ
    last : ℕ
    received : Chain 0 got next
    buffered : Chain next s.ring last
    pending : last + s.pending_missed ≡ n
    counted : s.missed_total + length got + length s.ring ≡ n
    bounded : length s.ring < s.capacity

  charge-HasRoom :
      (n : ℕ) (got : List (Delivery E)) (s : Slot E) (ring : List (Delivery E)) (lost next last : ℕ)
      → Chain 0 got next
      → Chain (next + lost) ring last
      → last + s.pending_missed ≡ n
      → s.missed_total + length got + length ring ≡ n
      → length ring < s.capacity
      → HasRoom n got (charge lost (record s { ring = ring }))
  unfolding charge Chain
  charge-HasRoom n got s [] lost next last r b p c l = record {
    next = next;
    last = next;
    received = r;
    buffered = refl;
    pending = omega (arith, b, p);
    counted = c;
    bounded = l;
  }
  charge-HasRoom n got s (d ∷ ds) lost next last r b p c l = record {
    next = next;
    last = last;
    received = r;
    buffered = (omega (arith, b.0), b.1);
    pending = p;
    counted = c;
    bounded = l;
  }

  shed_slot : Slot E → Slot E
  unfolding shed charge
  shed_slot s =
      let shedding = shed s.capacity s.ring 0 0 in
      let s' = record s {
        ring = shedding.kept;
        missed_total = s.missed_total + shedding.dropped;
      } in
      if ltb 0 shedding.loss then charge shedding.loss s' else s'

  shed_slot-HasRoom :
      (n : ℕ) (got : List (Delivery E)) (s : Slot E)
      → 0 < s.capacity
      → IsAccounted n got s
      → HasRoom n got (shed_slot s)
  unfolding shed_slot
  shed_slot-HasRoom n got s room a =
      let t = shed s.capacity s.ring 0 0 in
      let made = shed-IsShed s.capacity a.next a.last 0 0 s.ring room a.buffered in
      let same : t.loss ≡ made.lost = omega (arith, made.reported) in
      let counted : s.missed_total + t.dropped + length got + length t.kept ≡ n =
        omega (arith, made.counted, a.counted) in
      let s' = record s { missed_total = s.missed_total + t.dropped } in
      let chained = subst (λ x. Chain (a.next + x) t.kept a.last) (sym same) made.chained in
      elim (Bool-cases (ltb 0 t.loss)) [
        | inl lossy ↦ rw lossy (
            charge-HasRoom n got s' t.kept t.loss a.next a.last a.received chained a.pending counted
              made.fits)
        | inr exact ↦
            let none_lost : a.next + t.loss ≡ a.next = ground (arith, exact) in
            rw exact (record {
              next = a.next;
              last = a.last;
              received = a.received;
              buffered = subst (λ x. Chain x t.kept a.last) none_lost chained;
              pending = a.pending;
              counted = counted;
              bounded = made.fits;
            })
      ]

  push-IsAccounted :
      (n : ℕ) (event : E) (got : List (Delivery E)) (s : Slot E)
      → HasRoom n got s
      → IsAccounted (suc n) got (record s {
        ring = s.ring ++ record { seq = n; event = event; missed_before = s.pending_missed } ∷ [];
        pending_missed = 0;
      })
  unfolding Chain
  push-IsAccounted n event got s h =
      let pushed : Delivery E = record {
        seq = n;
        event = event;
        missed_before = s.pending_missed;
      } in
      let grown = length-append s.ring (pushed ∷ []) in
      record {
        next = h.next;
        last = suc n;
        received = h.received;
        buffered =
            Chain-append h.next h.last (suc n) s.ring (pushed ∷ []) h.buffered
              (sym h.pending, refl);
        pending = omega arith;
        counted = omega (arith, grown, h.counted);
        bounded = omega (arith, grown, h.bounded);
      }

  pub offer-IsAccounted :
      (n : ℕ) (event : E) (got : List (Delivery E)) (s : Slot E)
      → IsAccounted n got s
      → IsAccounted (suc n) got (offer n event s)
  unfolding offer shed_slot Chain
  offer-IsAccounted n event got s a =
      let P = λ (t : Slot E). IsAccounted (suc n) got t in
      if-elim P s.held (λ _. IsAccounted-miss n got s a)
        (λ _.
          if-elim P (s.capacity == 0) (λ _. IsAccounted-miss n got s a)
            (λ some_room.
              let h = shed_slot-HasRoom n got s (ground (arith, some_room)) a in
              push-IsAccounted n event got (shed_slot s) h))

  pub recv-IsAccounted :
      (n : ℕ) (got : List (Delivery E)) (s : Slot E) (d : Delivery E) (ds : List (Delivery E))
      → IsAccounted n got (record s { ring = d ∷ ds })
      → IsAccounted n (got ++ d ∷ []) (record s { ring = ds })
  unfolding Chain
  recv-IsAccounted n got s d ds a = record {
    next = suc d.seq;
    last = a.last;
    received = Chain-append 0 a.next (suc d.seq) got (d ∷ []) a.received (a.buffered.0, refl);
    buffered = a.buffered.1;
    pending = a.pending;
    counted = omega (arith, a.counted, length-append got (d ∷ []));
    bounded = omega (arith, a.bounded);
  }
