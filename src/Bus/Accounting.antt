-- ===== src/Bus/Accounting.antt =====
-- What a subscription loses is counted exactly: `Slot::offer` and `Subscription::try_recv` of
-- crates/supra_eventbus/src/bus.rs in any order, with the lock held or free at each offer.
use supra_harness.Prelude.{if-elim, ℕ, suc, refl, Bool, List, [], ◌∷◌, ◌++◌, Result, ok, err, arith}
use supra_harness.Bus.{Delivery, Slot, RecvError, offer, try_recv, fresh_slot}
use supra_harness.Bus.Topics.{TopicSet}
use supra_harness.Bus.Shedding.{Chain, IsAccounted, offer-IsAccounted, recv-IsAccounted}

-- What happens to one subscription: an event is offered while the lock is held or free, or the
-- subscriber asks for the next delivery.
pub data Action (E : Type 0) : Type 0 where
  offered : Bool → E → Action E
  asked : Action E

-- A slot, the deliveries that its subscriber received so far, and the number of events offered.
pub record History (E : Type 0) : Type 0 where
  pub slot : Slot E
  pub got : List (Delivery E)
  pub offers : ℕ

module _ {E : Type 0} where
  -- The subscriber keeps what a receive gave it.
  unfoldable pub settle : History E → Slot E × Result RecvError (Delivery E) → History E
  settle h (slot, ok d) = record h { slot = slot; got = h.got ++ d ∷ [] }
  settle h (slot, err e) = record h { slot = slot }

  unfoldable pub act : Action E → History E → History E
  unfolding offer try_recv settle
  act (offered held event) h = record {
    slot = offer h.offers event (record h.slot { held = held });
    got = h.got;
    offers = suc h.offers;
  }
  act asked h = settle h (try_recv h.slot)

  unfoldable pub act_all : List (Action E) → History E → History E
  unfolding act
  act_all [] h = h
  act_all (a ∷ actions) h = act_all actions (act a h)

  unfoldable pub subscribed : TopicSet → ℕ → History E
  unfolding fresh_slot
  subscribed topics capacity = record { slot = fresh_slot topics capacity; got = []; offers = 0 }

  ask-IsAccounted :
      (n : ℕ) (got : List (Delivery E)) (s : Slot E) (ring : List (Delivery E))
      → IsAccounted n got (record s { ring = ring })
      → (let h = act asked (record { slot = record s { ring = ring }; got = got; offers = n }) in
          IsAccounted h.offers h.got h.slot)
  unfolding act try_recv settle
  ask-IsAccounted n got s [] a =
      let before : History E = record { slot = record s { ring = [] }; got = got; offers = n } in
      if-elim (λ r. (let h = settle before r in IsAccounted h.offers h.got h.slot)) s.closed
        (λ _. a) (λ _. a)
  ask-IsAccounted n got s (d ∷ ds) a = recv-IsAccounted n got s d ds a

  act-IsAccounted :
      (a : Action E) (h : History E)
      → IsAccounted h.offers h.got h.slot
      → IsAccounted (act a h).offers (act a h).got (act a h).slot
  unfolding act
  act-IsAccounted (offered held event) h a =
      offer-IsAccounted h.offers event h.got (record h.slot { held = held })
        (record {
          next = a.next;
          last = a.last;
          received = a.received;
          buffered = a.buffered;
          pending = a.pending;
          counted = a.counted;
          bounded = a.bounded;
        })
  act-IsAccounted asked h a = ask-IsAccounted h.offers h.got h.slot h.slot.ring a

  act_all-IsAccounted :
      (actions : List (Action E)) (h : History E)
      → IsAccounted h.offers h.got h.slot
      → (let t = act_all actions h in IsAccounted t.offers t.got t.slot)
  unfolding act_all
  act_all-IsAccounted [] h a = a
  act_all-IsAccounted (action ∷ actions) h a =
      act_all-IsAccounted actions (act action h) (act-IsAccounted action h a)

  -- Every loss is counted, and reported where it happened. Number the events that a subscription is
  -- offered from 0, whatever the capacity, whichever offers find the lock held, and however the
  -- subscriber's receives fall between them: the deliveries received, then those buffered, carry
  -- increasing numbers, each exactly `missed_before` above the one expected after its predecessor, and the
  -- loss after the last one is `pending_missed`; `missed_total` is what was offered and neither received nor
  -- buffered; and the buffer is within its capacity.
  pub every_loss_counted :
      (topics : TopicSet) (capacity : ℕ) (actions : List (Action E))
      → (let t = act_all actions (subscribed topics capacity) in IsAccounted t.offers t.got t.slot)
  every_loss_counted topics capacity actions =
      act_all-IsAccounted actions (subscribed topics capacity) (
        unfold subscribed fresh_slot Chain in
        (record {
          next = 0;
          last = 0;
          received = refl;
          buffered = refl;
          pending = refl;
          counted = refl;
          bounded = omega arith;
        }))
