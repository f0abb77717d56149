-- ===== src/Bus.antt =====
-- The event bus: crates/supra_eventbus/src/bus.rs. Events are of any type. A slot lives in the bus
-- behind a weak pointer: `alive` says whether its subscription still exists, and `held` whether
-- another thread holds the lock of its queue at the moment.
pub mod Topics
pub mod Shedding
pub mod Accounting
pub mod Events
use supra_harness.Prelude.{
  ℕ, zero, suc, ◌+◌, Bool, true, false, not, ◌&&◌, Option, none, some, List, [], ◌∷◌, ◌++◌, Result,
  ok, err, ltb, leb, ◌==◌, if◌then◌else◌, length, map, keep,
}
use Topics.{Topic, TopicSet, contains}

abbrev pub default_capacity : ℕ
default_capacity = 1024

pub record Delivery (E : Type 0) : Type 0 where
  pub seq : ℕ
  pub event : E
  pub missed_before : ℕ

pub data RecvError : Type 0 where
  empty timeout closed_bus : RecvError

pub record Slot (E : Type 0) : Type 0 where
  pub topics : TopicSet
  pub ring : List (Delivery E)
  pub capacity : ℕ
  pub closed : Bool
  pub pending_missed : ℕ
  pub missed_total : ℕ
  pub alive : Bool
  pub held : Bool

pub record Bus (E : Type 0) : Type 0 where
  pub subscriptions : List (Slot E)
  pub next_seq : ℕ

-- The ring, the loss and the number of deliveries dropped so far.
pub record Shed (E : Type 0) : Type 0 where
  pub kept : List (Delivery E)
  pub loss : ℕ
  pub dropped : ℕ

module _ {E : Type 0} where
  -- `while ring.len() >= capacity`: the oldest deliveries are dropped.
  unfoldable pub shed : ℕ → List (Delivery E) → ℕ → ℕ → Shed E
  shed capacity [] loss dropped = record { kept = []; loss = loss; dropped = dropped }
  shed capacity (d ∷ ds) loss dropped =
      let rest = shed capacity ds (loss + (d.missed_before + 1)) (dropped + 1) in
      if leb capacity (length (d ∷ ds))
      then rest
      else record { kept = d ∷ ds; loss = loss; dropped = dropped }

  -- The loss is reported by the delivery that is now in front, or kept for the next one.
  unfoldable pub charge : ℕ → Slot E → Slot E
  charge loss s = elim s.ring [
    | [] ↦ record s { pending_missed = s.pending_missed + loss }
    | d ∷ ds ↦ record s { ring = record d { missed_before = d.missed_before + loss } ∷ ds }
  ]

  abbrev miss : Slot E → Slot E
  miss s = record s { pending_missed = s.pending_missed + 1; missed_total = s.missed_total + 1 }

  unfoldable pub offer : ℕ → E → Slot E → Slot E
  unfolding shed charge
  offer seq event s =
      if s.held
      then miss s
      else if s.capacity == 0
      then miss s
      else let shedding = shed s.capacity s.ring 0 0 in
        let s' = record s {
          ring = shedding.kept;
          missed_total = s.missed_total + shedding.dropped;
        } in
        let t = if ltb 0 shedding.loss then charge shedding.loss s' else s' in
        record t {
          ring =
              t.ring ++ record { seq = seq; event = event; missed_before = t.pending_missed } ∷ [];
          pending_missed = 0;
        }

  unfoldable pub close : Slot E → Slot E
  close s = record s { closed = true }

  unfoldable pub new : Bus E
  new = record { subscriptions = []; next_seq = 0 }

  -- The slot that a subscription holds from the start.
  unfoldable pub fresh_slot : TopicSet → ℕ → Slot E
  fresh_slot topics capacity = record {
    topics = topics;
    ring = [];
    capacity = capacity;
    closed = false;
    pending_missed = 0;
    missed_total = 0;
    alive = true;
    held = false;
  }

  unfoldable pub subscribe_with_capacity : Bus E → TopicSet → ℕ → Bus E
  unfolding fresh_slot
  subscribe_with_capacity b topics capacity = record b {
    subscriptions = keep (λ s. s.alive) b.subscriptions ++ fresh_slot topics capacity ∷ [];
  }

  unfoldable pub subscribe : Bus E → TopicSet → Bus E
  unfolding subscribe_with_capacity
  subscribe b topics = subscribe_with_capacity b topics default_capacity

  -- What `publish` does to one living slot.
  unfoldable pub deliver : ℕ → Topic → E → Slot E → Slot E
  unfolding offer contains
  deliver seq topic event s = if contains s.topics topic then offer seq event s else s

  unfoldable pub publish : (E → Topic) → Bus E → E → Bus E × ℕ
  unfolding deliver
  publish topic_of b event = (
    record {
      subscriptions =
          map (deliver b.next_seq (topic_of event) event) (keep (λ s. s.alive) b.subscriptions);
      next_seq = b.next_seq + 1;
    },
    b.next_seq,
  )

  unfoldable pub subscriber_count : Bus E → Bus E × ℕ
  subscriber_count b =
      let living = keep (λ (s : Slot E). s.alive) b.subscriptions in
      (record b { subscriptions = living }, length living)

  -- Dropping the bus closes every slot that still has its subscription.
  unfoldable pub drop_bus : Bus E → List (Slot E)
  unfolding close
  drop_bus b = map (λ s. if s.alive then close s else s) b.subscriptions

  unfoldable pub try_recv : Slot E → Slot E × Result RecvError (Delivery E)
  try_recv s = elim s.ring [
    | d ∷ ds ↦ (record s { ring = ds }, ok d)
    | [] ↦ if s.closed then (s, err closed_bus) else (s, err empty)
  ]

  -- After the wait, which ends when the queue has an event, is closed, or the time is up.
  unfoldable pub recv_timeout : Bool → Slot E → Slot E × Result RecvError (Delivery E)
  recv_timeout timed_out s = elim s.ring [
    | d ∷ ds ↦ (record s { ring = ds }, ok d)
    | [] ↦
        if s.closed
        then (s, err closed_bus)
        else if timed_out
        then (s, err timeout)
        else (s, err empty)
  ]

  unfoldable pub drain : Slot E → Slot E × List (Delivery E)
  drain s = (record s { ring = [] }, s.ring)
