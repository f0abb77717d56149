-- ===== src/Examples/BusRuns.antt =====
-- Runs of crates/supra_eventbus/src/bus.rs and crates/supra_eventbus/src/topic.rs.
use supra_harness.Prelude.{ℕ, ◌≡◌, refl, true, false, List, [], ◌∷◌}
use supra_harness.Bus.Topics.{
  every_topic, with_topic, contains, no_topics, tool, index, of_topic, without,
}
use supra_harness.Bus.Shedding.{IsAccounted}
use supra_harness.Bus.Accounting.{Action, offered, asked, act_all, subscribed, every_loss_counted}

-- A ring of two: three events overflow it, then a receive, an offer that finds the lock held, and one
-- more event.
abbrev stalled : List (Action ℕ)
stalled =
    offered false 50
    ∷ offered false 51
    ∷ offered false 52
    ∷ asked
    ∷ offered true 53
    ∷ offered false 54
    ∷ asked
    ∷ asked
    ∷ []

every_loss_counted_example :
    IsAccounted
      (act_all stalled (subscribed 1 2)).offers
      (act_all stalled (subscribed 1 2)).got
      (act_all stalled (subscribed 1 2)).slot
every_loss_counted_example = every_loss_counted 1 2 stalled

stalled_received :
    (act_all stalled (subscribed 1 2)).got
    ≡ record { seq = 1; event = 51; missed_before = 1 }
      ∷ record { seq = 2; event = 52; missed_before = 0 }
      ∷ record { seq = 4; event = 54; missed_before = 1 }
      ∷ []
unfolding act_all subscribed
stalled_received = refl

all_eleven : every_topic ≡ 2047
unfolding every_topic
all_eleven = refl

with_tool : contains (with_topic no_topics tool) tool ≡ true
unfolding contains with_topic of_topic index
with_tool = refl

without_tool : contains (without every_topic tool) tool ≡ false
unfolding contains without every_topic of_topic index
without_tool = refl
