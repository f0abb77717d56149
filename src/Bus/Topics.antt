-- ===== src/Bus/Topics.antt =====
-- Topics and the sets of them: crates/supra_types/src/event.rs and
-- crates/supra_eventbus/src/topic.rs. A set is the u16 of its bits; every shift here stays below
-- bit 11, so nothing wraps.
use Prim.Native.Nat.{bit_and, bit_or}
use supra_harness.Prelude.{ℕ, ◌-◌, ◌^◌, Bool, not, List, [], ◌∷◌, ◌==◌}

pub data Topic : Type 0 where
  session turn prompt cache provider cohort tool gate guard journal digest : Topic

abbrev pub all_topics : List Topic
all_topics =
    session ∷ turn ∷ prompt ∷ cache ∷ provider ∷ cohort ∷ tool ∷ gate ∷ guard ∷ journal ∷ digest
    ∷ []

abbrev pub TopicSet : Type 0
TopicSet = ℕ

unfoldable pub index : Topic → ℕ
index session = 0
index turn = 1
index prompt = 2
index cache = 3
index provider = 4
index cohort = 5
index tool = 6
index gate = 7
index guard = 8
index journal = 9
index digest = 10

abbrev pub no_topics : TopicSet
no_topics = 0

unfoldable pub of_topic : Topic → TopicSet
unfolding index
of_topic topic = 2 ^ index topic

unfoldable pub with_topic : TopicSet → Topic → TopicSet
unfolding of_topic
with_topic set topic = bit_or set (of_topic topic)

unfoldable pub with_all : TopicSet → List Topic → TopicSet
unfolding with_topic
with_all set [] = set
with_all set (t ∷ ts) = with_all (with_topic set t) ts

unfoldable pub every_topic : TopicSet
unfolding with_all
every_topic = with_all no_topics all_topics

unfoldable pub without : TopicSet → Topic → TopicSet
unfolding of_topic
without set topic = bit_and set (65535 - of_topic topic)

unfoldable pub contains : TopicSet → Topic → Bool
unfolding of_topic
contains set topic = not (bit_and set (of_topic topic) == 0)

unfoldable pub is_empty : TopicSet → Bool
is_empty set = set == 0

unfoldable pub union : TopicSet → TopicSet → TopicSet
union set other = bit_or set other

unfoldable pub intersection : TopicSet → TopicSet → TopicSet
intersection set other = bit_and set other
