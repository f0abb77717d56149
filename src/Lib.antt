-- ===== src/Lib.antt =====
-- supra-harness: the core logic of a coding-agent harness whose prompt prefix stays byte-stable and whose
-- peers decide by quorum.
--
-- The parts and how they interact. A prompt is a ledger of sealed segments (crates/supra_prompt over
-- crates/supra_types/src/segment.rs, sealed.rs and hash.rs): segments are only appended, each is sealed with
-- the hash of its canonical bytes, the ledger can be saved and resumed, and cache breakpoints are planned
-- over it under the limits of crates/supra_types/src/cache.rs. A task is scored into a tier, admitted under a
-- limit of peers and worked on by a cohort (crates/supra_types/src/cohort.rs, crates/supra_cohort); the peers
-- publish claims and vote on them on the blackboard (crates/supra_blackboard), which counts with the tally of
-- cohort.rs. Effects pass the permission gate (crates/supra_permission over
-- crates/supra_types/src/permission.rs). What happens is published on the event bus (crates/supra_eventbus).
-- A turn (crates/supra_core/src/turn.rs) drives these parts: it publishes its question on the blackboard as a
-- claim that the other peers vote on, takes the proposer's answer, announces each step on the bus and seals
-- the answer into the ledger when the quorum has accepted it. Turns that leave the prompt are evicted into a
-- table and recalled from it by their digest (crates/supra_prompt/src/evict.rs,
-- crates/supra_store/src/turns.rs); the values that change every turn stand outside the sealed prompt
-- (crates/supra_types/src/ephemeral.rs). Settings come from layers of configuration (crates/supra_config),
-- agents spawn agents under a limit of depth (crates/supra_types/src/lineage.rs), commands hang on points of
-- the life of a turn (crates/supra_hook), and exact vectors are kept in a cache of bounded size
-- (crates/supra_vector/src/cache.rs). What a terminal prints is shaped into a bounded transcript
-- (crates/supra_shell/src/shaping.rs).
--
-- Which file models what. Modules are named for the parts; a module below a part holds proofs about it.
--   Prelude      shared names, Boolean tests, lists, results, and OrdMap for the BTreeMap of the source
--   Canonical    CanonicalWriter of crates/supra_types/src/hash.rs
--   Segment      crates/supra_types/src/segment.rs: Block, MemoryIndexEntry, SegmentKind, Segment::new
--                (new), lookback_positions, first_interleaving, write_canonical (write_block, write_entry,
--                write_kind, write_segment)
--   Caching      crates/supra_types/src/cache.rs; Caching.Policy is crates/supra_llm/src/policy.rs
--   Prompt       Sealed is crates/supra_types/src/sealed.rs, Ledger is crates/supra_prompt/src/ledger.rs and
--                generation.rs, Breakpoints is crates/supra_prompt/src/breakpoints.rs
--   Cohort       Quorum, Tier, Verdict and Tally are crates/supra_types/src/cohort.rs (QuorumTally::record is
--                record_vote); Signals, Score, Admission and Profile are the files of crates/supra_cohort/src
--   Permission   Authority and Rules are crates/supra_types/src/permission.rs (Mode::decide is mode_decide);
--                Effect is crates/supra_permission/src/catalogue.rs, Gate is gate.rs (Batch::resolve is
--                resolve_batch)
--   Board        crates/supra_blackboard/src/board.rs; Tables is schema.rs and the tables it declares; Opening is
--                Blackboard::open
--   Bus          crates/supra_eventbus/src/bus.rs; Topics is topic.rs and the topics of
--                crates/supra_types/src/event.rs
--                Bus.Events is crates/supra_types/src/event.rs
--   Turn         crates/supra_core/src/turn.rs: State holds its types, Turn the operations start_shared, record
--                (record_answer) and finish
--   Prompt.Eviction  crates/supra_prompt/src/evict.rs with the two operations of
--                crates/supra_store/src/turns.rs (Store::evict_turn is store_turn, Store::recall_turn load_turn)
--   Config       Layer is crates/supra_config/src/source.rs and the decoded layers of layer.rs with their range
--                checks, Resolve is resolve.rs
--   Vectors      Cache is crates/supra_vector/src/cache.rs (ExactCache::get is look_up); Recency is the
--                specification it refines, a list of vectors in the order of their use
--   Lineage      crates/supra_types/src/lineage.rs
--   Ephemeral    crates/supra_types/src/ephemeral.rs
--   Hooks        Words is shell_words and Registry the rest of crates/supra_hook/src
--   Shell        crates/supra_shell/src/shaping.rs; Tokens holds what it takes from crates/supra_ffi, Screens the
--                screen that it is compared with
--   Examples     the theorems at concrete inputs, and runs
--
-- How state is modelled. A method with &mut self takes the state and returns the new state beside its result;
-- a method that returns Result returns Result here, with the error's constructor. Texts of errors that
-- nothing reads are left out. Ids are natural numbers in the order of the ids. A BTreeMap is an association
-- list in ascending order of its keys. A database is a map of the rows of a claim; the primary keys and the
-- checks that the schema declares are in the code, any other refusal of the engine is an argument of the
-- call, and a failed transaction leaves the tables alone. A subscription's slot carries whether its lock is
-- held by another thread when an event is offered: the offers and receives of several threads are one
-- sequence of actions. The code counts the publication of an ordinary claim as a yes of its proposer, against
-- docs/ARCHITECTURE.md and the documentation of crates/supra_guard, which say that a proposer does not count
-- toward its own claim's quorum; the model follows the code. A configuration keeps, as in the source, the
-- layer that each setting comes from in a list beside the values; Resolving holds the variables of resolve.
--
-- Bounds. Counters of the source are usize or u64, and the build profiles keep overflow checks on, so that an
-- overflow stops the program instead of wrapping; the counters are natural numbers here. The encodings write
-- numbers as bytes with their wrap-around, and the theorem on them asks for what the types guarantee. Topic
-- sets stay below bit 11 of 16. The loop of ExactCache::put that makes room runs on fuel, the number of the
-- entries of its order; every turn of it takes an entry away, so that this is enough. Every other loop runs
-- over a list or a shrinking ring and is a structural recursion.
--
-- Parameters. The hash function (blake3, a package) is the parameter digest; no theorem needs it to be free
-- of collisions. The payload of an event is a type parameter of the bus; a turn fills it with the events of
-- event.rs. The run of a hook's command is a function from the state of the world outside and the words of
-- the command to the next such state and how the command ended, the element of a vector is a type, the
-- scanner, the planner of truncations and the width table of the shaper are functions, and the recall of an
-- evicted turn asks that a digest has the 32 bytes that blake3 gives.
--
-- Not modelled. The other crates: clients of providers, servers and processes, SQL beyond the blackboard's
-- tables, rendering, encryption, the sandbox, and the vendored SDK. In the modelled crates: serde
-- representations, Display texts, AreaFlags::of_paths and TaskShape::key (text handling), next_proposer and
-- the read-only views of the board, hexadecimal texts of hashes, the listings of evicted turns, the errors of
-- opening and migrating a store, the reading and decoding of configuration files and variables, the checks of
-- a provider's texts and its secrets, the search and the hit rate of the vectors (floating point), and the
-- environment of a hook's command.
pub mod Prelude
pub mod Canonical
pub mod Segment
pub mod Caching
pub mod Prompt
pub mod Cohort
pub mod Permission
pub mod Board
pub mod Bus
pub mod Vectors
pub mod Turn
pub mod Config
pub mod Lineage
pub mod Ephemeral
pub mod Hooks
pub mod Shell
pub mod Examples
