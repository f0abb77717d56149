-- ===== src/Board/Replaying.antt =====
-- The stored votes of a claim replayed into empty slots give back its slots and its tally: the loop of
-- `Blackboard::open` in crates/supra_blackboard/src/board.rs.
use mathlib.Core.List.{append_assoc, append-nil}
use supra_harness.Prelude.{
  ℕ, suc, ◌+◌, ◌≤◌, ◌<◌, ◌≡◌, refl, sym, ◌∙◌, ap, false, Option, none, some, [], ◌∷◌, ◌++◌, length,
  arith,
}
use supra_harness.Prelude.OrdMap.{OrdMap, get, insert, Above, IsSorted}
use supra_harness.Cohort.Verdict.{Vote, vote_yes, vote_no, vote_abstain}
use supra_harness.Cohort.Tally.{QuorumTally, record_vote as tally_vote, status as tally_status}
use supra_harness.Cohort.Tally
use supra_harness.Cohort.Quorum.{quorum}
use supra_harness.Board.{ClaimState, empty_slots}
use supra_harness.Board.Ballots.{votes_for}
use supra_harness.Board.Casting.{count_vote-IsCast, IsBallot, implicit_yes, tally_vote_pending}
use supra_harness.Board.Opening.{keys, Replay, replay}

-- The votes in the slots, and the slots emptied.
abbrev pub cast_of : OrdMap (Option Vote) → OrdMap Vote
cast_of [] = []
cast_of ((a, none) ∷ m) = cast_of m
cast_of ((a, some v) ∷ m) = (a, v) ∷ cast_of m

abbrev pub blank : OrdMap (Option Vote) → OrdMap (Option Vote)
blank [] = []
blank ((a, s) ∷ m) = (a, none) ∷ blank m

-- Every key is below `n`.
abbrev pub Below : {V : Type 0} → ℕ → OrdMap V → Type 0
Below n [] = Unit {0}
Below n ((k, v) ∷ m) = (k < n) × Below n m

module _ {V : Type 0} where
  get-append :
      (n : ℕ) (p : OrdMap V) (v : V) (m : OrdMap V) → Below n p → get n (p ++ (n, v) ∷ m) ≡ some v
  unfolding get
  get-append n [] v m b = ground arith
  get-append n ((k, w) ∷ p) v m b = ground (arith, get-append n p v m)

  insert-append :
      (n : ℕ) (p : OrdMap V) (v w : V) (m : OrdMap V)
      → Below n p
      → insert n w (p ++ (n, v) ∷ m) ≡ p ++ (n, w) ∷ m
  unfolding insert
  insert-append n [] v w m b = ground arith
  insert-append n ((k, u) ∷ p) v w m b = ground (arith, insert-append n p v w m)

  pub insert_last : (n : ℕ) (p : OrdMap V) (w : V) → Below n p → insert n w p ≡ p ++ (n, w) ∷ []
  unfolding insert
  insert_last n [] w b = refl
  insert_last n ((k, u) ∷ p) w b = ground (arith, insert_last n p w)

  Below-append : (n l : ℕ) (p : OrdMap V) (v : V) → Below n p → n < l → Below l (p ++ (n, v) ∷ [])
  Below-append n l [] v b h = (h, tt)
  Below-append n l ((k, u) ∷ p) v b h = (omega (arith, b.0, h), Below-append n l p v b.1 h)

-- All keys of a map stand between those before it.
abbrev pub Follows : {V W : Type 0} → OrdMap V → OrdMap W → Type 0
Follows p [] = Unit {0}
Follows p ((k, v) ∷ m) = Below k p × Above k m

abbrev pub count_all : OrdMap Vote → QuorumTally → QuorumTally
count_all [] t = t
count_all ((a, v) ∷ votes) t = count_all votes (Tally.count_vote v t)

pending-count_vote :
    (t : QuorumTally) (v : Vote) (n : ℕ)
    → suc n ≤ Tally.pending t
    → n ≤ Tally.pending (Tally.count_vote v t)
unfolding Tally.pending
pending-count_vote t vote_yes n h = omega (arith, h)
pending-count_vote t vote_no n h = omega (arith, h)
pending-count_vote t vote_abstain n h = omega (arith, h)

pub Follows-tail :
    {V W : Type 0} (p : OrdMap V) (a : ℕ) (s : W) (r : V) (m : OrdMap W)
    → Follows p ((a, s) ∷ m)
    → Follows (p ++ (a, r) ∷ []) m
Follows-tail p a s r [] f = tt
Follows-tail p a s r ((b, q) ∷ m) f = (Below-append a b p r f.0 f.1.0, f.1.1)

-- A replay that starts where the slots before are filled.
abbrev pub from_slots : OrdMap (Option Vote) → QuorumTally → Replay
from_slots slots t = record { slots = slots; tally = t; inconsistent = false }

replay_step :
    (p m : OrdMap (Option Vote)) (a : ℕ) (v : Vote) (votes : OrdMap Vote) (t : QuorumTally)
    → Below a p
    → 0 < Tally.pending t
    → replay ((a, v) ∷ votes) (from_slots (p ++ (a, none) ∷ m) t)
      ≡ replay votes (from_slots (p ++ (a, some v) ∷ m) (Tally.count_vote v t))
unfolding replay
replay_step p m a v votes t b room =
    rw
      (
        get-append a p none m b,
        replay,
        tally_vote_pending t v room,
        insert-append a p none (some v) m b,
      )
      refl

pub replay-blank :
    (p m : OrdMap (Option Vote)) (t : QuorumTally)
    → Follows p m
    → length (cast_of m) ≤ Tally.pending t
    → replay (cast_of m) (from_slots (p ++ blank m) t)
      ≡ from_slots (p ++ m) (count_all (cast_of m) t)
replay-blank p [] t f room = unfold replay in refl
replay-blank p ((a, none) ∷ m) t f room =
    let ih = replay-blank (p ++ (a, none) ∷ []) m t (Follows-tail p a none none m f) room in
    ap (λ s. replay (cast_of m) (from_slots s t)) (sym (append_assoc p ((a, none) ∷ []) (blank m)))
    ∙ ih
    ∙ ap (λ s. from_slots s (count_all (cast_of m) t)) (append_assoc p ((a, none) ∷ []) m)
replay-blank p ((a, some v) ∷ m) t f room =
    let t' = Tally.count_vote v t in
    let ih =
      replay-blank (p ++ (a, some v) ∷ []) m t' (Follows-tail p a (some v) (some v) m f)
        (pending-count_vote t v (length (cast_of m)) room) in
    replay_step p (blank m) a v (cast_of m) t f.0 (omega (arith, room))
    ∙ ap (λ s. replay (cast_of m) (from_slots s t'))
        (sym (append_assoc p ((a, some v) ∷ []) (blank m)))
    ∙ ih
    ∙ ap (λ s. from_slots s (count_all (cast_of m) t')) (append_assoc p ((a, some v) ∷ []) m)

pub empty_slots-keys :
    (p m : OrdMap (Option Vote)) → Follows p m → empty_slots (keys m) p ≡ p ++ blank m
unfolding empty_slots
empty_slots-keys p [] f = sym (append-nil p)
empty_slots-keys p ((a, s) ∷ m) f =
    ap (λ q. empty_slots (keys m) q) (insert_last a p none f.0)
    ∙ empty_slots-keys (p ++ (a, none) ∷ []) m (Follows-tail p a s none m f)
    ∙ append_assoc p ((a, none) ∷ []) (blank m)

pub tally_eq :
    (t u : QuorumTally)
    → t.k ≡ u.k
    → t.needed ≡ u.needed
    → t.yes_votes ≡ u.yes_votes
    → t.no_votes ≡ u.no_votes
    → t.abstain_votes ≡ u.abstain_votes
    → t ≡ u
tally_eq t u k needed y n a =
    λ i. record { k = k i; needed = needed i; yes_votes = y i; no_votes = n i; abstain_votes = a i }

-- Counting the votes in the slots, from a tally that holds none of them.
record AddsUp (m : OrdMap (Option Vote)) (t u : QuorumTally) : Type 0 where
  cohort : u.k ≡ t.k
  threshold : u.needed ≡ t.needed
  yes : u.yes_votes ≡ t.yes_votes + votes_for vote_yes m
  no_count : u.no_votes ≡ t.no_votes + votes_for vote_no m
  abstained : u.abstain_votes ≡ t.abstain_votes + votes_for vote_abstain m

count_all-AddsUp :
    (m : OrdMap (Option Vote)) (t : QuorumTally) → AddsUp m t (count_all (cast_of m) t)
unfolding votes_for
count_all-AddsUp [] t = record {
  cohort = refl;
  threshold = refl;
  yes = omega arith;
  no_count = omega arith;
  abstained = omega arith;
}
count_all-AddsUp ((a, none) ∷ m) t = record {
  cohort = (count_all-AddsUp m t).cohort;
  threshold = (count_all-AddsUp m t).threshold;
  yes = (count_all-AddsUp m t).yes;
  no_count = (count_all-AddsUp m t).no_count;
  abstained = (count_all-AddsUp m t).abstained;
}
count_all-AddsUp ((a, some v) ∷ m) t =
    let rest = count_all-AddsUp m (Tally.count_vote v t) in
    let one_more = count_vote-IsCast v t in
    record {
      cohort = rest.cohort ∙ one_more.cohort;
      threshold = rest.threshold ∙ one_more.threshold;
      yes = ground (arith, rest.yes, one_more.yes);
      no_count = ground (arith, rest.no_count, one_more.no_count);
      abstained = ground (arith, rest.abstained, one_more.abstained);
    }

-- The tally that a claim began with: the implicit yes of its proposer, if there is one.
abbrev pub first_tally : ClaimState → QuorumTally
first_tally state = record {
  k = state.k;
  needed = quorum state.k;
  yes_votes = implicit_yes state;
  no_votes = 0;
  abstain_votes = 0;
}

cast_of-length : (m : OrdMap (Option Vote)) → length (cast_of m) ≤ length m
cast_of-length [] = omega arith
cast_of-length ((a, none) ∷ m) = omega (arith, cast_of-length m)
cast_of-length ((a, some v) ∷ m) = omega (arith, cast_of-length m)

pub Follows-start : (V : Type 0) {W : Type 0} (m : OrdMap W) → IsSorted m → Follows {V = V} [] m
Follows-start V [] s = tt
Follows-start V ((a, v) ∷ m) s = (tt, s)

-- The votes of a ballot, replayed into the empty slots of its validators, give back its slots and tally.
pub replay-IsBallot :
    (state : ClaimState)
    → IsBallot state
    → replay
        (cast_of state.validators)
        (from_slots (empty_slots (keys state.validators) []) (first_tally state))
      ≡ from_slots state.validators state.tally
unfolding Tally.pending
replay-IsBallot state b =
    let m = state.validators in
    let f = Follows-start (Option Vote) m b.sorted in
    let sums = count_all-AddsUp m (first_tally state) in
    let same : count_all (cast_of m) (first_tally state) ≡ state.tally =
      tally_eq (count_all (cast_of m) (first_tally state)) state.tally (sums.cohort ∙ sym b.cohort)
        (sums.threshold ∙ sym b.threshold) (omega (arith, sums.yes, b.yes))
        (omega (arith, sums.no_count, b.no_count)) (omega (arith, sums.abstained, b.abstained)) in
    ap (λ s. replay (cast_of m) (from_slots s (first_tally state))) (empty_slots-keys [] m f)
    ∙ replay-blank [] m (first_tally state) f (omega (arith, cast_of-length m, b.sized))
    ∙ ap (λ t. from_slots m t) same
