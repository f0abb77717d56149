-- ===== src/Turn/Opening.antt =====
-- How a turn opens, `start_shared`: crates/supra_core/src/turn.rs.
use Prim.Native.String.{String, len}
use supra_harness.Prelude.{
  ℕ, ◌+◌, ◌≤◌, ◌<◌, ◌≡◌, ◌⊎◌, inl, inr, refl, sym, ◌∙◌, ap, subst, not, ◌&&◌, Bool, false,
  Bool-cases, any, count, Option, none, some, List, [], ◌∷◌, length, Result, ok, err, if-elim,
  if◌then◌else◌, ltb, ◌==◌, arith, keep,
}
use supra_harness.Prelude.OrdMap.{get}
use supra_harness.Cohort.Quorum.{peer_ceiling}
use supra_harness.Cohort.Tally.{still_open}
use supra_harness.Board.Tables.{BlackboardError}
use supra_harness.Board.{Blackboard, ClaimState, ordinary_tally}
use supra_harness.Board.Publishing.{ordinary_state, blind_state}
use supra_harness.Board.Rosters.{get-empty_slots}
use supra_harness.Board.Outcomes.{Opened, publish-Opened, publish_blind-Opened}
use supra_harness.Board.Commands.{Command, run, new_board}
use supra_harness.Board.Soundness.{
  IsSound, run-IsSound, new_board-IsSound, publish-IsSound, publish_blind-IsSound,
}
use supra_harness.Bus.{Bus}
use supra_harness.Bus.Events.{Event, turn_started, claim_published}
use supra_harness.Turn.{publish_turn, open_turn, start_shared}
use supra_harness.Turn.State.{announce, Turn, TurnError}
use supra_harness.Turn.Progress.{IsTurn}

abbrev others_of : ℕ → List ℕ → List ℕ
others_of proposer agents = keep (λ agent. not (agent == proposer)) agents

-- The claim of a new turn.
abbrev opening_state : ℕ → ℕ → List ℕ → ClaimState
opening_state turn proposer agents =
    let others = others_of proposer agents in
    if length agents == 1
    then blind_state turn proposer "turn candidate"
    else ordinary_state (ordinary_tally (length others + 1)) turn proposer others "turn candidate"

publish_turn-Opened :
    (refusal : Option BlackboardError) (id : ℕ) (b : Blackboard) (turn proposer : ℕ)
    (agents : List ℕ)
    → Opened id
        (opening_state turn proposer agents)
        (publish_turn refusal id b turn proposer agents)
publish_turn-Opened refusal id b turn proposer agents = elim (Bool-cases (length agents == 1)) [
  | inl one ↦ rw one (publish_blind-Opened refusal id b turn proposer "turn candidate")
  | inr more ↦
      rw more
        (publish-Opened refusal id b turn proposer (others_of proposer agents) "turn candidate")
]

-- Who may vote: the proposer alone in a cohort of one, else every other member.
abbrev pub is_eligible : ℕ → List ℕ → ℕ → Bool
is_eligible proposer agents agent =
    if length agents == 1
    then proposer == agent
    else any (λ a. a == agent) agents && not (agent == proposer)

-- The proposer and the others, or the proposer alone.
abbrev pub claim_size : ℕ → List ℕ → ℕ
claim_size proposer agents =
    if length agents == 1 then 1 else count (λ agent. not (agent == proposer)) agents + 1

any-others_of :
    (proposer agent : ℕ) (agents : List ℕ)
    → any (λ a. a == agent) (others_of proposer agents)
      ≡ (any (λ a. a == agent) agents && not (agent == proposer))
any-others_of proposer agent [] = refl
any-others_of proposer agent (a ∷ agents) = ground (arith, any-others_of proposer agent agents)

length-others_of :
    (proposer : ℕ) (agents : List ℕ)
    → length (others_of proposer agents) ≡ count (λ agent. not (agent == proposer)) agents
length-others_of proposer [] = refl
length-others_of proposer (a ∷ agents) = ground (arith, length-others_of proposer agents)

-- A claim on which nobody has voted yet.
pub record IsUnvoted (turn proposer : ℕ) (agents : List ℕ) (state : ClaimState) : Type 0 where
  pub of_turn : state.turn ≡ turn
  pub by : state.proposer ≡ proposer
  pub sized : state.k ≡ claim_size proposer agents
  pub standing : state.status ≡ still_open
  pub slots :
      (agent : ℕ)
      → get agent state.validators ≡ (if is_eligible proposer agents agent then some none else none)

opening_state-IsUnvoted :
    (turn proposer : ℕ) (agents : List ℕ)
    → IsUnvoted turn proposer agents (opening_state turn proposer agents)
unfolding get
opening_state-IsUnvoted turn proposer agents = elim (Bool-cases (length agents == 1)) [
  | inl one ↦ rw one (record {
    of_turn = refl;
    by = refl;
    sized = rw one refl;
    standing = refl;
    slots = λ agent. rw one refl;
  })
  | inr more ↦ rw more (record {
    of_turn = refl;
    by = refl;
    sized = rw more (ap (λ n. n + 1) (length-others_of proposer agents));
    standing = refl;
    slots = λ agent. rw more (
        get-empty_slots agent (others_of proposer agents) []
        ∙ ap (λ b. if b then some none else none) (any-others_of proposer agent agents));
  })
]

publish_turn-IsSound :
    (refusal : Option BlackboardError) (id : ℕ) (b : Blackboard) (turn proposer : ℕ)
    (agents : List ℕ)
    → IsSound b
    → IsSound (publish_turn refusal id b turn proposer agents).0
publish_turn-IsSound refusal id b turn proposer agents s =
    if-elim (λ (r : Blackboard × Result BlackboardError ℕ). IsSound r.0) (length agents == 1)
      (λ _. publish_blind-IsSound refusal id b turn proposer "turn candidate" s)
      (λ _.
        publish-IsSound refusal id b turn proposer (keep (λ agent. not (agent == proposer)) agents)
          "turn candidate" s)

-- A turn that has opened.
pub record IsFresh (turn_id claim_id proposer : ℕ) (agents : List ℕ) (bus : Bus Event) (t : Turn)
    : Type 0 where
  pub named : t.id ≡ turn_id
  pub members : t.session ≡ agents
  pub opened : t.claim ≡ claim_id
  pub standing :
      (state : ClaimState) × (get claim_id t.blackboard.claims ≡ some state)
      × IsUnvoted turn_id proposer agents state
  pub unanswered : t.answer ≡ none
  pub uncounted : (t.votes_seen ≡ 0) × (t.steps_seen ≡ [])
  pub unfinished : t.finished ≡ false
  pub alone : t.blind_rederivation ≡ (length agents == 1)
  pub announced :
      t.bus ≡ announce (claim_published claim_id proposer) (announce (turn_started turn_id) bus)

abbrev Fresh : ℕ → ℕ → ℕ → List ℕ → Bus Event → Result TurnError Turn → Type 0
Fresh turn_id claim_id proposer agents bus r =
    ((e : TurnError) × (r ≡ err e))
    ⊎ ((t : Turn) × (r ≡ ok t) × IsTurn t × IsFresh turn_id claim_id proposer agents bus t)

open_turn-Fresh :
    (turn_id claim_id : ℕ) (bus : Bus Event) (proposer : ℕ) (agents : List ℕ)
    (r : Blackboard × Result BlackboardError ℕ)
    → IsSound r.0
    → Opened claim_id (opening_state turn_id proposer agents) r
    → Fresh turn_id claim_id proposer agents bus (open_turn turn_id bus proposer agents r)
open_turn-Fresh turn_id claim_id bus proposer agents (board, err e) s o = inl (_, refl)
open_turn-Fresh turn_id claim_id bus proposer agents (board, ok claim) s (inl o) =
    absurd (ground (arith, o))
open_turn-Fresh turn_id claim_id bus proposer agents (board, ok claim) s (inr o) =
    let state = opening_state turn_id proposer agents in
    let unvoted = opening_state-IsUnvoted turn_id proposer agents in
    let here : claim ≡ claim_id = ground (arith, o.0) in
    inr (
      _,
      refl,
      record {
        sound = s;
        state = state;
        found = ap (λ c. get c board.claims) here ∙ o.1;
        counted = refl;
        answered = inl (refl, refl);
        progress = inl (unvoted.standing, refl);
        closing = inl refl;
      },
      record {
        named = refl;
        members = refl;
        opened = here;
        standing = (state, o.1, unvoted);
        unanswered = refl;
        uncounted = (refl, refl);
        unfinished = refl;
        alone = refl;
        announced =
            ap (λ c. announce (claim_published c proposer) (announce (turn_started turn_id) bus))
              here;
      },
    )

start_shared-Fresh :
    (refusal : Option BlackboardError) (turn_id claim_id : ℕ) (b : Blackboard) (bus : Bus Event)
    (task : String) (proposer : ℕ) (rest : List ℕ)
    → IsSound b
    → Fresh turn_id claim_id proposer
        (proposer ∷ rest)
        bus
        (start_shared refusal turn_id claim_id b bus task (proposer ∷ rest))
unfolding start_shared
start_shared-Fresh refusal turn_id claim_id b bus task proposer rest s =
    let agents = proposer ∷ rest in
    let P = Fresh turn_id claim_id proposer agents bus in
    if-elim P (ltb peer_ceiling (length agents)) (λ _. inl (_, refl))
      (λ _.
        if-elim P (len task == 0) (λ _. inl (_, refl))
          (λ _.
            open_turn-Fresh turn_id claim_id bus proposer agents
              (publish_turn refusal claim_id b turn_id proposer agents)
              (publish_turn-IsSound refusal claim_id b turn_id proposer agents s)
              (publish_turn-Opened refusal claim_id b turn_id proposer agents)))

pub ok-injective : (t u : Turn) → ◌≡◌ {A = Result TurnError Turn} (ok t) (ok u) → t ≡ u
ok-injective t u h = ap (λ r. elim r [ ok x ↦ x | err e ↦ t ]) h

pub started :
    (refusal : Option BlackboardError) (turn_id claim_id : ℕ) (b : Blackboard) (bus : Bus Event)
    (task : String) (agents : List ℕ) (t : Turn)
    → IsSound b
    → start_shared refusal turn_id claim_id b bus task agents ≡ ok t
    → IsTurn t × (t.answer ≡ none) × (t.session ≡ agents)
unfolding start_shared
started refusal turn_id claim_id b bus task [] t s h = absurd (ground (arith, h))
started refusal turn_id claim_id b bus task (proposer ∷ rest) t s h =
    elim (start_shared-Fresh refusal turn_id claim_id b bus task proposer rest s) [
      | inl (e, failed) ↦ absurd (ground (arith, failed, h))
      | inr (u, done, it, fresh) ↦
          subst (λ x. IsTurn x × (x.answer ≡ none) × (x.session ≡ proposer ∷ rest))
            (ok-injective u t (sym done ∙ h)) (it, fresh.unanswered, fresh.members)
    ]

start_shared-guards :
    (refusal : Option BlackboardError) (turn_id claim_id : ℕ) (b : Blackboard) (bus : Bus Event)
    (task : String) (proposer : ℕ) (rest : List ℕ)
    → ((e : TurnError) × (start_shared refusal turn_id claim_id b bus task (proposer ∷ rest)
          ≡ err e))
      ⊎ ((length (proposer ∷ rest) ≤ peer_ceiling) × (0 < len task))
unfolding start_shared
start_shared-guards refusal turn_id claim_id b bus task proposer rest =
    let P = λ (r : Result TurnError Turn).
      ((e : TurnError) × (r ≡ err e))
      ⊎ ((length (proposer ∷ rest) ≤ peer_ceiling) × (0 < len task)) in
    if-elim P (ltb peer_ceiling (length (proposer ∷ rest))) (λ _. inl (_, refl))
      (λ small.
        if-elim P (len task == 0) (λ _. inl (_, refl))
          (λ full. inr (ground (arith, small), ground (arith, full))))

-- A turn opens, on a board of any history, only for a cohort within the ceiling and a task that is not
-- empty. It then has the id and the members that were given; its claim is on the board, open, for the
-- first member as its proposer and with one empty slot for each other member, or for the proposer when
-- the cohort is one, and with no other slot; nothing is answered or counted, and the bus has taken
-- the start of the turn and then the publication of its claim.
pub start_opens :
    (history : List (Option BlackboardError × Command)) (refusal : Option BlackboardError)
    (turn_id claim_id : ℕ) (bus : Bus Event) (task : String) (proposer : ℕ) (rest : List ℕ)
    (t : Turn)
    → start_shared refusal turn_id claim_id (run history new_board) bus task (proposer ∷ rest)
      ≡ ok t
    → (length (proposer ∷ rest) ≤ peer_ceiling)
      × (0 < len task)
      × IsFresh turn_id claim_id proposer (proposer ∷ rest) bus t
start_opens history refusal turn_id claim_id bus task proposer rest t h =
    let sound = run-IsSound history new_board new_board-IsSound in
    let P = IsFresh turn_id claim_id proposer (proposer ∷ rest) bus in
    let fresh : P t =
      elim (start_shared-Fresh refusal turn_id claim_id (run history new_board) bus task proposer
        rest sound) [
          | inl (e, failed) ↦ absurd (ground (arith, failed, h))
          | inr (u, done, it, fresh) ↦ subst P (ok-injective u t (sym done ∙ h)) fresh
        ] in
    elim (start_shared-guards refusal turn_id claim_id (run history new_board) bus task proposer
      rest) [
        | inl (e, failed) ↦ absurd (ground (arith, failed, h))
        | inr (small, full) ↦ (small, full, fresh)
      ]
