-- ===== src/Lineage.antt =====
-- Who spawned whom: crates/supra_types/src/lineage.rs. An agent's id is a number, and 0 is the nil id.
use supra_harness.Prelude.{
  ℕ, suc, ◌+◌, ◌-◌, ◌≡◌, ◌↔◌, ◌⊎◌, refl, sym, subst, ap, inl, inr, Bool, Bool-cases, true, false,
  not, Option, none, some, List, [], ◌∷◌, ◌++◌, Result, ok, err, ltb, ◌==◌, if◌then◌else◌, length,
  any, get_elem?, ◌>>=◌, arith,
}

abbrev pub max_depth : ℕ
max_depth = 1

-- The chain from the host to the agent.
pub record Lineage : Type 0 where
  pub chain : List ℕ

pub data LineageError : Type 0 where
  self_spawn : ℕ → ℕ → LineageError
  max_depth_exceeded : ℕ → LineageError
  empty_lineage : LineageError

unfoldable pub root : ℕ → Lineage
root host = record { chain = host ∷ [] }

-- The chain has a root always, so that the subtraction does not stop at zero.
unfoldable pub depth : Lineage → ℕ
depth l = length l.chain - 1

abbrev pub or_nil : Option ℕ → ℕ
or_nil none = 0
or_nil (some id) = id

unfoldable pub root_id : Lineage → ℕ
root_id l = or_nil (get_elem? l.chain 0)

unfoldable pub agent_id : Lineage → ℕ
agent_id l = or_nil (get_elem? l.chain (length l.chain - 1))

unfoldable pub parent_id : Lineage → Option ℕ
parent_id l = if ltb (length l.chain) 2 then none else get_elem? l.chain (length l.chain - 2)

unfoldable pub contains : Lineage → ℕ → Bool
contains l id = any (λ existing. existing == id) l.chain

unfoldable pub would_self_spawn : Lineage → ℕ → Bool
unfolding contains
would_self_spawn l id = contains l id

unfoldable pub can_extend : Lineage → Bool
unfolding depth
can_extend l = ltb (depth l) max_depth

-- `position`
unfoldable pub position : ℕ → ℕ → List ℕ → Option ℕ
position index id [] = none
position index id (x ∷ xs) = if x == id then some index else position (suc index) id xs

abbrev pub extend : Lineage → ℕ → Option ℕ → Result LineageError Lineage
extend l id (some at) = err (self_spawn id at)
extend l id none =
    if ltb max_depth (length l.chain - 1 + 1)
    then err (max_depth_exceeded (length l.chain - 1 + 1))
    else ok (record { chain = l.chain ++ id ∷ [] })

unfoldable pub child : Lineage → ℕ → Result LineageError Lineage
unfolding position
child l id = extend l id (position 0 id l.chain)

-- The loop of `try_from`
unfoldable pub descend : Lineage → List ℕ → Result LineageError Lineage
unfolding child
descend l [] = ok l
descend l (id ∷ ids) = do next ← child l id; descend next ids

-- `TryFrom`, which decoding a stored lineage goes through.
unfoldable pub try_from : List ℕ → Result LineageError Lineage
unfolding descend root
try_from [] = err empty_lineage
try_from (host ∷ ids) = descend (root host) ids

-- A host alone, or a host and another agent.
unfoldable pub is_flat : List ℕ → Bool
is_flat [] = false
is_flat (host ∷ []) = true
is_flat (host ∷ peer ∷ []) = not (host == peer)
is_flat (host ∷ peer ∷ third ∷ ids) = false

abbrev pub lineage_of : List ℕ → Lineage
lineage_of ids = record { chain = ids }

child-root :
    (host peer : ℕ)
    → ((host == peer) ≡ true) × (child (root host) peer ≡ err (self_spawn peer 0))
      ⊎ ((host == peer) ≡ false) × (child (root host) peer ≡ ok (lineage_of (host ∷ peer ∷ [])))
unfolding child position root
child-root host peer = elim (Bool-cases (host == peer)) [
  | inl same ↦ inl (same, rw same refl)
  | inr other ↦ inr (other, rw other refl)
]

-- No agent is spawned below a peer, whatever its id.
pub child-peer :
    (host peer third : ℕ)
    → (e : LineageError) × (child (lineage_of (host ∷ peer ∷ [])) third ≡ err e)
unfolding child position
child-peer host peer third = elim (Bool-cases (host == third)) [
  | inl same ↦ (self_spawn third 0, rw same refl)
  | inr other ↦ elim (Bool-cases (peer == third)) [
    | inl same ↦ (self_spawn third 1, rw (other, same) refl)
    | inr another ↦ (max_depth_exceeded 2, rw (other, another) refl)
  ]
]

ok-chain : (l m : Lineage) → ◌≡◌ {A = Result LineageError Lineage} (ok l) (ok m) → l.chain ≡ m.chain
ok-chain l m h = ap (λ r. elim r [ ok x ↦ x.chain | err e ↦ l.chain ]) h

-- A stored chain is accepted exactly when it is a host alone, or a host and another agent, and it is
-- then the lineage as it was stored; so no lineage, however it comes to be, has a cycle or a second
-- generation of spawns.
pub try_from_exact :
    (ids : List ℕ) (l : Lineage) → (try_from ids ≡ ok l) ↔ ((l.chain ≡ ids) × (is_flat ids ≡ true))
unfolding try_from descend root is_flat
try_from_exact [] l = ground arith
try_from_exact (host ∷ []) l = (
  λ h. (sym (ok-chain (lineage_of (host ∷ [])) l h), refl),
  λ h. ap (λ c. ok (lineage_of c)) (sym h.0),
)
try_from_exact (host ∷ peer ∷ []) l = elim (child-root host peer) [
  | inl (same, refused) ↦ rw refused (ground (arith, same))
  | inr (other, spawned) ↦ rw spawned (
    λ h. (sym (ok-chain (lineage_of (host ∷ peer ∷ [])) l h), ground (arith, other)),
    λ h. ap (λ c. ok (lineage_of c)) (sym h.0),
  )
]
try_from_exact (host ∷ peer ∷ third ∷ ids) l = elim (child-root host peer) [
  | inl (same, refused) ↦ rw refused (ground arith)
  | inr (other, spawned) ↦
      let (e, refused) = child-peer host peer third in rw (spawned, refused) (ground arith)
]

abbrev Extends : ℕ → Lineage → Type 0
Extends id l =
    (would_self_spawn l id ≡ true)
    ⊎ ((can_extend l ≡ true) × (child l id ≡ ok (lineage_of (l.chain ++ id ∷ []))))
    ⊎ ((can_extend l ≡ false) × (child l id ≡ err (max_depth_exceeded 2)))

flat-Extends : (ids : List ℕ) (id : ℕ) → is_flat ids ≡ true → Extends id (lineage_of ids)
unfolding is_flat child position would_self_spawn contains can_extend depth
flat-Extends [] id h = ground (arith, h)
flat-Extends (host ∷ []) id h = elim (Bool-cases (host == id)) [
  | inl same ↦ inl (rw same refl)
  | inr other ↦ inr (inl (refl, rw other refl))
]
flat-Extends (host ∷ peer ∷ []) id h = elim (Bool-cases (host == id)) [
  | inl same ↦ inl (rw same refl)
  | inr other ↦ elim (Bool-cases (peer == id)) [
    | inl same ↦ inl (rw (other, same) refl)
    | inr another ↦ inr (inr (refl, rw (other, another) refl))
  ]
]
flat-Extends (host ∷ peer ∷ third ∷ ids) id h = ground (arith, h)

-- For an id that is not in its chain, a stored lineage that says it can be extended has that child, and
-- one that says it cannot refuses for its depth.
pub can_extend_exact :
    (ids : List ℕ) (l : Lineage) (id : ℕ)
    → try_from ids ≡ ok l
    → would_self_spawn l id ≡ false
    → ((can_extend l ≡ true) × (child l id ≡ ok (lineage_of (l.chain ++ id ∷ []))))
      ⊎ ((can_extend l ≡ false) × (child l id ≡ err (max_depth_exceeded 2)))
can_extend_exact ids l id stored new =
    let (chain, flat) = (try_from_exact ids l).0 stored in
    elim (subst (Extends id) (ap lineage_of (sym chain)) (flat-Extends ids id flat)) [
      | inl spawns ↦ absurd (ground (arith, spawns, new))
      | inr answer ↦ answer
    ]
