-- ===== src/Board/Tables.antt =====
-- The tables behind the blackboard, crates/supra_blackboard/src/schema.rs: the rows of a claim with
-- its roster and its votes. The SQL engine is not modelled beyond the primary keys, the range of
-- `k` and the non-empty body that the schema declares; any other refusal is an argument of `with_transaction`.
use Prim.Native.String.{String, len}
use text.Mathlib.Text.{◌==◌ as str_eq}
use supra_harness.Prelude.{
  ℕ, Bool, true, false, Option, none, some, List, [], ◌∷◌, ◌||◌, Result, ok, err, ltb, ◌==◌,
  if◌then◌else◌,
}
use supra_harness.Prelude.OrdMap.{OrdMap, get, insert}
use supra_harness.Cohort.Verdict.{Vote}

-- `StoreError`, `rusqlite::Error` and `TallyError` carry texts that nothing reads.
pub data BlackboardError : Type 0 where
  store_refused sqlite_refused tally_refused : BlackboardError
  unknown_claim closed : ℕ → BlackboardError
  duplicate_vote not_in_cohort not_a_proposer : ℕ → ℕ → BlackboardError

pub record StoredClaim : Type 0 where
  pub claim : ℕ
  pub turn : ℕ
  pub proposer : ℕ
  pub body : String
  pub k : ℕ
  pub status : String

-- One claim with its validators, by agent, and its votes, by voter.
pub record Row : Type 0 where
  pub stored : StoredClaim
  pub roster : OrdMap (Unit {0})
  pub votes : OrdMap Vote

abbrev pub Database : Type 0
Database = OrdMap Row

abbrev pub has_key {ℓ} : {V : Type ℓ} → ℕ → OrdMap V → Bool
has_key k m = elim (get k m) [ none ↦ false | some v ↦ true ]

-- The `PRIMARY KEY (claim_id, agent)` refuses an agent that is there already.
unfoldable pub insert_validators : List ℕ → OrdMap (Unit {0}) → Option (OrdMap (Unit {0}))
insert_validators [] roster = some roster
insert_validators (agent ∷ agents) roster =
    let rest = insert_validators agents (insert agent tt roster) in
    if has_key agent roster then none else rest

-- `CHECK (length(body) > 0 …)`, `CHECK (k >= 1 AND k <= 80)`
unfoldable pub insert_claim : StoredClaim → List ℕ → Database → Result BlackboardError Database
unfolding insert_validators
insert_claim stored validators tables =
    if has_key stored.claim tables || len stored.body == 0 || ltb stored.k 1 || ltb 80 stored.k
    then err sqlite_refused
    else elim (insert_validators validators []) [
      | none ↦ err sqlite_refused
      | some roster ↦
          ok (insert stored.claim (record { stored = stored; roster = roster; votes = [] }) tables)
    ]

unfoldable pub insert_vote : ℕ → ℕ → Vote → Database → Result BlackboardError Database
insert_vote claim voter vote tables = elim (get claim tables) [
  | none ↦ ok tables
  | some row ↦
      if has_key voter row.votes
      then err sqlite_refused
      else ok (insert claim (record row { votes = insert voter vote row.votes }) tables)
]

-- `UPDATE … WHERE claim_id = ?1 AND status = 'open'`: whether a row was updated.
unfoldable pub update_status : ℕ → String → Database → Database × Bool
update_status claim status tables = elim (get claim tables) [
  | none ↦ (tables, false)
  | some row ↦
      if str_eq row.stored.status "open"
      then (
        insert claim (record row { stored = record row.stored { status = status } }) tables,
        true,
      )
      else (tables, false)
]

-- A transaction commits what its body returns, unless the body fails or the engine refuses.
unfoldable pub with_transaction :
    Option BlackboardError → Result BlackboardError Database → Result BlackboardError Database
with_transaction (some refusal) body = err refusal
with_transaction none body = body
