-- ===== src/Board/Committing.antt =====
-- What the transactions of a new claim and of a vote leave in the tables: `insert_claim`,
-- `insert_vote` and `update_status` of crates/supra_blackboard/src/schema.rs.
use Prim.Native.String.{String}
use supra_harness.Prelude.{
  ℕ, ◌≡◌, inl, inr, refl, sym, ◌∙◌, ap, true, false, Option, none, some, List, [], Result, ok, err,
  arith, Bool-cases, Option-cases,
}
use supra_harness.Prelude.OrdMap.{OrdMap, get, insert, get-insert}
use supra_harness.Cohort.Verdict.{Vote}
use supra_harness.Cohort.Tally.{QuorumStatus, still_open, reached, unreachable}
use supra_harness.Board.Tables.{
  sqlite_refused, BlackboardError, Row, Database, has_key, insert_vote, update_status, insert_claim,
  insert_validators, with_transaction, StoredClaim,
}
use supra_harness.Board.{vote_rows, status_text}
use supra_harness.Board.Mirroring.{insert-insert}

ok-injective : (a b : Database) → ◌≡◌ {A = Result BlackboardError Database} (ok a) (ok b) → a ≡ b
ok-injective a b e = ground (arith, e)

pub committed_body :
    (refusal : Option BlackboardError) (body : Result BlackboardError Database) (tables : Database)
    → with_transaction refusal body ≡ ok tables
    → body ≡ ok tables
unfolding with_transaction
committed_body none body tables h = h
committed_body (some e) body tables h = ground (arith, h)

-- The row of the claim after the vote.
abbrev pub voted_row : ℕ → Vote → QuorumStatus → Row → Row
voted_row voter cast outcome row = record row {
  stored = record row.stored { status = status_text outcome };
  votes = insert voter cast row.votes;
}

abbrev with_vote : ℕ → Vote → Row → Row
with_vote voter cast row = record row { votes = insert voter cast row.votes }

insert_vote-ok :
    (claim voter : ℕ) (cast : Vote) (store : Database) (row : Row)
    → get claim store ≡ some row
    → has_key voter row.votes ≡ false
    → insert_vote claim voter cast store ≡ ok (insert claim (with_vote voter cast row) store)
unfolding insert_vote
insert_vote-ok claim voter cast store row found new = rw (found, insert_vote, new) refl

insert_vote-err :
    (claim voter : ℕ) (cast : Vote) (store : Database) (row : Row)
    → get claim store ≡ some row
    → has_key voter row.votes ≡ true
    → insert_vote claim voter cast store ≡ err sqlite_refused
unfolding insert_vote
insert_vote-err claim voter cast store row found old = rw (found, insert_vote, old) refl

get-insert_same : {V : Type 0} (k : ℕ) (v : V) (m : OrdMap V) → get k (insert k v m) ≡ some v
get-insert_same k v m = ground (arith, get-insert k k v m)

update_status-open :
    (claim : ℕ) (text : String) (row : Row) (store : Database)
    → row.stored.status ≡ "open"
    → update_status claim text (insert claim row store)
      ≡ (insert claim (record row { stored = record row.stored { status = text } }) store, true)
unfolding update_status
update_status-open claim text row store is_text =
    rw (get-insert_same claim row store, update_status, is_text)
      (ap (λ t. (t, true))
        (insert-insert claim (record row { stored = record row.stored { status = text } })
          (record row { stored = record row.stored { status = "open" } }) store))

voted_row-open :
    (voter : ℕ) (cast : Vote) (row : Row)
    → row.stored.status ≡ "open"
    → with_vote voter cast row ≡ voted_row voter cast still_open row
unfolding status_text
voted_row-open voter cast row is_text = λ i. record row {
  stored = record row.stored { status = is_text i };
  votes = insert voter cast row.votes;
}

vote_rows-ok :
    (claim voter : ℕ) (cast : Vote) (outcome : QuorumStatus) (store : Database) (row : Row)
    → get claim store ≡ some row
    → row.stored.status ≡ "open"
    → has_key voter row.votes ≡ false
    → vote_rows claim voter cast outcome store
      ≡ ok (insert claim (voted_row voter cast outcome row) store)
unfolding vote_rows
vote_rows-ok claim voter cast still_open store row found is_text new =
    rw (insert_vote-ok claim voter cast store row found new, vote_rows)
      (ap (λ r. ok (insert claim r store)) (voted_row-open voter cast row is_text))
vote_rows-ok claim voter cast reached store row found is_text new =
    rw
      (
        insert_vote-ok claim voter cast store row found new,
        vote_rows,
        update_status-open claim (status_text reached) (with_vote voter cast row) store is_text,
      )
      refl
vote_rows-ok claim voter cast unreachable store row found is_text new =
    rw
      (
        insert_vote-ok claim voter cast store row found new,
        vote_rows,
        update_status-open claim (status_text unreachable) (with_vote voter cast row) store is_text,
      )
      refl

-- A vote that is committed on a claim whose row is open leaves that row with the vote and the status of
-- the outcome.
pub vote_rows-committed :
    (claim voter : ℕ) (cast : Vote) (outcome : QuorumStatus) (store : Database) (row : Row)
    (tables : Database)
    → get claim store ≡ some row
    → row.stored.status ≡ "open"
    → vote_rows claim voter cast outcome store ≡ ok tables
    → tables ≡ insert claim (voted_row voter cast outcome row) store
unfolding vote_rows
vote_rows-committed claim voter cast outcome store row tables found is_text h =
    elim (Bool-cases (has_key voter row.votes)) [
      | inl old ↦
          let refused : vote_rows claim voter cast outcome store ≡ err sqlite_refused =
            rw (insert_vote-err claim voter cast store row found old, vote_rows) refl in
          ground (arith, refused, h)
      | inr new ↦
          ok-injective tables (insert claim (voted_row voter cast outcome row) store)
            (sym h ∙ vote_rows-ok claim voter cast outcome store row found is_text new)
    ]

-- A claim that is committed has its roster and no votes.
pub insert_claim-committed :
    (stored : StoredClaim) (validators : List ℕ) (store tables : Database)
    → insert_claim stored validators store ≡ ok tables
    → (filled : OrdMap (Unit {0})) × (insert_validators validators [] ≡ some filled)
      × (tables
          ≡ insert stored.claim (record { stored = stored; roster = filled; votes = [] }) store)
unfolding insert_claim
insert_claim-committed stored validators store tables h =
    elim (Option-cases (insert_validators validators [])) [
      | inl refused ↦ ground (arith, refused, h)
      | inr (filled, e) ↦ (filled, e, ground (arith, e, h))
    ]
