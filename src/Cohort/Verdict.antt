-- ===== src/Cohort/Verdict.antt =====
-- Votes and the bounded verdict of crates/supra_types/src/cohort.rs.
use Prim.Native.String.{String, len}
use supra_harness.Prelude.{ℕ, Option, none, some, Result, ok, err, ltb, if◌then◌else◌}

pub data Vote : Type 0 where
  vote_yes vote_no vote_abstain : Vote

pub data Confidence : Type 0 where
  low medium high : Confidence

-- The fields are private in the source: `new` is the only way to a value, and decoding uses it too.
pub record Verdict : Type 0 where
  pub vote : Vote
  pub confidence : Confidence
  pub reason : String
  pub evidence_ref : Option String

pub data VerdictError : Type 0 where
  reason_too_long evidence_ref_too_long : ℕ → VerdictError

abbrev pub max_reason_bytes : ℕ
max_reason_bytes = 140

abbrev pub max_evidence_bytes : ℕ
max_evidence_bytes = 40

check_evidence : Option String → Result VerdictError (Unit {0})
check_evidence none = ok tt
check_evidence (some reference) =
    if ltb max_evidence_bytes (len reference)
    then err (evidence_ref_too_long (len reference))
    else ok tt

unfoldable pub new : Vote → Confidence → String → Option String → Result VerdictError Verdict
unfolding check_evidence
new vote confidence reason evidence_ref =
    if ltb max_reason_bytes (len reason)
    then err (reason_too_long (len reason))
    else elim (check_evidence evidence_ref) [
      | err e ↦ err e
      | ok _ ↦ ok (record {
        vote = vote;
        confidence = confidence;
        reason = reason;
        evidence_ref = evidence_ref;
      })
    ]
