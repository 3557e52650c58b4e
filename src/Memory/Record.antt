-- ===== src/Memory/Record.antt =====
-- `Memory`, `MemoryGovernanceRequest` and `MemoryEvent` of src/recallops/domain.py. The type `F` of
-- floating-point numbers is a parameter, with the operations that the code uses: the comparisons,
-- `x * 0.5`, the literal of so many units at so many decimal places, and `min`.
use recallops.Common.{
  Bool, Option, String, if◌then◌else◌, true, some, ◌==◌, List, none, ◌&&◌, ℕ, ◌!=◌, string_eq,
}
use recallops.Workflow.Snapshot.{Uuid, Time}
use recallops.Domain.{
  MemoryOutcome, CompatibilityPolicy, GovernanceAction, MemoryState, ReviewReasonCode, positive,
  EvidenceVerification, negative, inconclusive, outcome_eq,
}
use recallops.Result.{Result, ok, err, value_error}

pub record Floats (F : Type 0) : Type 0 where
  pub lt : F → F → Bool
  pub le : F → F → Bool
  pub zero : F
  pub half : F → F
  pub literal : ℕ → ℕ → F
  pub min : F → F → F

pub record Memory (F : Type 0) : Type 0 where
  pub id : Uuid
  pub tenant_id : String
  pub service : String
  pub service_version : String
  pub compatibility_policy : CompatibilityPolicy
  pub compatibility_policy_version : String
  pub symptom : String
  pub action : String
  pub outcome : String
  pub outcome_score : F
  pub outcome_semantics : Option MemoryOutcome
  pub confidence : F
  pub valid : Bool
  pub state : MemoryState
  pub superseded_by : Option Uuid
  pub source_incident_id : Option Uuid
  pub observed_by : Option String
  pub evidence_verification : EvidenceVerification
  pub evidence_refs : List String
  pub observation_window_seconds : Option ℕ
  pub postconditions : List String
  pub reviewed_by : Option String
  pub reviewed_at : Option Time
  pub observation_digest : Option String
  pub assessment_digest : Option String
  pub verdict_digest : Option String
  pub memory_digest : Option String
  pub governance_policy_version : String
  pub governance_version : ℕ
  pub expires_at : Option Time
  pub superseded_at : Option Time
  pub revoked_at : Option Time
  pub embedding_space : String
  pub embedding : List F
  pub created_at : Time

pub record MemoryGovernanceRequest : Type 0 where
  pub tenant_id : String
  pub actor_id : String
  pub action : GovernanceAction
  pub reason : String
  pub reason_code : ReviewReasonCode
  pub replacement_memory_id : Option Uuid

pub record MemoryEvent : Type 0 where
  pub memory_id : Uuid
  pub tenant_id : String
  pub actor_id : String
  pub action : GovernanceAction
  pub reason : String
  pub reason_code : ReviewReasonCode
  pub memory_digest : Option String
  pub from_state : MemoryState
  pub to_state : MemoryState

module _ {F : Type 0} (fl : Floats F) where
  -- The outcome that the sign of the score stands for.
  pub derived_outcome : F → MemoryOutcome
  derived_outcome score =
      if fl.lt fl.zero score
      then positive
      else if fl.lt score fl.zero
      then negative
      else inconclusive

  abbrev agrees : Option MemoryOutcome → MemoryOutcome → Bool
  agrees none derived = true
  agrees (some stated) derived = stated == derived

  -- The digest that a memory is given, or the test on the one that it brings.
  sealed_digest : String → Memory F → Option String → Result (Memory F)
  sealed_digest expected m none = ok (record m { memory_digest = some expected })
  sealed_digest expected m (some digest) =
      if m.governance_policy_version == "memory-governance-v1" && digest != expected
      then err (value_error "memory digest does not match immutable evidence")
      else ok m

  -- `Memory.derive_policy_fields`. The digest of the memory's evidence is computed with the derived
  -- outcome in place; it is `content_digest`, RFC 8785 and SHA-256.
  pub derive_policy_fields : (Memory F → String) → Memory F → Result (Memory F)
  unfolding sealed_digest derived_outcome
  derive_policy_fields content_digest m =
      if agrees m.outcome_semantics (derived_outcome m.outcome_score)
      then (let derived = record m { outcome_semantics = some (derived_outcome m.outcome_score) } in
          sealed_digest (content_digest derived) derived m.memory_digest)
      else err (value_error "outcome semantics must match the policy-defined outcome score")
