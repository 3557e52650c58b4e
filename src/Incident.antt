-- ===== src/Incident.antt =====
-- The records of an incident in src/recallops/domain.py. Of `IncidentAnalysis` the fields that only
-- the display reads (plan, trace, candidate decisions, retrieved memories) are left out.
use recallops.Common.{String, ℕ, Bool, List, Option}
use recallops.Workflow.Snapshot.{Uuid, Time}
use recallops.Domain.{PostcheckClassification, ActionRisk, EvidenceVerification}

pub record IncidentCreate : Type 0 where
  pub tenant_id : String
  pub service : String
  pub service_version : String
  pub symptom : String
  pub idempotency_key : String

pub record ProposedAction : Type 0 where
  pub name : String
  pub command : String
  pub risk : ActionRisk
  pub rationale : String
  pub requires_approval : Bool
  pub action_hash : Option String

pub record IncidentAnalysis : Type 0 where
  pub incident_id : Uuid
  pub diagnosis : String
  pub proposed_action : ProposedAction
  pub created_at : Time

pub record ApprovalRequest : Type 0 where
  pub tenant_id : String
  pub approved : Bool
  pub actor_id : String
  pub proposal_hash : String
  pub reason : String

pub record ApprovalDecision : Type 0 where
  pub tenant_id : String
  pub approved : Bool
  pub actor_id : String
  pub proposal_hash : String
  pub reason : String
  pub incident_id : Uuid
  pub created_at : Time

pub record ExecutionAttestationRequest : Type 0 where
  pub tenant_id : String
  pub actor_id : String
  pub action_hash : String
  pub action_taken : String
  pub evidence_refs : List String
  pub evidence_verification : EvidenceVerification

pub record ExecutionAttestation : Type 0 where
  pub tenant_id : String
  pub actor_id : String
  pub action_hash : String
  pub action_taken : String
  pub evidence_refs : List String
  pub evidence_verification : EvidenceVerification
  pub incident_id : Uuid
  pub created_at : Time

pub record SandboxExecutionRequest : Type 0 where
  pub tenant_id : String
  pub actor_id : String
  pub proposal_hash : String
  pub idempotency_key : String

pub record SandboxMetrics (F : Type 0) : Type 0 where
  pub worker_concurrency : ℕ
  pub saturated_connections : ℕ
  pub latency_p95_ms : ℕ
  pub error_rate : F

pub record SandboxExecution (F : Type 0) : Type 0 where
  pub id : Uuid
  pub incident_id : Uuid
  pub tenant_id : String
  pub actor_id : String
  pub proposal_hash : String
  pub action_id : String
  pub simulator_version : String
  pub idempotency_key : String
  pub before : SandboxMetrics F
  pub after : SandboxMetrics F
  pub execution_digest : String
  pub created_at : Time

pub record PostcheckObservation (F : Type 0) : Type 0 where
  pub id : Uuid
  pub execution_id : Uuid
  pub incident_id : Uuid
  pub tenant_id : String
  pub proposal_hash : String
  pub execution_digest : String
  pub source : String
  pub observation_window_seconds : ℕ
  pub before : SandboxMetrics F
  pub after : SandboxMetrics F
  pub observation_digest : String
  pub observed_at : Time

pub record PolicyVerdict : Type 0 where
  pub classification : PostcheckClassification
  pub policy_version : String
  pub checks_passed : List String
  pub checks_failed : List String
  pub observation_digest : String
  pub computed_at : Time

pub record PostcheckAssessment : Type 0 where
  pub id : Uuid
  pub observation_id : Uuid
  pub incident_id : Uuid
  pub tenant_id : String
  pub agent_subject : String
  pub classification : PostcheckClassification
  pub rationale : String
  pub observation_digest : String
  pub created_at : Time
