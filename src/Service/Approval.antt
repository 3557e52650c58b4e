-- ===== src/Service/Approval.antt =====
-- `decide_approval`, `prepare_execution` and `attest_execution` of `IncidentService`,
-- src/recallops/service.py.
pub mod Bound
pub mod Executions
use recallops.Common.{
  String, Option, Bool, List, some, true, false, if◌then◌else◌, none, not, ◌!=◌, ◌||◌, string_eq,
  ◌∷◌, ◌&&◌, [],
}
use recallops.Workflow.Snapshot.{Time, Uuid}
use recallops.Result.{Result, err, workflow_error, ok, check_all}
use recallops.Memory.Store.{Store, get_analysis, record_execution, record_approval, get_approval}
use recallops.Incident.{
  ApprovalRequest, ExecutionAttestationRequest, ApprovalDecision, ExecutionAttestation,
  IncidentAnalysis, ProposedAction,
}
use recallops.Domain.{EvidenceVerification}

abbrev incident_error {ℓ} : {A : Type ℓ} → String → Result A
incident_error message = err (workflow_error message)

-- `approval is None or not approval.approved`
abbrev lacks_approval : Option ApprovalDecision → Bool
lacks_approval none = true
lacks_approval (some decision) = not decision.approved

module _ {F : Type 0} (now : Time) (incident_id : Uuid) (s : Store F) where
  -- The digest of the proposal that an approval must name.
  approve_digest : ApprovalRequest → Option String → Result Bool × Store F
  approve_digest request none = (incident_error "analysis lacks a proposal digest", s)
  approve_digest request (some proposal_hash) =
      if request.proposal_hash != proposal_hash
      then (incident_error "approval does not match the proposed action", s)
      else (let (done, s') = record_approval now incident_id request proposal_hash s in
          (ok done, s'))

  approve_analysis : ApprovalRequest → Option IncidentAnalysis → Result Bool × Store F
  unfolding approve_digest
  approve_analysis request none = (ok false, s)
  approve_analysis request (some analysis) =
      if not analysis.proposed_action.requires_approval
      then (incident_error "read-only action does not require approval", s)
      else approve_digest request analysis.proposed_action.action_hash

  unfoldable pub decide_approval : ApprovalRequest → Result Bool × Store F
  unfolding approve_analysis
  decide_approval request = approve_analysis request (get_analysis incident_id request.tenant_id s)

  abbrev pub attestation : ExecutionAttestationRequest → ExecutionAttestation
  attestation request = record {
    tenant_id = request.tenant_id;
    actor_id = request.actor_id;
    action_hash = request.action_hash;
    action_taken = request.action_taken;
    evidence_refs = request.evidence_refs;
    evidence_verification = request.evidence_verification;
    incident_id = incident_id;
    created_at = now;
  }

  module _ (verify : EvidenceVerification → List String → Bool) where
    -- The tests once the digest of the proposal is known; `verify` is the injected evidence verifier.
    execute_digest :
        ExecutionAttestationRequest
        → ProposedAction
        → Option String
        → Result (Option ExecutionAttestation)
    execute_digest request proposed none =
        incident_error "legacy analysis lacks an executable action fingerprint"
    execute_digest request proposed (some action_hash) =
        check_all
          ((
            request.action_hash != action_hash || request.action_taken != proposed.command,
            workflow_error "execution does not match the analyzed action",
          )
            ∷ (
              not (verify request.evidence_verification request.evidence_refs),
              workflow_error "evidence could not be verified by the server",
            )
            ∷ (
              proposed.requires_approval
                  && lacks_approval (get_approval incident_id request.tenant_id s),
              workflow_error "approved decision required before execution",
            )
            ∷ [])
          (ok (some (attestation request)))

    execute_analysis :
        ExecutionAttestationRequest → Option IncidentAnalysis → Result (Option ExecutionAttestation)
    unfolding execute_digest
    execute_analysis request none = ok none
    execute_analysis request (some analysis) =
        execute_digest request analysis.proposed_action analysis.proposed_action.action_hash

    unfoldable pub prepare_execution :
        ExecutionAttestationRequest → Result (Option ExecutionAttestation)
    unfolding execute_analysis
    prepare_execution request =
        execute_analysis request (get_analysis incident_id request.tenant_id s)

    persist : Result (Option ExecutionAttestation) → Result (Option ExecutionAttestation) × Store F
    persist (err e) = (err e, s)
    persist (ok none) = (ok none, s)
    persist (ok (some execution)) =
        let (recorded, s') = record_execution execution s in
        (elim recorded [ err e ↦ err e | ok x ↦ ok (some x) ], s')

    pub attest_execution :
        ExecutionAttestationRequest → Result (Option ExecutionAttestation) × Store F
    unfolding prepare_execution persist
    attest_execution request = persist (prepare_execution request)
