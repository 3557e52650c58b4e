-- ===== src/Service/Approval/Executions.antt =====
-- What `prepare_execution` accepts.
use recallops.Workflow.Snapshot.{Time, Uuid}
use recallops.Memory.Store.{Store, get_analysis, get_approval}
use recallops.Domain.{EvidenceVerification}
use recallops.Common.{
  List, String, Bool, Option, ◌≡◌, false, some, true, arith, none, refl, eq_iff, ◌∙◌, ap, sym,
  some-eq,
}
use recallops.Incident.{
  ExecutionAttestationRequest, ApprovalDecision, IncidentAnalysis, ExecutionAttestation,
}
use recallops.Service.Approval.{
  execute_digest, lacks_approval, attestation, execute_analysis, prepare_execution,
}
use recallops.Result.{ok}

module _ {F : Type 0} (now : Time) (incident_id : Uuid) (s : Store F)
    (verify : EvidenceVerification → List String → Bool) where
  -- What an attestation of an execution must satisfy.
  pub record Executes (request : ExecutionAttestationRequest) (a : IncidentAnalysis) : Type 0 where
    pub analysed : get_analysis incident_id request.tenant_id s ≡ some a
    pub same_digest : a.proposed_action.action_hash ≡ some request.action_hash
    pub same_command : request.action_taken ≡ a.proposed_action.command
    pub verified : verify request.evidence_verification request.evidence_refs ≡ true
    pub approved :
        a.proposed_action.requires_approval ≡ true
        → (d : ApprovalDecision) × (get_approval incident_id request.tenant_id s ≡ some d)
          × (d.approved ≡ true)

  approval-approved :
      (o : Option ApprovalDecision)
      → lacks_approval o ≡ false
      → (d : ApprovalDecision) × (o ≡ some d) × (d.approved ≡ true)
  approval-approved none held = cc
  approval-approved (some d) held = (d, refl, ground arith)

  checks :
      (request : ExecutionAttestationRequest) (digest : String) (a : IncidentAnalysis)
      → {x : Option ExecutionAttestation}
      → execute_digest now incident_id s verify request a.proposed_action (some digest) ≡ ok x
      → (request.action_hash ≡ digest)
        × (request.action_taken ≡ a.proposed_action.command)
        × (verify request.evidence_verification request.evidence_refs ≡ true)
        × (a.proposed_action.requires_approval ≡ true
            → lacks_approval (get_approval incident_id request.tenant_id s) ≡ false)
        × (x ≡ some (attestation now incident_id s request))
  unfolding execute_digest
  checks request digest a done = ground (
    arith,
    eq_iff request.action_hash digest,
    eq_iff request.action_taken a.proposed_action.command,
  )

  execute_digest-Executes :
      (request : ExecutionAttestationRequest) (a : IncidentAnalysis) (o : Option String)
      → get_analysis incident_id request.tenant_id s ≡ some a
      → a.proposed_action.action_hash ≡ o
      → {x : Option ExecutionAttestation}
      → execute_digest now incident_id s verify request a.proposed_action o ≡ ok x
      → Executes request a × (x ≡ some (attestation now incident_id s request))
  unfolding execute_digest
  execute_digest-Executes request a none found digest done = cc
  execute_digest-Executes request a (some action_hash) found digest done =
      let (same, same_command, verified, approved, attested) = checks request action_hash a done in
      (
        record {
          analysed = found;
          same_digest = digest ∙ ap some (sym same);
          same_command = same_command;
          verified = verified;
          approved = λ needed. approval-approved _ (approved needed);
        },
        attested,
      )

  execute_analysis-Executes :
      (request : ExecutionAttestationRequest) (o : Option IncidentAnalysis)
      (x : ExecutionAttestation)
      → get_analysis incident_id request.tenant_id s ≡ o
      → execute_analysis now incident_id s verify request o ≡ ok (some x)
      → (a : IncidentAnalysis) × Executes request a × (x ≡ attestation now incident_id s request)
  unfolding execute_analysis
  execute_analysis-Executes request none x found done = cc
  execute_analysis-Executes request (some a) x found done =
      let (bound, same) = execute_digest-Executes request a _ found refl done in
      (a, bound, some-eq same)

  -- An execution that is accepted is the one that was analysed: its digest and its command are those of
  -- the analysed proposal, the server has verified its evidence, and, if the proposal needs approval,
  -- a decision that approves it is on record. The attestation that is returned is the request's, at this
  -- time.
  pub prepare_execution-Executes :
      (request : ExecutionAttestationRequest) (x : ExecutionAttestation)
      → prepare_execution now incident_id s verify request ≡ ok (some x)
      → (a : IncidentAnalysis) × Executes request a × (x ≡ attestation now incident_id s request)
  unfolding prepare_execution
  prepare_execution-Executes request x done = execute_analysis-Executes request _ x refl done
