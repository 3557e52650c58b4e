-- ===== src/Service/Approval/Bound.antt =====
-- Approvals and executions are bound to the analysed proposal.
use recallops.Dict
use recallops.Workflow.Snapshot.{Time, Uuid}
use recallops.Memory.Store.{Store, record_approval, get_approval, get_analysis}
use recallops.Incident.{ApprovalRequest, ApprovalDecision, IncidentAnalysis}
use recallops.Service.Approval.{approve_digest, approve_analysis, decide_approval}
use recallops.Common.{
  pair_eq, Option, String, ◌≡◌, some, true, none, arith, string_eq, eq_iff, refl, ap, some-eq,
  !=_refl,
}
use recallops.Result.{ok}

module _ {F : Type 0} (now : Time) (incident_id : Uuid) (s : Store F) where
  -- What a recorded approval is bound to.
  pub record Approves (request : ApprovalRequest) (analysis : IncidentAnalysis) : Type 0 where
    pub analysed : get_analysis incident_id request.tenant_id s ≡ some analysis
    pub needed : analysis.proposed_action.requires_approval ≡ true
    pub same_digest : analysis.proposed_action.action_hash ≡ some request.proposal_hash
    pub first : get_approval incident_id request.tenant_id s ≡ none

  abbrev pub decision : ApprovalRequest → ApprovalDecision
  decision request = record {
    tenant_id = request.tenant_id;
    approved = request.approved;
    actor_id = request.actor_id;
    proposal_hash = request.proposal_hash;
    reason = request.reason;
    incident_id = incident_id;
    created_at = now;
  }

  record_approval-first :
      (request : ApprovalRequest) (digest : String)
      → (record_approval now incident_id request digest s).0 ≡ true
      → get_approval incident_id request.tenant_id s ≡ none
  unfolding record_approval get_approval
  record_approval-first request digest done = ground arith

  approve_digest-ok :
      (request : ApprovalRequest) (o : Option String)
      → (approve_digest now incident_id s request o).0 ≡ ok true
      → (o ≡ some request.proposal_hash)
        × ((record_approval now incident_id request request.proposal_hash s).0 ≡ true)
  unfolding approve_digest
  approve_digest-ok request none done = cc
  approve_digest-ok request (some digest) done = ground (arith, eq_iff request.proposal_hash digest)

  approve_analysis-ok :
      (request : ApprovalRequest) (a : IncidentAnalysis)
      → (approve_analysis now incident_id s request (some a)).0 ≡ ok true
      → (a.proposed_action.requires_approval ≡ true)
        × ((approve_digest now incident_id s request a.proposed_action.action_hash).0 ≡ ok true)
  unfolding approve_analysis
  approve_analysis-ok request a done = ground arith

  approve_analysis-Approves :
      (request : ApprovalRequest) (o : Option IncidentAnalysis)
      → get_analysis incident_id request.tenant_id s ≡ o
      → (approve_analysis now incident_id s request o).0 ≡ ok true
      → (a : IncidentAnalysis) × Approves request a
  unfolding approve_analysis
  approve_analysis-Approves request none found done = cc
  approve_analysis-Approves request (some a) found done =
      let (needed, approved) = approve_analysis-ok request a done in
      let (same, recorded) = approve_digest-ok request a.proposed_action.action_hash approved in
      (
        a,
        record {
          analysed = found;
          needed = needed;
          same_digest = same;
          first = record_approval-first request request.proposal_hash recorded;
        },
      )

  -- An approval that is accepted is bound to the analysis of the incident: an analysis is stored whose
  -- proposal needs approval and has exactly the digest that the request names, and no decision was on
  -- record before.
  pub decide_approval-Approves :
      (request : ApprovalRequest)
      → (decide_approval now incident_id s request).0 ≡ ok true
      → (a : IncidentAnalysis) × Approves request a
  unfolding decide_approval
  decide_approval-Approves request done = approve_analysis-Approves request _ refl done

  contains_analysis :
      (request : ApprovalRequest) {a : IncidentAnalysis}
      → get_analysis incident_id request.tenant_id s ≡ some a
      → Dict.contains (request.tenant_id, incident_id) s.analyses ≡ true
  unfolding get_analysis Dict.contains
  contains_analysis request found = ground arith

  record_approval-made :
      (request : ApprovalRequest)
      → get_approval incident_id request.tenant_id s ≡ none
      → Dict.contains (request.tenant_id, incident_id) s.analyses ≡ true
      → record_approval now incident_id request request.proposal_hash s ≡ (
        true,
        record s {
          approvals = Dict.put (request.tenant_id, incident_id) (decision request) s.approvals;
        },
      )
  unfolding record_approval get_approval Dict.contains
  record_approval-made request first known = rw known (rw (Dict.contains, first) refl)

  approve_digest-made :
      (request : ApprovalRequest) (o : Option String)
      → o ≡ some request.proposal_hash
      → get_approval incident_id request.tenant_id s ≡ none
      → Dict.contains (request.tenant_id, incident_id) s.analyses ≡ true
      → approve_digest now incident_id s request o ≡ (
        ok true,
        record s {
          approvals = Dict.put (request.tenant_id, incident_id) (decision request) s.approvals;
        },
      )
  unfolding approve_digest
  approve_digest-made request none same first known = cc
  approve_digest-made request (some digest) same first known =
      (let digest_eq = some-eq same in
        rw digest_eq
          (rw (!=_refl request.proposal_hash) (rw (record_approval-made request first known) refl)))

  -- Conversely, where no other decision is on record, the request for the analysed proposal is
  -- accepted, and the decision can be read back.
  pub Approves-decide_approval :
      (request : ApprovalRequest) (a : IncidentAnalysis)
      → Approves request a
      → ((decide_approval now incident_id s request).0 ≡ ok true)
        × (get_approval incident_id request.tenant_id (decide_approval now incident_id s request).1
            ≡ some (decision request))
  unfolding decide_approval approve_analysis get_approval
  Approves-decide_approval request a bound =
      let analysed = bound.analysed in
      let needed = bound.needed in
      let done =
        approve_digest-made request _ bound.same_digest bound.first
          (contains_analysis request bound.analysed) in
      (
        rw analysed (rw needed (ap (λ p. p.0) done)),
        rw analysed (
            rw needed (
              rw done (
                Dict.get-put_self (request.tenant_id, incident_id) (decision request)
                  s.approvals))),
      )
