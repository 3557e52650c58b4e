-- ===== src/Memory/Store.antt =====
-- `InMemoryStore` of src/recallops/store.py: the records of incidents and the governed memories.
use recallops.Dict
use recallops.Common.{
  List, Option, String, Bool, find_first, select, some, ◌++◌, if◌then◌else◌, none, ◌==◌, ◌∷◌, [],
  not, pair_eq, string_eq, ◌!=◌, ◌&&◌, ◌+◌, ◌||◌, false, is_none, true, option_eq,
}
use recallops.Workflow.Snapshot.{Time, Uuid}
use recallops.Memory.Record.{Memory, MemoryGovernanceRequest, MemoryEvent}
use recallops.Memory.Version.{Unicode}
use recallops.Incident.{
  ExecutionAttestation, IncidentCreate, PostcheckAssessment, PostcheckObservation, SandboxExecution,
  ApprovalDecision, ApprovalRequest, IncidentAnalysis, PolicyVerdict,
}
use recallops.Dict.{Dict}
use recallops.Domain.{
  MemoryState, active, inconclusive, classification_eq, superseded, revoked, expired,
  memory_state_eq, outcome_eq,
}
use recallops.Result.{Result, err, ok, key_error, value_error, governance_error}
use recallops.Memory.Governance.{governance_target, is_unexpired}

abbrev pub Key : Type 0
Key = String × Uuid

pub record Store (F : Type 0) : Type 0 where
  pub memories : List (Memory F)
  pub analyses : Dict Key IncidentAnalysis
  pub idempotency : Dict (String × String) Uuid
  pub incidents : Dict Key IncidentCreate
  pub outcome_memories : Dict Key (Memory F)
  pub memory_events : List MemoryEvent
  pub approvals : Dict Key ApprovalDecision
  pub executions : Dict Key ExecutionAttestation
  pub sandbox_executions : Dict Key (SandboxExecution F)
  pub postchecks : Dict Key (PostcheckObservation F × PolicyVerdict)
  pub postcheck_assessments : Dict Key PostcheckAssessment

-- `self.analyses[key]`, which raises if the key is not there
require_analysis : Option IncidentAnalysis → Result IncidentAnalysis
require_analysis none = err key_error
require_analysis (some a) = ok a

module _ {F : Type 0} where
  -- The row that a governance decision writes.
  governed : Time → MemoryGovernanceRequest → MemoryState → Memory F → Memory F
  governed now request target memory = record memory {
    state = target;
    valid = target == active;
    reviewed_by = some request.actor_id;
    reviewed_at = some now;
    superseded_by = request.replacement_memory_id;
    governance_version = memory.governance_version + 1;
    superseded_at = if target == superseded then some now else memory.superseded_at;
    revoked_at = if target == revoked then some now else memory.revoked_at;
    expires_at =
        if target == expired
        then elim memory.expires_at [ none ↦ some now | some t ↦ some t ]
        else memory.expires_at;
  }

  -- `candidate.id == memory_id and candidate.tenant_id == tenant_id`
  is_memory : Uuid → String → Memory F → Bool
  is_memory memory_id tenant_id candidate =
      candidate.id == memory_id && candidate.tenant_id == tenant_id

  -- `memories[memories.index(memory)] = updated`, where the memory is the first that passes `p`: one
  -- that is equal to it passes `p` as well, so the index is that of the first.
  replace_first : (Memory F → Bool) → Memory F → List (Memory F) → List (Memory F)
  replace_first p updated [] = []
  replace_first p updated (x ∷ xs) = if p x then updated ∷ xs else x ∷ replace_first p updated xs

  pub add_memory : Memory F → Store F → Store F
  add_memory memory s = record s { memories = s.memories ++ memory ∷ [] }

  unfoldable pub get_memory : Uuid → String → Store F → Option (Memory F)
  unfolding is_memory
  get_memory memory_id tenant_id s = find_first (is_memory memory_id tenant_id) s.memories

  pub list_memories : String → String → Store F → List (Memory F)
  list_memories tenant_id service s =
      select (λ m. m.tenant_id == tenant_id && m.service == service) s.memories

  event_of : MemoryGovernanceRequest → MemoryState → Memory F → MemoryEvent
  event_of request target memory = record {
    memory_id = memory.id;
    tenant_id = memory.tenant_id;
    actor_id = request.actor_id;
    action = request.action;
    reason = request.reason;
    reason_code = request.reason_code;
    memory_digest = memory.memory_digest;
    from_state = memory.state;
    to_state = target;
  }

  -- The outcome table holds the memory too, if it has a source incident.
  put_outcome : Memory F → Memory F → Option Uuid → Dict Key (Memory F) → Dict Key (Memory F)
  put_outcome memory updated none d = d
  put_outcome memory updated (some incident) d = Dict.put (memory.tenant_id, incident) updated d

  apply_target :
      Time
      → MemoryGovernanceRequest
      → Uuid
      → Memory F
      → Result MemoryState
      → Store F
      → Result (Option (Memory F)) × Store F
  unfolding governed is_memory replace_first event_of put_outcome
  apply_target now request memory_id memory (err e) s = (err e, s)
  apply_target now request memory_id memory (ok target) s = (
    ok (some (governed now request target memory)),
    record s {
      memories =
          replace_first (is_memory memory_id request.tenant_id) (governed now request target memory)
            s.memories;
      outcome_memories =
          put_outcome memory (governed now request target memory) memory.source_incident_id
            s.outcome_memories;
      memory_events = s.memory_events ++ event_of request target memory ∷ [];
    },
  )

  govern_found :
      Unicode
      → Time
      → Uuid
      → MemoryGovernanceRequest
      → Option (Memory F)
      → Store F
      → Result (Option (Memory F)) × Store F
  unfolding apply_target
  govern_found u now memory_id request none s = (ok none, s)
  govern_found u now memory_id request (some memory) s =
      apply_target now request memory_id memory (governance_target u now memory request s.memories)
        s

  pub govern_memory :
      Unicode
      → Time
      → Uuid
      → MemoryGovernanceRequest
      → Store F
      → Result (Option (Memory F)) × Store F
  unfolding govern_found get_memory
  govern_memory u now memory_id request s =
      govern_found u now memory_id request (get_memory memory_id request.tenant_id s) s

  -- The tests that a memory passes before it is ranked for an incident.
  pub is_retrievable : Time → IncidentCreate → String → Memory F → Bool
  is_retrievable as_of incident embedding_space m =
      m.tenant_id == incident.tenant_id
      && m.service == incident.service
      && m.embedding_space == embedding_space
      && m.valid
      && m.state == active
      && m.outcome_semantics != some inconclusive
      && is_unexpired as_of m.expires_at
      && is_none m.superseded_at
      && is_none m.revoked_at

  save_keyed : Memory F → Key → Option (Memory F) → Store F → Memory F × Store F
  save_keyed memory key (some existing) s = (existing, s)
  save_keyed memory key none s = (
    memory,
    record s {
      outcome_memories = Dict.put key memory s.outcome_memories;
      memories = s.memories ++ memory ∷ [];
    },
  )

  pub save_outcome_memory : Memory F → Store F → Result (Memory F) × Store F
  unfolding save_keyed
  save_outcome_memory memory s = elim memory.source_incident_id [
    | none ↦ (err (value_error "outcome memory requires a source incident"), s)
    | some incident ↦
        let (saved, s') =
          save_keyed memory (memory.tenant_id, incident)
            (Dict.get (memory.tenant_id, incident) s.outcome_memories) s in
        (ok saved, s')
  ]

  pub save_analysis :
      IncidentCreate → IncidentAnalysis → Store F → Result IncidentAnalysis × Store F
  unfolding require_analysis
  save_analysis incident analysis s =
      elim (Dict.get (incident.tenant_id, incident.idempotency_key) s.idempotency) [
        | some existing_id ↦
            (require_analysis (Dict.get (incident.tenant_id, existing_id) s.analyses), s)
        | none ↦ (
          ok analysis,
          record s {
            idempotency =
                Dict.put (incident.tenant_id, incident.idempotency_key) analysis.incident_id
                  s.idempotency;
            analyses = Dict.put (incident.tenant_id, analysis.incident_id) analysis s.analyses;
            incidents = Dict.put (incident.tenant_id, analysis.incident_id) incident s.incidents;
          },
        )
      ]

  unfoldable pub get_analysis : Uuid → String → Store F → Option IncidentAnalysis
  get_analysis incident_id tenant_id s = Dict.get (tenant_id, incident_id) s.analyses

  pub get_incident : Uuid → String → Store F → Option IncidentCreate
  get_incident incident_id tenant_id s = Dict.get (tenant_id, incident_id) s.incidents

  unfoldable pub record_approval : Time → Uuid → ApprovalRequest → String → Store F → Bool × Store F
  unfolding Dict.contains
  record_approval now incident_id a proposal_hash s =
      if not (Dict.contains (a.tenant_id, incident_id) s.analyses)
        || Dict.contains (a.tenant_id, incident_id) s.approvals
      then (false, s)
      else (
        true,
        record s {
          approvals =
              Dict.put (a.tenant_id, incident_id)
                (record {
                  tenant_id = a.tenant_id;
                  approved = a.approved;
                  actor_id = a.actor_id;
                  proposal_hash = proposal_hash;
                  reason = a.reason;
                  incident_id = incident_id;
                  created_at = now;
                })
                s.approvals;
        },
      )

  unfoldable pub get_approval : Uuid → String → Store F → Option ApprovalDecision
  get_approval incident_id tenant_id s = Dict.get (tenant_id, incident_id) s.approvals

  pub record_execution : ExecutionAttestation → Store F → Result ExecutionAttestation × Store F
  record_execution execution s =
      elim (Dict.get (execution.tenant_id, execution.incident_id) s.executions) [
        | some existing ↦
            if existing.action_hash != execution.action_hash
            then (err (governance_error "incident already has a different execution"), s)
            else (ok existing, s)
        | none ↦ (
          ok execution,
          record s {
            executions =
                Dict.put (execution.tenant_id, execution.incident_id) execution s.executions;
          },
        )
      ]

  pub get_execution : Uuid → String → Store F → Option ExecutionAttestation
  get_execution incident_id tenant_id s = Dict.get (tenant_id, incident_id) s.executions

  pub record_sandbox_execution :
      SandboxExecution F → Store F → Result (SandboxExecution F) × Store F
  record_sandbox_execution execution s =
      elim (Dict.get (execution.tenant_id, execution.incident_id) s.sandbox_executions) [
        | some existing ↦
            if existing.proposal_hash != execution.proposal_hash
              || existing.idempotency_key != execution.idempotency_key
            then (err (governance_error "incident already has a different sandbox execution"), s)
            else (ok existing, s)
        | none ↦ (
          ok execution,
          record s {
            sandbox_executions =
                Dict.put (execution.tenant_id, execution.incident_id) execution
                  s.sandbox_executions;
          },
        )
      ]

  pub record_postcheck :
      PostcheckObservation F
      → PolicyVerdict
      → Store F
      → Result (PostcheckObservation F × PolicyVerdict) × Store F
  record_postcheck observation verdict s =
      elim (Dict.get (observation.tenant_id, observation.incident_id) s.postchecks) [
        | some existing ↦
            if (existing.0).observation_digest != observation.observation_digest
            then (err (governance_error "incident already has a different postcheck"), s)
            else (ok existing, s)
        | none ↦
            if verdict.observation_digest != observation.observation_digest
            then (err (governance_error "policy verdict is not bound to the observation"), s)
            else (
              ok (observation, verdict),
              record s {
                postchecks =
                    Dict.put (observation.tenant_id, observation.incident_id) (observation, verdict)
                      s.postchecks;
              },
            )
      ]

  pub record_postcheck_assessment :
      PostcheckAssessment → Store F → Result PostcheckAssessment × Store F
  record_postcheck_assessment assessment s =
      elim (Dict.get (assessment.tenant_id, assessment.incident_id) s.postcheck_assessments) [
        | some existing ↦
            if existing.agent_subject != assessment.agent_subject
              || existing.classification != assessment.classification
              || existing.rationale != assessment.rationale
            then (err (governance_error "observation already has a different assessment"), s)
            else (ok existing, s)
        | none ↦ (
          ok assessment,
          record s {
            postcheck_assessments =
                Dict.put (assessment.tenant_id, assessment.incident_id) assessment
                  s.postcheck_assessments;
          },
        )
      ]
