-- ===== src/Memory/Governance/Sound.antt =====
-- What an accepted governance decision guarantees.
use recallops.Domain.{
  MemoryState, pending_review, quarantined, rejected, certify, superseded, evidence_accepted,
  inconclusive, revoked, other_bounded, active, revoke, expired, outcome_eq, memory_state_eq,
  action_eq, reason_eq,
}
use recallops.Memory.Governance.{allowed, target_of, is_revocation_reason, is_unexpired, is_blank}
use recallops.Memory.Version.{Unicode, version_compatibility}
use recallops.Common.{
  ◌≡◌, true, false, some, ◌≢◌, none, string_eq, ◌==◌, ◌&&◌, ◌!=◌, option_eq, not,
}
use recallops.Workflow.Snapshot.{Time}
use recallops.Memory.Record.{Memory, MemoryGovernanceRequest}

-- The lifecycle, written out as its edges.
pub data Edge : MemoryState → MemoryState → Type 0 where
  accept : Edge pending_review active
  hold : Edge pending_review quarantined
  refuse : Edge pending_review rejected
  suspend : Edge active quarantined
  replace : Edge active superseded
  withdraw : Edge active revoked
  age : Edge active expired
  restore : Edge quarantined active
  discard : Edge quarantined rejected
  withdraw_held : Edge quarantined revoked
  age_held : Edge quarantined expired

ruleset edges = (
  accept, hold, refuse, suspend, replace, withdraw, age, restore, discard, withdraw_held, age_held,
)

module _ {F : Type 0} (u : Unicode) (now : Time) (memory : Memory F)
    (request : MemoryGovernanceRequest) where
  -- The memory that a supersession names: active, valid, admissible, conclusive, compatible, of the
  -- same tenant and service, and another one.
  pub record Replaces (candidate : Memory F) : Type 0 where
    pub named : request.replacement_memory_id ≡ some candidate.id
    pub same_tenant : candidate.tenant_id ≡ memory.tenant_id
    pub same_service : candidate.service ≡ memory.service
    pub is_active : candidate.state ≡ active
    pub is_valid : candidate.valid ≡ true
    pub conclusive : candidate.outcome_semantics ≢ some inconclusive
    pub compatible :
        version_compatibility u candidate.service_version memory.service_version
          candidate.compatibility_policy
        ≡ 100
    pub unexpired : is_unexpired now candidate.expires_at ≡ true
    pub another : candidate.id ≢ memory.id

  -- What an accepted decision guarantees of its target `t`.
  pub record Governs (t : MemoryState) : Type 0 where
    pub by_action : t ≡ target_of request.action
    pub edge : Edge memory.state t
    pub certified :
        request.action ≡ certify
        → (request.reason_code ≡ evidence_accepted) × (memory.outcome_semantics ≢ some inconclusive)
    pub revocation : request.action ≡ revoke → is_revocation_reason request.reason_code ≡ true
    pub independent : t ≡ active → memory.observed_by ≢ some request.actor_id
    pub noted :
        request.reason_code ≡ other_bounded → is_blank u now memory request request.reason ≡ false
    pub no_replacement : t ≢ superseded → request.replacement_memory_id ≡ none

  abbrev Passed : Type 0
  Passed =
      (not (allowed memory.state (target_of request.action)) ≡ false)
      × ((request.action == certify && memory.outcome_semantics == some inconclusive) ≡ false)
      × ((request.action == certify && request.reason_code != evidence_accepted) ≡ false)
      × ((request.action == revoke && not (is_revocation_reason request.reason_code)) ≡ false)
      × ((target_of request.action == active && memory.observed_by == some request.actor_id)
          ≡ false)
      × ((request.reason_code == other_bounded && is_blank u now memory request request.reason)
          ≡ false)
