-- ===== src/Memory/Governance.antt =====
-- `_governance_target` of src/recallops/store.py: the lifecycle of a memory under review.
pub mod Sound
use recallops.Domain.{
  GovernanceAction, MemoryState, ReviewReasonCode, active, quarantined, rejected,
  new_contradictory_evidence, superseded, policy_change, revoked, compatibility_invalidated,
  expired, certify, data_quality, pending_review, activate, inconclusive, memory_state_eq,
  other_bounded, quarantine, outcome_eq, reject, supersede, revoke, expire, evidence_accepted,
  action_eq, reason_eq,
}
use recallops.Common.{
  String, Bool, Option, true, List, all_codes, false, option_beq, some, codes, if◌then◌else◌, ltb,
  ◌&&◌, none, ◌==◌, find_first, is_none, string_eq, ◌!=◌, nat_eq, option_eq, not, concat, ◌∷◌, [],
}
use recallops.Workflow.Snapshot.{Time}
use recallops.Memory.Version.{Unicode, version_compatibility}
use recallops.Result.{Result, err, governance_error, ok, ◌>>◌, raise_if, Error, check_all}
use recallops.Memory.Record.{Memory, MemoryGovernanceRequest}

-- `targets`
unfoldable pub target_of : GovernanceAction → MemoryState
target_of certify = active
target_of activate = active
target_of quarantine = quarantined
target_of reject = rejected
target_of supersede = superseded
target_of revoke = revoked
target_of expire = expired

-- `target in allowed[state]`
unfoldable pub allowed : MemoryState → MemoryState → Bool
allowed pending_review active = true
allowed pending_review quarantined = true
allowed pending_review rejected = true
allowed active quarantined = true
allowed active superseded = true
allowed active revoked = true
allowed active expired = true
allowed quarantined active = true
allowed quarantined rejected = true
allowed quarantined revoked = true
allowed quarantined expired = true
allowed _ _ = false

-- `revocation_reasons`
pub is_revocation_reason : ReviewReasonCode → Bool
is_revocation_reason new_contradictory_evidence = true
is_revocation_reason policy_change = true
is_revocation_reason compatibility_invalidated = true
is_revocation_reason data_quality = true
is_revocation_reason other_bounded = true
is_revocation_reason _ = false

-- `MemoryState.value`
abbrev pub state_value : MemoryState → String
state_value pending_review = "pending_review"
state_value active = "active"
state_value quarantined = "quarantined"
state_value rejected = "rejected"
state_value superseded = "superseded"
state_value revoked = "revoked"
state_value expired = "expired"

abbrev refusal {ℓ} : {A : Type ℓ} → String → Result A
refusal message = err (governance_error message)

-- A time that is not there, or that lies ahead.
abbrev pub is_unexpired : Time → Option Time → Bool
is_unexpired now none = true
is_unexpired now (some t) = ltb now t

module _ {F : Type 0} (u : Unicode) (now : Time) (memory : Memory F)
    (request : MemoryGovernanceRequest) where
  -- `not reason.strip()`
  pub is_blank : String → Bool
  is_blank reason = all_codes u.space (codes reason)

  -- The candidate test of the search for a replacement.
  pub is_replacement : Memory F → Bool
  is_replacement candidate =
      option_beq (some candidate.id) request.replacement_memory_id
      && candidate.tenant_id == memory.tenant_id
      && candidate.state == active
      && candidate.valid
      && candidate.service == memory.service
      && version_compatibility u candidate.service_version memory.service_version
          candidate.compatibility_policy
        == 100
      && candidate.outcome_semantics != some inconclusive
      && is_unexpired now candidate.expires_at

  replacement_error : Result MemoryState
  replacement_error =
      refusal
        "active same-tenant replacement memory required; replacement must be same-service, admissible, and conclusive"

  check_replacement : Option (Memory F) → Result MemoryState
  unfolding replacement_error
  check_replacement none = replacement_error
  check_replacement (some replacement) =
      if replacement.id == memory.id then replacement_error else ok superseded

  -- The tests on the replacement, which come last.
  replacement_step : List (Memory F) → MemoryState → Result MemoryState
  unfolding check_replacement
  replacement_step memories target =
      if target == superseded
      then check_replacement (find_first is_replacement memories)
      else if is_none request.replacement_memory_id
      then ok target
      else refusal "replacement memory is only valid for supersession"

  -- The tests before those on the replacement, in order.
  pub governance_checks : MemoryState → List (Bool × Error)
  unfolding is_blank
  governance_checks target =
      (
        not (allowed memory.state target),
        governance_error (
            concat
              ("cannot transition " ∷ state_value memory.state ∷ " to " ∷ state_value target ∷ [])),
      )
      ∷ (
        request.action == certify && memory.outcome_semantics == some inconclusive,
        governance_error "inconclusive evidence cannot be certified",
      )
      ∷ (
        request.action == certify && request.reason_code != evidence_accepted,
        governance_error "certification requires EVIDENCE_ACCEPTED",
      )
      ∷ (
        request.action == revoke && not (is_revocation_reason request.reason_code),
        governance_error "invalid revocation reason code",
      )
      ∷ (
        target == active && memory.observed_by == some request.actor_id,
        governance_error "independent reviewer required for activation",
      )
      ∷ (
        request.reason_code == other_bounded && is_blank request.reason,
        governance_error "OTHER_BOUNDED requires a reviewer note",
      )
      ∷ []

  unfoldable pub governance_target : List (Memory F) → Result MemoryState
  unfolding replacement_step governance_checks
  governance_target memories =
      check_all (governance_checks (target_of request.action))
        (replacement_step memories (target_of request.action))
