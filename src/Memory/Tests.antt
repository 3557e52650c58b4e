-- ===== src/Memory/Tests.antt =====
-- Runs of the governance of memories. Numbers stand for themselves; the Unicode tables are those of
-- ASCII.
use recallops.Memory.Version.{Unicode, version_compatibility}
use recallops.Memory.Record.{Memory, MemoryGovernanceRequest}
use recallops.Common.{String, leb, ℕ, ◌&&◌, ◌≡◌, some, ◌==◌, nat_eq, none, false, ◌∷◌, [], refl}
use recallops.Memory.Governance.{governance_target, target_of, allowed}
use recallops.Domain.{
  certify, semver_minor, evidence_accepted, positive, pending_review, system_observed, exact,
  semver_patch,
}
use recallops.Result.{err, governance_error}

abbrev ascii : Unicode
ascii = record { decimal_digit = λ c. leb b'0' c && leb c b'9'; space = λ c. c == 32 }

abbrev candidate : Memory ℕ
candidate = record {
  id = "m";
  tenant_id = "t";
  service = "checkout";
  service_version = "1.2.3";
  compatibility_policy = semver_minor;
  compatibility_policy_version = "v1";
  symptom = "latency";
  action = "restart";
  outcome = "recovered";
  outcome_score = 1;
  outcome_semantics = some positive;
  confidence = 1;
  valid = false;
  state = pending_review;
  superseded_by = none;
  source_incident_id = some "i";
  observed_by = some "alice";
  evidence_verification = system_observed;
  evidence_refs = "e" ∷ [];
  observation_window_seconds = none;
  postconditions = [];
  reviewed_by = none;
  reviewed_at = none;
  observation_digest = none;
  assessment_digest = none;
  verdict_digest = none;
  memory_digest = none;
  governance_policy_version = "memory-governance-v1";
  governance_version = 1;
  expires_at = none;
  superseded_at = none;
  revoked_at = none;
  embedding_space = "hash";
  embedding = [];
  created_at = 0;
}

abbrev decision : String → MemoryGovernanceRequest
decision actor = record {
  tenant_id = "t";
  actor_id = actor;
  action = certify;
  reason = "reviewed";
  reason_code = evidence_accepted;
  replacement_memory_id = none;
}

observer_refused :
    governance_target ascii 9 candidate (decision "alice") (candidate ∷ [])
    ≡ err (governance_error "independent reviewer required for activation")
unfolding governance_target target_of allowed
observer_refused = refl

same_minor : version_compatibility ascii "v1.2.3" "1.2.9-rc1" semver_patch ≡ 100
unfolding version_compatibility
same_minor = refl

other_minor : version_compatibility ascii "1.2" "1.3.0" semver_patch ≡ 35
unfolding version_compatibility
other_minor = refl

no_version : version_compatibility ascii "01.2" "1.2" exact ≡ 20
unfolding version_compatibility
no_version = refl
