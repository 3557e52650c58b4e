-- ===== src/Domain.antt =====
-- The enumerations of src/recallops/domain.py, and equality tests on them by position.
use recallops.Common.{Bool, Eq, ℕ, ◌≡◌, nat_beq, true, ◌↔◌, arith}

pub data MemoryState : Type 0 where
  pending_review active quarantined rejected superseded revoked expired : MemoryState

abbrev memory_state_position : MemoryState → ℕ
memory_state_position pending_review = 0
memory_state_position active = 1
memory_state_position quarantined = 2
memory_state_position rejected = 3
memory_state_position superseded = 4
memory_state_position revoked = 5
memory_state_position expired = 6

abbrev pub memory_state_beq : MemoryState → MemoryState → Bool
memory_state_beq a b = nat_beq (memory_state_position a) (memory_state_position b)

pub memory_state_beq_iff : (a b : MemoryState) → (memory_state_beq a b ≡ true) ↔ (a ≡ b)
memory_state_beq_iff a b = ground arith

instance abbrev pub memory_state_eq : Eq MemoryState
memory_state_eq = record { beq = memory_state_beq; beq_iff = memory_state_beq_iff }

pub data GovernanceAction : Type 0 where
  certify activate quarantine reject supersede revoke expire : GovernanceAction

abbrev action_position : GovernanceAction → ℕ
action_position certify = 0
action_position activate = 1
action_position quarantine = 2
action_position reject = 3
action_position supersede = 4
action_position revoke = 5
action_position expire = 6

abbrev pub action_beq : GovernanceAction → GovernanceAction → Bool
action_beq a b = nat_beq (action_position a) (action_position b)

pub action_beq_iff : (a b : GovernanceAction) → (action_beq a b ≡ true) ↔ (a ≡ b)
action_beq_iff a b = ground arith

instance abbrev pub action_eq : Eq GovernanceAction
action_eq = record { beq = action_beq; beq_iff = action_beq_iff }

pub data MemoryOutcome : Type 0 where
  positive negative inconclusive : MemoryOutcome

abbrev outcome_position : MemoryOutcome → ℕ
outcome_position positive = 0
outcome_position negative = 1
outcome_position inconclusive = 2

abbrev pub outcome_beq : MemoryOutcome → MemoryOutcome → Bool
outcome_beq a b = nat_beq (outcome_position a) (outcome_position b)

pub outcome_beq_iff : (a b : MemoryOutcome) → (outcome_beq a b ≡ true) ↔ (a ≡ b)
outcome_beq_iff a b = ground arith

instance abbrev pub outcome_eq : Eq MemoryOutcome
outcome_eq = record { beq = outcome_beq; beq_iff = outcome_beq_iff }

pub data ReviewReasonCode : Type 0 where
  evidence_accepted needs_investigation invalid_binding insufficient_evidence policy_conflict
        new_contradictory_evidence policy_change compatibility_invalidated data_quality
        other_bounded :
      ReviewReasonCode

abbrev reason_position : ReviewReasonCode → ℕ
reason_position evidence_accepted = 0
reason_position needs_investigation = 1
reason_position invalid_binding = 2
reason_position insufficient_evidence = 3
reason_position policy_conflict = 4
reason_position new_contradictory_evidence = 5
reason_position policy_change = 6
reason_position compatibility_invalidated = 7
reason_position data_quality = 8
reason_position other_bounded = 9

abbrev pub reason_beq : ReviewReasonCode → ReviewReasonCode → Bool
reason_beq a b = nat_beq (reason_position a) (reason_position b)

pub reason_beq_iff : (a b : ReviewReasonCode) → (reason_beq a b ≡ true) ↔ (a ≡ b)
reason_beq_iff a b = ground arith

instance abbrev pub reason_eq : Eq ReviewReasonCode
reason_eq = record { beq = reason_beq; beq_iff = reason_beq_iff }

pub data EvidenceVerification : Type 0 where
  manual_attestation system_observed externally_verified : EvidenceVerification

abbrev verification_position : EvidenceVerification → ℕ
verification_position manual_attestation = 0
verification_position system_observed = 1
verification_position externally_verified = 2

abbrev pub verification_beq : EvidenceVerification → EvidenceVerification → Bool
verification_beq a b = nat_beq (verification_position a) (verification_position b)

pub verification_beq_iff : (a b : EvidenceVerification) → (verification_beq a b ≡ true) ↔ (a ≡ b)
verification_beq_iff a b = ground arith

instance abbrev pub verification_eq : Eq EvidenceVerification
verification_eq = record { beq = verification_beq; beq_iff = verification_beq_iff }

pub data PostcheckClassification : Type 0 where
  recovered not_recovered inconclusive : PostcheckClassification

abbrev classification_position : PostcheckClassification → ℕ
classification_position recovered = 0
classification_position not_recovered = 1
classification_position inconclusive = 2

abbrev pub classification_beq : PostcheckClassification → PostcheckClassification → Bool
classification_beq a b = nat_beq (classification_position a) (classification_position b)

pub classification_beq_iff :
    (a b : PostcheckClassification) → (classification_beq a b ≡ true) ↔ (a ≡ b)
classification_beq_iff a b = ground arith

instance abbrev pub classification_eq : Eq PostcheckClassification
classification_eq = record { beq = classification_beq; beq_iff = classification_beq_iff }

pub data CompatibilityPolicy : Type 0 where
  exact semver_patch semver_minor : CompatibilityPolicy

abbrev policy_position : CompatibilityPolicy → ℕ
policy_position exact = 0
policy_position semver_patch = 1
policy_position semver_minor = 2

abbrev pub policy_beq : CompatibilityPolicy → CompatibilityPolicy → Bool
policy_beq a b = nat_beq (policy_position a) (policy_position b)

pub policy_beq_iff : (a b : CompatibilityPolicy) → (policy_beq a b ≡ true) ↔ (a ≡ b)
policy_beq_iff a b = ground arith

instance abbrev pub policy_eq : Eq CompatibilityPolicy
policy_eq = record { beq = policy_beq; beq_iff = policy_beq_iff }

pub data ActionRisk : Type 0 where
  read_only mutating : ActionRisk
