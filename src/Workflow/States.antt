-- ===== src/Workflow/States.antt =====
-- The enumerations of src/recallops/workflow.py, and what each state grants.
use recallops.Common.{ℕ, String, ◌≡◌, ◌↔◌, Bool, List, [], ◌∷◌, arith, Eq, nat_beq, true, false}

pub data WorkflowState : Type 0 where
  investigating awaiting_operator_approval approved_awaiting_execution : WorkflowState
  observing_postcheck postcheck_ready postcheck_unavailable pending_review reviewed : WorkflowState

pub data RequestChannel : Type 0 where
  webmcp ui system : RequestChannel

-- The members of a `StrEnum`, by their positions.
abbrev position : WorkflowState → ℕ
position investigating = 0
position awaiting_operator_approval = 1
position approved_awaiting_execution = 2
position observing_postcheck = 3
position postcheck_ready = 4
position postcheck_unavailable = 5
position pending_review = 6
position reviewed = 7

WorkflowState-discrete : Discrete WorkflowState
WorkflowState-discrete = hlevel

abbrev pub state_beq : WorkflowState → WorkflowState → Bool
state_beq s t = nat_beq (position s) (position t)

pub state_beq_iff : (s t : WorkflowState) → (state_beq s t ≡ true) ↔ (s ≡ t)
state_beq_iff s t = ground arith

instance abbrev pub state_eq : Eq WorkflowState
state_eq = record { beq = state_beq; beq_iff = state_beq_iff }

abbrev pub channel_beq : RequestChannel → RequestChannel → Bool
channel_beq webmcp webmcp = true
channel_beq ui ui = true
channel_beq system system = true
channel_beq _ _ = false

pub channel_beq_iff : (a b : RequestChannel) → (channel_beq a b ≡ true) ↔ (a ≡ b)
channel_beq_iff a b = ground arith

instance abbrev pub channel_eq : Eq RequestChannel
channel_eq = record { beq = channel_beq; beq_iff = channel_beq_iff }

-- `WorkflowState.value`
abbrev pub value : WorkflowState → String
value investigating = "INVESTIGATING"
value awaiting_operator_approval = "AWAITING_OPERATOR_APPROVAL"
value approved_awaiting_execution = "APPROVED_AWAITING_EXECUTION"
value observing_postcheck = "OBSERVING_POSTCHECK"
value postcheck_ready = "POSTCHECK_READY"
value postcheck_unavailable = "POSTCHECK_UNAVAILABLE"
value pending_review = "PENDING_REVIEW"
value reviewed = "REVIEWED"

-- `CAPABILITIES`
abbrev pub capabilities : WorkflowState → List String
capabilities investigating = "inspect_incident" ∷ "propose_mitigation" ∷ []
capabilities postcheck_ready = "inspect_incident" ∷ "record_postcheck_assessment" ∷ []
capabilities reviewed = "inspect_incident" ∷ "recall_reviewed_memory" ∷ []
capabilities _ = "inspect_incident" ∷ []

abbrev pub authority_owner : WorkflowState → String
authority_owner investigating = "AGENT"
authority_owner awaiting_operator_approval = "HUMAN_OPERATOR"
authority_owner approved_awaiting_execution = "HUMAN_OPERATOR"
authority_owner postcheck_unavailable = "HUMAN_OPERATOR"
authority_owner observing_postcheck = "SYSTEM"
authority_owner postcheck_ready = "AGENT"
authority_owner pending_review = "HUMAN_REVIEWER"
authority_owner reviewed = "GOVERNED_MEMORY"
