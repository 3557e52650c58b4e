-- ===== src/Workflow/Snapshot.antt =====
-- `WorkflowSnapshot`, `CapabilityManifest` and `manifest` of src/recallops/workflow.py.
use recallops.Workflow.States.{authority_owner as owner_of, capabilities, WorkflowState}
use recallops.Common.{
  Bool, List, String, ℕ, Option, has_length, true, if◌then◌else◌, some, ◌&&◌, ◌∷◌, [], leb,
  is_digest, none,
}

-- A UUID is its canonical text; a `datetime` is a number of microseconds.

abbrev pub Uuid : Type 0
Uuid = String

abbrev pub Time : Type 0
Time = ℕ

pub record WorkflowSnapshot : Type 0 where
  pub workflow_id : Uuid
  pub tenant_id : String
  pub state : WorkflowState
  pub epoch : ℕ
  pub active : Bool
  pub proposal_hash : Option String
  pub operator_subject : Option String
  pub reviewer_subject : Option String
  pub created_at : Time
  pub updated_at : Time

-- A constraint on an optional field.
abbrev pub holds? : (String → Bool) → Option String → Bool
holds? p none = true
holds? p (some s) = p s

-- The field constraints that pydantic checks when a snapshot is built from its fields.
pub check_snapshot : WorkflowSnapshot → Bool
check_snapshot s =
    has_length 1 80 s.tenant_id
    && leb 1 s.epoch
    && holds? is_digest s.proposal_hash
    && holds? (has_length 0 200) s.operator_subject
    && holds? (has_length 0 200) s.reviewer_subject

-- `WorkflowSnapshot.available_tools`
abbrev pub available_tools : WorkflowSnapshot → List String
available_tools s = if s.active then capabilities s.state else []

pub record CapabilityManifest : Type 0 where
  pub workflow_id : Uuid
  pub state : WorkflowState
  pub epoch : ℕ
  pub active : Bool
  pub authority_owner : String
  pub available_tools : List String
  pub protected_tools : List String

abbrev pub protected_tools : List String
protected_tools =
    "approve_proposal" ∷ "apply_sandbox_mitigation" ∷ "retry_observation" ∷ "activate_memory"
    ∷ "reject_memory" ∷ "reset_demo" ∷ []

unfoldable pub manifest : WorkflowSnapshot → CapabilityManifest
manifest s = record {
  workflow_id = s.workflow_id;
  state = s.state;
  epoch = s.epoch;
  active = s.active;
  authority_owner = if s.active then owner_of s.state else "NONE";
  available_tools = available_tools s;
  protected_tools = protected_tools;
}
