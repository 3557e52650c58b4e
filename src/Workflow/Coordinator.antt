-- ===== src/Workflow/Coordinator.antt =====
-- `WorkflowCoordinator` of src/recallops/workflow.py, over any repository and an optional ledger.
-- A method that raises after the repository has moved leaves the repository moved: the state comes
-- back beside the error. A role is the text that the caller passes.
pub mod Authority
pub mod Moves
pub mod Outcomes
pub mod History
use recallops.Workflow.Snapshot.{
  Uuid, CapabilityManifest, Time, WorkflowSnapshot, manifest, check_snapshot,
}
use recallops.Common.{
  Option, String, Bool, if◌then◌else◌, none, ℕ, false, some, ◌&&◌, ◌==◌, not, string_eq, true, ◌!=◌,
  ◌||◌, concat, nat_eq, ◌∷◌, [], last?,
}
use recallops.Workflow.States.{
  WorkflowState, RequestChannel, awaiting_operator_approval, investigating, ui, webmcp, system,
  pending_review, state_eq, observing_postcheck, postcheck_ready, channel_eq,
}
use recallops.Workflow.Repository.{TransitionRequest, WorkflowRepository}
use recallops.Ledger.Repository.{
  Append, AuthorityLedger, FaultHook, fault, ReceiptOptions, ReceiptStatus,
}
use recallops.Result.{Result, err, ◌>>=◌, ◌>>◌, ok, raise_if, workflow_conflict, validation_error}
use recallops.Ledger.Event.{AuthorityEvent}

-- The arguments of `transition` and `validate_transition`.
pub record Move : Type 0 where
  pub workflow_id : Uuid
  pub tenant_id : String
  pub expected_epoch : ℕ
  pub expected_state : WorkflowState
  pub target_state : WorkflowState
  pub channel : RequestChannel
  pub actor_subject : String
  pub role : String
  pub reason_code : String
  pub object_type : Option String
  pub object_id : Option String
  pub object_digest : Option String
  pub allow_legacy_ui : Bool

abbrev conflict {ℓ} : {A : Type ℓ} → String → Result A
conflict message = err (workflow_conflict message)

-- The role that a transition out of a state wants, or the refusal of its channel and role.
unfoldable pub required_role : WorkflowState → RequestChannel → String → Bool → Result String
required_role investigating channel role allow_legacy_ui =
    if allow_legacy_ui && (channel == ui && role == "operator")
    then ok "operator"
    else if channel == webmcp && role == "agent"
    then ok "agent"
    else conflict "proposal transition requires WebMCP agent authority"
required_role observing_postcheck channel role allow_legacy_ui =
    if channel != system || role != "system"
    then conflict "postcheck state transition requires system authority"
    else ok "system"
required_role postcheck_ready channel role allow_legacy_ui =
    if channel != webmcp || role != "agent"
    then conflict "postcheck assessment requires WebMCP agent authority"
    else ok "agent"
required_role expected_state channel role allow_legacy_ui =
    if channel != ui
    then conflict "protected transition is not authorized through WebMCP"
    else ok (if expected_state == pending_review then "reviewer" else "operator")

-- `None` is no subject.
abbrev is_subject : Option String → String → Bool
is_subject none actor = false
is_subject (some s) actor = s == actor

-- The tests on the row, once the role is known to be right.
check_row : Move → String → Option WorkflowSnapshot → Result WorkflowSnapshot
check_row m required none = conflict "workflow not found"
check_row m required (some current) =
    if not current.active
      || (current.epoch != m.expected_epoch || current.state != m.expected_state)
    then conflict "stale workflow state or epoch"
    else if required == "reviewer" && is_subject current.operator_subject m.actor_subject
    then conflict "independent reviewer subject required"
    else ok current

-- The snapshot that an analysis starts its workflow with.
pub initial : Time → String → Uuid → Option String → Bool → WorkflowSnapshot
initial now tenant_id workflow_id action_hash mutating = record {
  workflow_id = workflow_id;
  tenant_id = tenant_id;
  state = if mutating then awaiting_operator_approval else investigating;
  epoch = 1;
  active = true;
  proposal_hash = action_hash;
  operator_subject = none;
  reviewer_subject = none;
  created_at = now;
  updated_at = now;
}

module _ {R : Type 0} (ops : WorkflowRepository R) where
  unfoldable pub validate_transition : Move → R → Result WorkflowSnapshot
  unfolding check_row
  validate_transition m r = do
    required ← required_role m.expected_state m.channel m.role m.allow_legacy_ui
    raise_if (m.role != required)
        (workflow_conflict (concat (required ∷ " role required for workflow transition" ∷ [])))
    check_row m required (ops.get m.workflow_id m.tenant_id r)

  -- `ensure_for_analysis`; the snapshot is validated as it is built.
  pub ensure_for_analysis :
      Time → String → Uuid → Option String → Bool → R → Result WorkflowSnapshot × R
  unfolding initial
  ensure_for_analysis now tenant_id workflow_id action_hash mutating r =
      let s = initial now tenant_id workflow_id action_hash mutating in
      if check_snapshot s then ops.ensure s r else (err (validation_error "WorkflowSnapshot"), r)

  pub capability_manifest : Uuid → String → R → Option CapabilityManifest
  capability_manifest workflow_id tenant_id r = elim (ops.get workflow_id tenant_id r) [
    | none ↦ none
    | some s ↦ some (manifest s)
  ]

-- The call of the repository that a transition makes.
unfoldable pub request : Move → TransitionRequest
request m = record {
  workflow_id = m.workflow_id;
  tenant_id = m.tenant_id;
  expected_epoch = m.expected_epoch;
  expected_state = m.expected_state;
  target_state = m.target_state;
  operator_subject = if m.role == "operator" then some m.actor_subject else none;
  reviewer_subject = if m.role == "reviewer" then some m.actor_subject else none;
}

-- The call of the ledger that a transition makes.
pub evidence : Move → Append
evidence m = record {
  actor_subject = m.actor_subject;
  actor_role = m.role;
  channel = m.channel;
  reason_code = m.reason_code;
  object_type = m.object_type;
  object_id = m.object_id;
  object_digest = m.object_digest;
  event_type = none;
  state_before = none;
  display_summary = none;
}

module _ {R L : Type 0} (ops : WorkflowRepository R) (ledger : Option (AuthorityLedger L))
    (hook : FaultHook) (event_id : Uuid) (now : Time) where
  -- The append that follows a committed move; `None` is no ledger.
  record_event :
      Option (AuthorityLedger L)
      → WorkflowSnapshot
      → WorkflowSnapshot
      → Append
      → R
      → L
      → Result WorkflowSnapshot × R × L
  record_event none before after a r l = (ok after, r, l)
  record_event (some x) before after a r l =
      let (appended, l') = x.append_transition event_id now before after a l in
      elim appended [ err e ↦ (err e, r, l') | ok _ ↦ (ok after, r, l') ]

  -- What follows the repository's answer.
  settle :
      WorkflowSnapshot → Append → Result WorkflowSnapshot → R → L → Result WorkflowSnapshot × R × L
  unfolding record_event
  settle before a (err e) r l = (err e, r, l)
  settle before a (ok after) r l = elim (fault hook "after_workflow") [
    | err e ↦ (err e, r, l)
    | ok _ ↦ record_event ledger before after a r l
  ]

  -- The call of the repository, between the row that was read before it and the evidence.
  commit :
      (R → Result WorkflowSnapshot × R)
      → Append
      → R
      → L
      → Option WorkflowSnapshot
      → Result WorkflowSnapshot × R × L
  unfolding settle
  commit write a r l none = (conflict "workflow not found", r, l)
  commit write a r l (some before) = elim (fault hook "before_workflow") [
    | err e ↦ (err e, r, l)
    | ok _ ↦ let (written, r') = write r in settle before a written r' l
  ]

  -- The transition, by the outcome of its validation.
  validated : Move → R → L → Result WorkflowSnapshot → Result WorkflowSnapshot × R × L
  unfolding commit request evidence
  validated m r l (err e) = (err e, r, l)
  validated m r l (ok _) =
      commit (ops.transition now (request m)) (evidence m) r l (ops.get m.workflow_id m.tenant_id r)

  unfoldable pub transition : Move → R → L → Result WorkflowSnapshot × R × L
  unfolding validated
  transition m r l = validated m r l (validate_transition ops m r)

  pub invalidate :
      Uuid → String → ℕ → RequestChannel → String → String → R → L → Result WorkflowSnapshot × R × L
  unfolding commit
  invalidate workflow_id tenant_id expected_epoch channel role actor_subject r l =
      if channel != ui || role != "operator"
      then (conflict "reset requires the operator UI channel", r, l)
      else commit (ops.invalidate now workflow_id tenant_id expected_epoch)
          (record {
            actor_subject = actor_subject;
            actor_role = role;
            channel = channel;
            reason_code = "WORKFLOW_RESET_ACCEPTED";
            object_type = none;
            object_id = none;
            object_digest = none;
            event_type = none;
            state_before = none;
            display_summary = none;
          })
          r l (ops.get workflow_id tenant_id r)

module _ {L : Type 0} where
  -- `events[-1]` of a list that is not empty
  receipt_of : AuthorityLedger L → ReceiptOptions → L → Option AuthorityEvent → Result Uuid × L
  receipt_of x o l none = (conflict "receipt target event is unavailable", l)
  receipt_of x o l (some e) = x.request_receipt e o l

  pub request_receipt :
      Option (AuthorityLedger L) → Uuid → String → ReceiptOptions → L → Result Uuid × L
  unfolding receipt_of
  request_receipt none run_id tenant_id o l = (conflict "authority ledger is unavailable", l)
  request_receipt (some x) run_id tenant_id o l =
      receipt_of x o l (last? (x.list_events run_id tenant_id l))

  pub receipt_status : Option (AuthorityLedger L) → Uuid → String → L → Option ReceiptStatus
  receipt_status none run_id tenant_id l = none
  receipt_status (some x) run_id tenant_id l = x.receipt_status run_id tenant_id l
