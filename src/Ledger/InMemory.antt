-- ===== src/Ledger/InMemory.antt =====
-- `_event` and `InMemoryAuthorityLedgerRepository` of src/recallops/ledger.py. The caller gives
-- what the code draws: a fresh event id and the time. A fault hook is a function of the stage.
pub mod Appends
pub mod Chain
pub mod Tamper
use recallops.Dict
use recallops.Common.{
  List, Option, String, [], ℕ, ◌++◌, Bool, last?, none, some, ◌∷◌, false, length, pair_eq,
  string_eq, not, ◌+◌, or_text, concat,
}
use recallops.Workflow.Snapshot.{Uuid, Time, WorkflowSnapshot, available_tools}
use recallops.Dict.{Dict}
use recallops.Ledger.Event.{
  Hashing, AuthorityEvent, zero_event_hash, check_event, authority_event_hash,
  canonical_event_payload,
}
use recallops.Workflow.States.{RequestChannel, system, value}
use recallops.Result.{Result, err, ok, ◌>>◌, raise_if, validation_error, ◌>>=◌}
use recallops.Ledger.Repository.{Append, FaultHook, fault}

-- A run as `bind_run` stores it.
pub record Run : Type 0 where
  pub run_id : Uuid
  pub build_sha : String
  pub policy_version : String

pub record ActivityObservation : Type 0 where
  pub activity_id : Uuid
  pub run_id : Uuid
  pub tenant_id : String
  pub workflow_id : Uuid
  pub recorded_at : Time
  pub source : String
  pub actor_subject : String
  pub activity_type : String
  pub tool_name : Option String
  pub outcome : String
  pub display_summary : String
  pub authority_event_id : Option Uuid
  pub object_digest : Option String
  pub build_sha : String
  pub client_instance_id_hash : Option String

pub record ReceiptRequest : Type 0 where
  pub receipt_id : Uuid
  pub run_id : Uuid
  pub tenant_id : String
  pub target_sequence : ℕ
  pub target_ledger_hash : String
  pub receipt_policy_version : String
  pub source_sha : String
  pub image_digest : String
  pub evaluation_version : String
  pub synthetic : Bool
  pub publish_public : Bool
  pub status : String

pub record Ledger : Type 0 where
  pub runs : Dict (String × Uuid) Run
  pub events : Dict (String × Uuid) (List AuthorityEvent)
  pub activities : Dict (String × Uuid) (List ActivityObservation)
  pub receipt_requests : Dict Uuid ReceiptRequest

pub bind_run : String → Uuid → Uuid → String → String → Ledger → Ledger
bind_run tenant_id workflow_id run_id build_sha policy_version l = record l {
  runs =
      Dict.put (tenant_id, workflow_id)
        (record { run_id = run_id; build_sha = build_sha; policy_version = policy_version }) l.runs;
}

-- The hash of the last event, or the hash before the first.
abbrev pub head_hash : List AuthorityEvent → String
head_hash events = elim (last? events) [ none ↦ zero_event_hash | some e ↦ e.event_hash ]

-- The fields of a new event, before its hash is computed.
unfoldable pub draft :
    Uuid
    → Time
    → Run
    → List AuthorityEvent
    → WorkflowSnapshot
    → WorkflowSnapshot
    → Append
    → AuthorityEvent
draft event_id now run events before after a = record {
  event_id = event_id;
  run_id = run.run_id;
  tenant_id = before.tenant_id;
  sequence = length events + 1;
  recorded_at = now;
  event_type = or_text a.event_type (concat (value before.state ∷ "_TO_" ∷ value after.state ∷ []));
  outcome = "accepted";
  actor_subject = a.actor_subject;
  actor_role = a.actor_role;
  channel = a.channel;
  workflow_id = before.workflow_id;
  epoch_before = before.epoch;
  epoch_after = after.epoch;
  state_before = or_text a.state_before (value before.state);
  state_after = value after.state;
  capabilities_before = available_tools before;
  capabilities_after = available_tools after;
  object_type = a.object_type;
  object_id = a.object_id;
  object_digest = a.object_digest;
  reason_code = a.reason_code;
  display_summary =
      or_text a.display_summary
        (concat ("Authority committed: " ∷ value before.state ∷ " → " ∷ value after.state ∷ []));
  policy_version = run.policy_version;
  build_sha = run.build_sha;
  previous_event_hash = head_hash events;
  event_hash = zero_event_hash;
}

module _ (h : Hashing) where
  -- `_event`: the constructor validates the fields, then the hash is put in.
  unfoldable pub event :
      Uuid
      → Time
      → Run
      → List AuthorityEvent
      → WorkflowSnapshot
      → WorkflowSnapshot
      → Append
      → Result AuthorityEvent
  unfolding draft
  event event_id now run events before after a = do
    let e = draft event_id now run events before after a
    raise_if (not (check_event e)) (validation_error "AuthorityEvent")
    computed ← authority_event_hash h e.previous_event_hash (canonical_event_payload h e)
    ok (record e { event_hash = computed })

  -- The three stages after the event is in the list; a raise takes it out again.
  after_append :
      FaultHook
      → String × Uuid
      → List AuthorityEvent
      → AuthorityEvent
      → Ledger
      → Result (Option AuthorityEvent) × Ledger
  after_append hook key events e l =
      elim (fault hook "after_event" >> fault hook "before_head" >> fault hook "after_head") [
        | err x ↦ (err x, record l { events = Dict.put key events l.events })
        | ok _ ↦ (ok (some e), l)
      ]

  -- The append, once the run of the workflow is known and its list of events is there.
  append_event :
      FaultHook
      → String × Uuid
      → List AuthorityEvent
      → Result AuthorityEvent
      → Ledger
      → Result (Option AuthorityEvent) × Ledger
  unfolding after_append
  append_event hook key events (err x) l = (err x, l)
  append_event hook key events (ok e) l = elim (fault hook "before_event") [
    | err x ↦ (err x, l)
    | ok _ ↦
        after_append hook key events e
          (record l { events = Dict.put key (events ++ e ∷ []) l.events })
  ]

  append_run :
      FaultHook
      → Uuid
      → Time
      → WorkflowSnapshot
      → WorkflowSnapshot
      → Append
      → Option Run
      → Ledger
      → Result (Option AuthorityEvent) × Ledger
  unfolding append_event
  append_run hook event_id now before after a none l = (ok none, l)
  append_run hook event_id now before after a (some run) l =
      let (events, stored) = Dict.setdefault (before.tenant_id, run.run_id) [] l.events in
      append_event hook (before.tenant_id, run.run_id) events
        (event event_id now run events before after a) (record l { events = stored })

  unfoldable pub append_transition :
      FaultHook
      → Uuid
      → Time
      → WorkflowSnapshot
      → WorkflowSnapshot
      → Append
      → Ledger
      → Result (Option AuthorityEvent) × Ledger
  unfolding append_run
  append_transition hook event_id now before after a l =
      append_run hook event_id now before after a
        (Dict.get (before.tenant_id, before.workflow_id) l.runs) l

  -- `append_genesis`; `model_construct` leaves the subjects and the proposal at their defaults.
  pub append_genesis :
      FaultHook → Uuid → Time → WorkflowSnapshot → Ledger → Result (Option AuthorityEvent) × Ledger
  unfolding append_transition
  append_genesis hook event_id now s l =
      append_transition hook event_id now
        (record {
          workflow_id = s.workflow_id;
          tenant_id = s.tenant_id;
          state = s.state;
          epoch = 0;
          active = false;
          proposal_hash = none;
          operator_subject = none;
          reviewer_subject = none;
          created_at = s.created_at;
          updated_at = s.created_at;
        })
        s
        (record {
          actor_subject = "recallops-run-allocator";
          actor_role = "system";
          channel = system;
          reason_code = "RUN_GENESIS_ACCEPTED";
          object_type = none;
          object_id = none;
          object_digest = none;
          event_type = some "RUN_GENESIS";
          state_before = some "ABSENT";
          display_summary = some "Authority committed: isolated judge run created";
        })
        l

-- `d.get(k, ())`
abbrev events_or_none : Option (List AuthorityEvent) → List AuthorityEvent
events_or_none none = []
events_or_none (some events) = events

unfoldable pub list_events : Uuid → String → Ledger → List AuthorityEvent
list_events run_id tenant_id l = events_or_none (Dict.get (tenant_id, run_id) l.events)

pub add_activity : ActivityObservation → Ledger → Ledger
add_activity o l =
    let (before, stored) = Dict.setdefault (o.tenant_id, o.run_id) [] l.activities in
    record l { activities = Dict.put (o.tenant_id, o.run_id) (before ++ o ∷ []) stored }
