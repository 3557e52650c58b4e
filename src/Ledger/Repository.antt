-- ===== src/Ledger/Repository.antt =====
-- The part of the `AuthorityLedgerRepository` protocol of src/recallops/ledger.py that the workflow
-- coordinator calls, and the records it passes.
use recallops.Common.{Option, String, Bool, ℕ, some, List, none}
use recallops.Workflow.Snapshot.{Uuid, Time, WorkflowSnapshot}
use recallops.Workflow.States.{RequestChannel}
use recallops.Result.{Result, ok}
use recallops.Ledger.Event.{AuthorityEvent}

-- The keyword arguments of `append_transition`.
pub record Append : Type 0 where
  pub actor_subject : String
  pub actor_role : String
  pub channel : RequestChannel
  pub reason_code : String
  pub object_type : Option String
  pub object_id : Option String
  pub object_digest : Option String
  pub event_type : Option String
  pub state_before : Option String
  pub display_summary : Option String

-- The keyword arguments of `request_receipt`.
pub record ReceiptOptions : Type 0 where
  pub receipt_policy_version : String
  pub image_digest : String
  pub evaluation_version : String
  pub synthetic : Bool
  pub publish_public : Bool

pub record ReceiptStatus : Type 0 where
  pub receipt_id : Uuid
  pub status : String
  pub target_sequence : ℕ
  pub ledger_head_hash : String
  pub bundle_digest : Option String
  pub key_thumbprint : Option String
  pub signing_algorithm : Option String
  pub public : Bool
  pub failure_code : Option String

-- A ledger keeps its rows in an `L`. A fresh event id and the time are given by the caller.
pub record AuthorityLedger (L : Type 0) : Type 0 where
  pub append_transition :
      Uuid
      → Time
      → WorkflowSnapshot
      → WorkflowSnapshot
      → Append
      → L
      → Result (Option AuthorityEvent) × L
  pub list_events : Uuid → String → L → List AuthorityEvent
  pub request_receipt : AuthorityEvent → ReceiptOptions → L → Result Uuid × L
  pub receipt_status : Uuid → String → L → Option ReceiptStatus

-- `fault_hook`, which may raise at a named stage; `None` never does.
abbrev pub FaultHook : Type 0
FaultHook = Option (String → Result (Unit {0}))

abbrev pub fault : FaultHook → String → Result (Unit {0})
fault none stage = ok tt
fault (some hook) stage = hook stage
