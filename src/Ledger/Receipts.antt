-- ===== src/Ledger/Receipts.antt =====
-- `request_receipt`, `receipt_status` and `timeline` of the in-memory ledger of
-- src/recallops/ledger.py.
pub mod Heads
use recallops.Dict
use recallops.Workflow.Snapshot.{Uuid}
use recallops.Ledger.InMemory.{ReceiptRequest, Ledger, append_transition, list_events}
use recallops.Common.{
  Option, String, Bool, none, some, concat, false, last?, ◌==◌, if◌then◌else◌, select, ◌&&◌, ◌∷◌,
  [], not, ◌||◌, ◌!=◌, string_eq,
}
use recallops.Ledger.Event.{Hashing, AuthorityEvent, event_eq}
use recallops.Ledger.Repository.{FaultHook, ReceiptStatus, AuthorityLedger, ReceiptOptions}
use recallops.Result.{Result, err, ledger_conflict, ok}

-- The row that `request_receipt` stores.
receipt_row : Uuid → AuthorityEvent → ReceiptOptions → ReceiptRequest
receipt_row receipt_id e o = record {
  receipt_id = receipt_id;
  run_id = e.run_id;
  tenant_id = e.tenant_id;
  target_sequence = e.sequence;
  target_ledger_hash = e.event_hash;
  receipt_policy_version = o.receipt_policy_version;
  source_sha = e.build_sha;
  image_digest = o.image_digest;
  evaluation_version = o.evaluation_version;
  synthetic = o.synthetic;
  publish_public = o.publish_public;
  status = "pending";
}

-- The status that is read off a stored request.
status_of : ReceiptRequest → ReceiptStatus
status_of item = record {
  receipt_id = item.receipt_id;
  status = item.status;
  target_sequence = item.target_sequence;
  ledger_head_hash = item.target_ledger_hash;
  bundle_digest = none;
  key_thumbprint = none;
  signing_algorithm = none;
  public = false;
  failure_code = none;
}

-- `events[-1] != event`, where an empty list has no last event
pub is_head : Option AuthorityEvent → AuthorityEvent → Bool
is_head none e = false
is_head (some last) e = last == e

module _ (h : Hashing) where
  unfoldable pub receipt_name : AuthorityEvent → ReceiptOptions → Uuid
  receipt_name e o = h.uuid5 (
      concat (
        "urn:recallops:receipt:" ∷ e.run_id ∷ ":" ∷ e.event_hash ∷ ":" ∷ o.receipt_policy_version
        ∷ []))

  unfoldable pub request_receipt : AuthorityEvent → ReceiptOptions → Ledger → Result Uuid × Ledger
  unfolding receipt_name receipt_row is_head
  request_receipt e o l =
      if not (is_head (last? (list_events e.run_id e.tenant_id l)) e) || e.state_after != "REVIEWED"
      then (err (ledger_conflict "receipt target is not the finalized ledger head"), l)
      else (
        ok (receipt_name e o),
        record l {
          receipt_requests =
              (Dict.setdefault (receipt_name e o) (receipt_row (receipt_name e o) e o)
                l.receipt_requests).1;
        },
      )

-- `item["run_id"] == run_id and item["tenant_id"] == tenant_id`
of_run : Uuid → String → ReceiptRequest → Bool
of_run run_id tenant_id item = item.run_id == run_id && item.tenant_id == tenant_id

latest : Option ReceiptRequest → Option ReceiptStatus
unfolding status_of
latest none = none
latest (some item) = some (status_of item)

pub receipt_status : Uuid → String → Ledger → Option ReceiptStatus
unfolding latest of_run
receipt_status run_id tenant_id l =
    latest (last? (select (of_run run_id tenant_id) (Dict.values l.receipt_requests)))

-- The in-memory ledger as an implementation of the protocol.
unfoldable pub in_memory : Hashing → FaultHook → AuthorityLedger Ledger
in_memory h hook = record {
  append_transition = append_transition h hook;
  list_events = list_events;
  request_receipt = request_receipt h;
  receipt_status = receipt_status;
}
