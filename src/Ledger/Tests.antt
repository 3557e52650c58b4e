-- ===== src/Ledger/Tests.antt =====
-- Runs of the in-memory ledger, with a hash that forgets its argument.
pub mod Encoding
use recallops.Dict
use recallops.Ledger.Event.{
  AuthorityEvent, Hashing, zero_event_hash, check_event, authority_event_hash, verify_event,
  canonical_event_payload,
}
use recallops.Workflow.Snapshot.{WorkflowSnapshot, Uuid}
use recallops.Ledger.Repository.{Append, ReceiptOptions}
use recallops.Ledger.InMemory.{Ledger, Run, append_transition, draft, list_events, event}
use recallops.Common.{
  ◌≡◌, [], none, pair_eq, some, string_eq, true, ◌∷◌, false, refl, false≢true, ap, String, last?,
  ==_refl, has_length, is_digest, map, ◌⊎◌, from_hex, is_lower_case,
}
use recallops.Ledger.InMemory.Chain.{IsChained, append_transition-IsChained, Chain}
use recallops.Ledger.Receipts.{request_receipt, receipt_name}
use recallops.Workflow.States.{reviewed, ui, pending_review}
use recallops.Ledger.InMemory.Appends.{
  append_transition_frame, appended, list_events-append_transition,
}
use recallops.Result.{ok}
use recallops.Ledger.Receipts.Heads.{request_receipt_once}
use recallops.Ledger.Tests.Encoding.{enc_payload, enc_payload-injective}
use recallops.Ledger.InMemory.Tamper.{IsCanonical, tamper_evident}
use recallops.Ledger.Event.Collision.{Collision}

abbrev pub forgetful : Hashing
forgetful = record {
  sha256 = λ bytes. zero_event_hash;
  canonical_bytes = λ payload. [];
  timestamp = λ t. "2026-01-01T00:00:00Z";
  uuid5 = λ name. name;
}

abbrev opened : WorkflowSnapshot
opened = record {
  workflow_id = "w";
  tenant_id = "t";
  state = pending_review;
  epoch = 5;
  active = true;
  proposal_hash = none;
  operator_subject = some "alice";
  reviewer_subject = none;
  created_at = 10;
  updated_at = 20;
}

abbrev closed : WorkflowSnapshot
closed = record opened { state = reviewed; epoch = 6; reviewer_subject = some "bob" }

abbrev reason : Append
reason = record {
  actor_subject = "bob";
  actor_role = "reviewer";
  channel = ui;
  reason_code = "REVIEW_ACCEPTED";
  object_type = none;
  object_id = none;
  object_digest = none;
  event_type = none;
  state_before = none;
  display_summary = none;
}

abbrev bound_run : Run
bound_run = record { run_id = "r"; build_sha = "sha"; policy_version = "p1" }

abbrev fresh : Ledger
fresh = record {
  runs = Dict.put ("t", "w") bound_run Dict.empty;
  events = Dict.empty;
  activities = Dict.empty;
  receipt_requests = Dict.empty;
}

abbrev first_event : AuthorityEvent
first_event = draft "e" 30 bound_run [] opened closed reason

-- The first append returns the first event of the run.
first_append :
    (append_transition forgetful none "e" 30 opened closed reason fresh).0 ≡ ok (some first_event)
unfolding append_transition event draft check_event has_length is_digest from_hex is_lower_case
    authority_event_hash Dict.setdefault Dict.get Dict.put Dict.empty
first_append = refl

fresh-IsChained : IsChained forgetful fresh
unfolding list_events Dict.get Dict.empty
fresh-IsChained run_id tenant_id = tt

bound : Dict.get ("t", "w") fresh.runs ≡ some bound_run
unfolding Dict.get Dict.put Dict.empty
bound = refl

append_transition-IsChained_example :
    IsChained forgetful (append_transition forgetful none "e" 30 opened closed reason fresh).1
append_transition-IsChained_example =
    append_transition-IsChained forgetful none "e" 30 opened closed reason fresh fresh-IsChained

list_events-append_transition_example :
    list_events "r" "t" (append_transition forgetful none "e" 30 opened closed reason fresh).1
    ≡ appended
        (append_transition forgetful none "e" 30 opened closed reason fresh).0
        (list_events "r" "t" fresh)
list_events-append_transition_example =
    list_events-append_transition forgetful none "e" 30 opened closed reason fresh bound_run bound

append_transition_frame_example :
    list_events "q" "t" (append_transition forgetful none "e" 30 opened closed reason fresh).1
    ≡ list_events "q" "t" fresh
append_transition_frame_example =
    append_transition_frame forgetful none "e" 30 opened closed reason fresh bound_run bound "q" "t"
      (λ e. false≢true ((string_eq.beq_iff "r" "q").1 (ap (λ (k : String × Uuid). k.1) e)))

abbrev options : ReceiptOptions
options = record {
  receipt_policy_version = "v1";
  image_digest = "img";
  evaluation_version = "ev";
  synthetic = true;
  publish_public = false;
}

abbrev finished : Ledger
finished = record fresh { events = Dict.put ("t", "r") (first_event ∷ []) Dict.empty }

receipt :
    (request_receipt forgetful first_event options finished).0
    ≡ ok (receipt_name forgetful first_event options)
unfolding request_receipt receipt_name list_events draft Dict.get Dict.put Dict.empty
receipt = rw (==_refl first_event) refl

request_receipt_once_example :
    (last? (list_events "r" "t" finished) ≡ some first_event)
    × (first_event.state_after ≡ "REVIEWED")
    × (request_receipt forgetful first_event options
          (request_receipt forgetful first_event options finished).1
        ≡ (
          ok (receipt_name forgetful first_event options),
          (request_receipt forgetful first_event options finished).1,
        ))
unfolding draft
request_receipt_once_example =
    request_receipt_once forgetful first_event options finished
      (receipt_name forgetful first_event options) receipt

-- The same hash over bytes that tell payloads apart.
abbrev pub encoded : Hashing
encoded = record forgetful { canonical_bytes = λ payload. enc_payload payload [] }

pub encoded-IsCanonical : IsCanonical encoded
encoded-IsCanonical e f same =
    (enc_payload-injective (canonical_event_payload encoded e) (canonical_event_payload encoded f)
      [] [] same).0

first_event-Chain : Chain encoded zero_event_hash 1 (first_event ∷ [])
unfolding draft verify_event authority_event_hash from_hex is_lower_case
first_event-Chain = (refl, refl, tt)

tamper_evident_example :
    (map (canonical_event_payload encoded) (first_event ∷ [])
      ≡ map (canonical_event_payload encoded) (first_event ∷ []))
    ⊎ Collision encoded
tamper_evident_example =
    tamper_evident encoded encoded-IsCanonical (first_event ∷ []) (first_event ∷ [])
      first_event-Chain first_event-Chain refl refl
