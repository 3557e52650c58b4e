-- ===== src/Receipts/Requests.antt =====
-- `claim_receipt_request`, `finalize_receipt_request` and `release_receipt_failure` of
-- src/recallops/receipt_outbox.py, on the tables receipt_requests and authority_receipts. Each call is
-- one transaction at one time: a raise rolls it back. Of the manifest and of the archived bundle the
-- fields that the calls read are taken, and the column of the constant signing algorithm is left out.
-- Requests of one creation time are taken in the table's order, which is that of their ids.
pub mod Tests
pub mod Conditions
pub mod Finalized
use recallops.Workflow.Snapshot.{Time, Uuid}
use recallops.Common.{
  Bool, List, Option, String, false, if◌then◌else◌, leb, some, ℕ, ◌!=◌, ◌&&◌, ◌==◌, find_first,
  is_none, ltb, none, not, string_eq, ◌+◌, ◌||◌, has_length, is_digest, nat_eq, option_eq, true,
  ◌*◌,
}
use recallops.Result.{Result, err, ok, runtime_error, value_error}
use recallops.Outbox.{retry_delay, microseconds}
use recallops.Table.{update_where, select_first}

pub record RequestRow : Type 0 where
  pub request_id : Uuid
  pub receipt_id : Uuid
  pub run_id : Uuid
  pub tenant_id : String
  pub target_sequence : ℕ
  pub target_ledger_hash : String
  pub publish_public : Bool
  pub attempts : ℕ
  pub created_at : Time
  pub status : String
  pub available_at : Time
  pub claimed_by : Option String
  pub claimed_until : Option Time
  pub last_error_code : Option String
  pub delivered_at : Option Time
  pub dead_lettered_at : Option Time

-- What a signed receipt holds.
pub record SignedReceiptResult : Type 0 where
  pub manifest_digest : String
  pub jws_compact : String
  pub key_thumbprint : String
  pub bundle_digest : String
  pub object_key : String
  pub version_id : String

pub record ReceiptRow : Type 0 where
  pub receipt_id : Uuid
  pub run_id : Uuid
  pub tenant_id : String
  pub status : String
  pub failure_code : Option String
  pub ledger_head_hash : String
  pub ledger_last_sequence : ℕ
  pub receipt_policy_version : String
  pub source_sha : String
  pub image_digest : String
  pub evaluation_version : String
  pub synthetic : Bool
  pub signed : Option SignedReceiptResult
  pub signed_at : Option Time
  pub public_at : Option Time

-- `ReceiptRequest`: the claimed row, and what its receipt tells.
pub record ReceiptRequest : Type 0 where
  pub row : RequestRow
  pub receipt : ReceiptRow

pub record Manifest : Type 0 where
  pub run_id : Uuid
  pub ledger_head_hash : String
  pub event_count : ℕ
  pub source_sha : String
  pub image_digest : String
  pub evaluation_version : String
  pub receipt_policy_version : String
  pub key_thumbprint : String

pub record Requests : Type 0 where
  pub requests : List RequestRow
  pub receipts : List ReceiptRow

-- A transaction: a raise leaves the tables as they were.
pub committed : {A : Type 0} → Requests → Result A × Requests → Result A × Requests
committed before (err e, after) = (err e, before)
committed before (ok a, after) = (ok a, after)

overdue : Time → Option Time → Bool
overdue now none = false
overdue now (some t) = ltb t now

-- `status='pending' OR (status='processing' AND claimed_until < now())`, of the rows that are due
pub is_claimable : Time → RequestRow → Bool
unfolding overdue
is_claimable now r =
    leb r.available_at now
    && is_none r.dead_lettered_at
    && (r.status == "pending" || (r.status == "processing" && overdue now r.claimed_until))

processing : Time → String → ℕ → RequestRow → RequestRow
processing now worker_id lease_seconds r = record r {
  status = "processing";
  claimed_by = some worker_id;
  claimed_until = some (now + lease_seconds * 1000000);
  attempts = r.attempts + 1;
  last_error_code = none;
}

pub of_request : RequestRow → ReceiptRow → Bool
of_request q r = r.receipt_id == q.receipt_id && r.run_id == q.run_id && r.tenant_id == q.tenant_id

-- A failed receipt is pending again; it is then the row that the second SELECT finds as well.
reopened : RequestRow → List ReceiptRow → List ReceiptRow
unfolding of_request
reopened q receipts =
    (update_where (λ r. of_request q r && r.status == "failed")
      (λ r. record r { status = "pending"; failure_code = none }) receipts).1

with_receipt :
    RequestRow
    → List RequestRow
    → List ReceiptRow
    → Option ReceiptRow
    → Result (Option ReceiptRequest) × Requests
with_receipt q requests receipts none = (
  err (runtime_error "claimable request has no pending receipt"),
  record { requests = requests; receipts = receipts },
)
with_receipt q requests receipts (some r) = (
  ok (some (record { row = q; receipt = r })),
  record { requests = requests; receipts = receipts },
)

claim_found :
    Time → String → ℕ → Requests → Option RequestRow → Result (Option ReceiptRequest) × Requests
unfolding processing reopened with_receipt of_request
claim_found now worker_id lease_seconds s none = (ok none, s)
claim_found now worker_id lease_seconds s (some q) =
    let q' = processing now worker_id lease_seconds q in
    let requests =
      (update_where (λ r. r.request_id == q.request_id) (processing now worker_id lease_seconds)
        s.requests).1 in
    let receipts = reopened q' s.receipts in
    with_receipt q' requests receipts
      (find_first (λ r. of_request q' r && r.status == "pending") receipts)

pub claim_receipt_request : Time → String → ℕ → Requests → Result (Option ReceiptRequest) × Requests
unfolding committed claim_found is_claimable
claim_receipt_request now worker_id lease_seconds s =
    if worker_id == "" || ltb lease_seconds 30 || ltb 900 lease_seconds
    then (err (value_error "receipt worker lease configuration is invalid"), s)
    else committed s (
        claim_found now worker_id lease_seconds s
          (select_first (is_claimable now) (λ r. r.created_at) s.requests))

-- `signed receipt result differs from claimed immutable request`
pub differs : ReceiptRequest → Manifest → SignedReceiptResult → Bool
differs q m result =
    m.run_id != q.row.run_id
    || m.ledger_head_hash != q.row.target_ledger_hash
    || m.event_count != q.row.target_sequence
    || m.source_sha != q.receipt.source_sha
    || m.image_digest != q.receipt.image_digest
    || m.evaluation_version != q.receipt.evaluation_version
    || m.receipt_policy_version != q.receipt.receipt_policy_version
    || m.key_thumbprint != result.key_thumbprint
    || not (is_digest result.bundle_digest)

pub signed_eq : SignedReceiptResult → SignedReceiptResult → Bool
signed_eq a b =
    a.manifest_digest == b.manifest_digest
    && a.bundle_digest == b.bundle_digest
    && a.jws_compact == b.jws_compact
    && a.key_thumbprint == b.key_thumbprint
    && a.object_key == b.object_key
    && a.version_id == b.version_id

-- The stored result is the expected one.
pub holds_result : SignedReceiptResult → Option ReceiptRow → Bool
unfolding signed_eq
holds_result result none = false
holds_result result (some r) = elim r.signed [
  | none ↦ false
  | some stored ↦ signed_eq stored result
]

-- The conditions of the update that signs.
pub signable : ReceiptRequest → ReceiptRow → Bool
unfolding of_request
signable q r =
    of_request q.row r
    && r.status == "pending"
    && r.ledger_head_hash == q.row.target_ledger_hash
    && r.ledger_last_sequence == q.row.target_sequence
    && r.receipt_policy_version == q.receipt.receipt_policy_version
    && r.source_sha == q.receipt.source_sha
    && r.image_digest == q.receipt.image_digest
    && r.evaluation_version == q.receipt.evaluation_version

pub sign : Time → Bool → SignedReceiptResult → ReceiptRow → ReceiptRow
sign now publish_public result r = record r {
  status = "signed";
  signed = some result;
  signed_at = some now;
  failure_code = none;
  public_at = if r.synthetic && publish_public then some now else none;
}

-- `request_id=… AND status='processing' AND claimed_by=…`
pub holds : Uuid → String → RequestRow → Bool
holds request_id worker_id r =
    r.request_id == request_id && r.status == "processing" && r.claimed_by == some worker_id

pub deliver : Time → RequestRow → RequestRow
deliver now r = record r {
  status = "delivered";
  delivered_at = some now;
  claimed_by = none;
  claimed_until = none;
  last_error_code = none;
}

-- The two updates of a finalization; the second one's failure raises.
sign_and_deliver :
    Time → ReceiptRequest → String → SignedReceiptResult → Requests → Result Bool × Requests
unfolding signable sign holds deliver
sign_and_deliver now q worker_id result s =
    let (updated, receipts) =
      update_where (signable q) (sign now q.row.publish_public result) s.receipts in
    let (done, requests) =
      update_where (holds q.row.request_id worker_id) (deliver now) s.requests in
    if not (updated == 1)
    then (ok false, record s { receipts = receipts })
    else if not (done == 1)
    then (
      err (runtime_error "receipt request lease was lost during finalization"),
      record s { receipts = receipts },
    )
    else (ok true, record { requests = requests; receipts = receipts })

finalize_locked :
    Time
    → ReceiptRequest
    → String
    → SignedReceiptResult
    → Requests
    → Option RequestRow
    → Result Bool × Requests
unfolding holds_result sign_and_deliver
finalize_locked now q worker_id result s none = (ok false, s)
finalize_locked now q worker_id result s (some locked) =
    if locked.status == "delivered"
    then (
      ok (holds_result result (find_first (λ r. r.receipt_id == q.row.receipt_id) s.receipts)),
      s,
    )
    else if locked.status != "processing" || locked.claimed_by != some worker_id
    then (ok false, s)
    else sign_and_deliver now q worker_id result s

pub finalize_receipt_request :
    Time
    → ReceiptRequest
    → String
    → Manifest
    → SignedReceiptResult
    → Requests
    → Result Bool × Requests
unfolding differs committed finalize_locked
finalize_receipt_request now q worker_id m result s =
    if differs q m result
    then (err (value_error "signed receipt result differs from claimed immutable request"), s)
    else committed s (
        finalize_locked now q worker_id result s (
          find_first (λ r. r.request_id == q.row.request_id && r.receipt_id == q.row.receipt_id)
            s.requests))

-- `terminal`: the attempts are used up.
failed_request : Time → ReceiptRequest → String → ℕ → RequestRow → RequestRow
unfolding retry_delay
failed_request now q failure_code max_attempts r = record r {
  status = if leb max_attempts q.row.attempts then "dead_lettered" else "pending";
  available_at = now + microseconds (retry_delay q.row.attempts);
  claimed_by = none;
  claimed_until = none;
  last_error_code = some failure_code;
  dead_lettered_at = if leb max_attempts q.row.attempts then some now else none;
}

fail_receipt : ReceiptRequest → String → ReceiptRow → ReceiptRow
fail_receipt q failure_code r = record r { status = "failed"; failure_code = some failure_code }

-- The receipt fails only if the request was still the worker's.
fail_held : Time → ReceiptRequest → String → String → ℕ → Requests → Result Bool × Requests
unfolding failed_request fail_receipt holds
fail_held now q worker_id failure_code max_attempts s =
    let (count, requests) =
      update_where (holds q.row.request_id worker_id)
        (failed_request now q failure_code max_attempts) s.requests in
    let (failed, receipts) =
      update_where
        (λ r. r.receipt_id == q.row.receipt_id && (r.status == "pending" || r.status == "failed"))
        (fail_receipt q failure_code) s.receipts in
    if not (count == 1)
    then (ok false, record s { requests = requests })
    else if not (failed == 1)
    then (
      err (runtime_error "receipt failure update lost immutable target"),
      record { requests = requests; receipts = receipts },
    )
    else (ok (leb max_attempts q.row.attempts), record { requests = requests; receipts = receipts })

pub release_receipt_failure :
    Time → ReceiptRequest → String → String → ℕ → Requests → Result Bool × Requests
unfolding committed fail_held
release_receipt_failure now q worker_id failure_code max_attempts s =
    if not (has_length 1 100 failure_code) || ltb max_attempts 1
    then (err (value_error "receipt failure policy is invalid"), s)
    else committed s (fail_held now q worker_id failure_code max_attempts s)
