-- ===== src/Receipts/Requests/Tests.antt =====
-- A receipt request that is claimed and finalized.
use recallops.Ledger.Event.{zero_event_hash}
use recallops.Receipts.Requests.{
  Manifest, ReceiptRequest, ReceiptRow, RequestRow, SignedReceiptResult, claim_receipt_request,
  finalize_receipt_request, Requests,
}
use recallops.Common.{false, is_digest, none, some, ◌≡◌, true, ◌∷◌, [], refl, ◌⊎◌}
use recallops.Result.{ok}
use recallops.Receipts.Requests.Conditions.{Bound}
use recallops.Receipts.Requests.Finalized.{Replayed, Signed, finalize_receipt_request_sound}

abbrev pending : RequestRow
pending = record {
  request_id = "q";
  receipt_id = "k";
  run_id = "r";
  tenant_id = "t";
  target_sequence = 6;
  target_ledger_hash = "h";
  publish_public = false;
  attempts = 0;
  created_at = 1;
  status = "pending";
  available_at = 1;
  claimed_by = none;
  claimed_until = none;
  last_error_code = none;
  delivered_at = none;
  dead_lettered_at = none;
}

abbrev unsigned : ReceiptRow
unsigned = record {
  receipt_id = "k";
  run_id = "r";
  tenant_id = "t";
  status = "pending";
  failure_code = none;
  ledger_head_hash = "h";
  ledger_last_sequence = 6;
  receipt_policy_version = "v1";
  source_sha = "sha";
  image_digest = "img";
  evaluation_version = "ev";
  synthetic = true;
  signed = none;
  signed_at = none;
  public_at = none;
}

abbrev claimed_row : RequestRow
claimed_row = record pending {
  status = "processing";
  claimed_by = some "w1";
  claimed_until = some 60000010;
  attempts = 1;
}

abbrev request : ReceiptRequest
request = record { row = claimed_row; receipt = unsigned }

abbrev tables : RequestRow → Requests
tables row = record { requests = row ∷ []; receipts = unsigned ∷ [] }

claimed_request :
    claim_receipt_request 10 "w1" 60 (tables pending) ≡ (ok (some request), tables claimed_row)
unfolding claim_receipt_request
claimed_request = refl

abbrev manifest : Manifest
manifest = record {
  run_id = "r";
  ledger_head_hash = "h";
  event_count = 6;
  source_sha = "sha";
  image_digest = "img";
  evaluation_version = "ev";
  receipt_policy_version = "v1";
  key_thumbprint = "key";
}

abbrev result : SignedReceiptResult
result = record {
  manifest_digest = "m";
  jws_compact = "jws";
  key_thumbprint = "key";
  bundle_digest = zero_event_hash;
  object_key = "o";
  version_id = "1";
}

finalized :
    (finalize_receipt_request 20 request "w1" manifest result (tables claimed_row)).0 ≡ ok true
unfolding finalize_receipt_request is_digest
finalized = refl

-- Another worker cannot finalize it.
not_finalized :
    finalize_receipt_request 20 request "w2" manifest result (tables claimed_row)
    ≡ (ok false, tables claimed_row)
unfolding finalize_receipt_request is_digest
not_finalized = refl

finalize_receipt_request_sound_example :
    Bound request manifest result
    × (Replayed request result
          (tables claimed_row)
          (finalize_receipt_request 20 request "w1" manifest result (tables claimed_row)).1
        ⊎ Signed 20 request "w1" result
            (tables claimed_row)
            (finalize_receipt_request 20 request "w1" manifest result (tables claimed_row)).1)
finalize_receipt_request_sound_example =
    finalize_receipt_request_sound 20 request "w1" manifest result (tables claimed_row) finalized
