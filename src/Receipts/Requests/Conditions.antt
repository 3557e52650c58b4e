-- ===== src/Receipts/Requests/Conditions.antt =====
-- The conditions of a finalization, read as equations: src/recallops/receipt_outbox.py.
use recallops.Receipts.Requests.{
  of_request, signed_eq, ReceiptRequest, SignedReceiptResult, Manifest, ReceiptRow, holds_result,
  RequestRow, differs, signable, holds,
}
use recallops.Common.{
  is_digest, eq_iff, List, find_first-passes, ap, ◌∙◌, String, ◌≡◌, Option, true, Bool, find_first,
  arith, false, string_eq, nat_eq, refl, some, none, option_eq,
}
use recallops.Table.Rows.{Row, find_first-Row}

-- The result is bound to the claimed request: by its run, ledger head, number of events, source, image,
-- evaluation, policy and key, and its bundle's digest is one.
pub record Bound (q : ReceiptRequest) (m : Manifest) (result : SignedReceiptResult) : Type 0 where
  pub run : m.run_id ≡ q.row.run_id
  pub head : m.ledger_head_hash ≡ q.row.target_ledger_hash
  pub events : m.event_count ≡ q.row.target_sequence
  pub source : m.source_sha ≡ q.receipt.source_sha
  pub image : m.image_digest ≡ q.receipt.image_digest
  pub evaluation : m.evaluation_version ≡ q.receipt.evaluation_version
  pub policy : m.receipt_policy_version ≡ q.receipt.receipt_policy_version
  pub key : m.key_thumbprint ≡ result.key_thumbprint
  pub bundle : is_digest result.bundle_digest ≡ true

-- The row of the request's receipt, unsigned.
pub record Pending (q : ReceiptRequest) (r : ReceiptRow) : Type 0 where
  pub receipt : r.receipt_id ≡ q.row.receipt_id
  pub run : r.run_id ≡ q.row.run_id
  pub tenant : r.tenant_id ≡ q.row.tenant_id
  pub pending : r.status ≡ "pending"
  pub head : r.ledger_head_hash ≡ q.row.target_ledger_hash
  pub last : r.ledger_last_sequence ≡ q.row.target_sequence
  pub policy : r.receipt_policy_version ≡ q.receipt.receipt_policy_version
  pub source : r.source_sha ≡ q.receipt.source_sha
  pub image : r.image_digest ≡ q.receipt.image_digest
  pub evaluation : r.evaluation_version ≡ q.receipt.evaluation_version

pub differs-Bound :
    (q : ReceiptRequest) (m : Manifest) (result : SignedReceiptResult)
    → differs q m result ≡ false
    → Bound q m result
unfolding differs
differs-Bound q m result exact = record {
  run = ground (arith, eq_iff m.run_id q.row.run_id);
  head = ground (arith, eq_iff m.ledger_head_hash q.row.target_ledger_hash);
  events = ground (arith, nat_eq.beq_iff m.event_count q.row.target_sequence);
  source = ground (arith, eq_iff m.source_sha q.receipt.source_sha);
  image = ground (arith, eq_iff m.image_digest q.receipt.image_digest);
  evaluation = ground (arith, eq_iff m.evaluation_version q.receipt.evaluation_version);
  policy = ground (arith, eq_iff m.receipt_policy_version q.receipt.receipt_policy_version);
  key = ground (arith, eq_iff m.key_thumbprint result.key_thumbprint);
  bundle = ground arith;
}

pub signable-Pending : (q : ReceiptRequest) (r : ReceiptRow) → signable q r ≡ true → Pending q r
unfolding signable of_request
signable-Pending q r on = record {
  receipt = ground (arith, eq_iff r.receipt_id q.row.receipt_id);
  run = ground (arith, eq_iff r.run_id q.row.run_id);
  tenant = ground (arith, eq_iff r.tenant_id q.row.tenant_id);
  pending = ground (arith, eq_iff r.status "pending");
  head = ground (arith, eq_iff r.ledger_head_hash q.row.target_ledger_hash);
  last = ground (arith, nat_eq.beq_iff r.ledger_last_sequence q.row.target_sequence);
  policy = ground (arith, eq_iff r.receipt_policy_version q.receipt.receipt_policy_version);
  source = ground (arith, eq_iff r.source_sha q.receipt.source_sha);
  image = ground (arith, eq_iff r.image_digest q.receipt.image_digest);
  evaluation = ground (arith, eq_iff r.evaluation_version q.receipt.evaluation_version);
}

pub holds-owned :
    (request_id worker_id : String) (x : RequestRow)
    → holds request_id worker_id x ≡ true
    → (x.request_id ≡ request_id) × (x.status ≡ "processing") × (x.claimed_by ≡ some worker_id)
unfolding holds
holds-owned request_id worker_id x on = (
  ground (arith, eq_iff x.request_id request_id),
  ground (arith, eq_iff x.status "processing"),
  (option_eq.beq_iff x.claimed_by (some worker_id)).0 (ground arith),
)

signed_eq-same : (a b : SignedReceiptResult) → signed_eq a b ≡ true → a ≡ b
unfolding signed_eq
signed_eq-same a b on = ground (
  arith,
  eq_iff a.manifest_digest b.manifest_digest,
  eq_iff a.bundle_digest b.bundle_digest,
  eq_iff a.jws_compact b.jws_compact,
  eq_iff a.key_thumbprint b.key_thumbprint,
  eq_iff a.object_key b.object_key,
  eq_iff a.version_id b.version_id,
)

signed-same :
    (o : Option SignedReceiptResult) (r : ReceiptRow) (result : SignedReceiptResult)
    → r.signed ≡ o
    → holds_result result (some r) ≡ true
    → r.signed ≡ some result
unfolding holds_result
signed-same none r result is on = cc (rw is at on)
signed-same (some x) r result is on = is ∙ ap (λ y. some y) (signed_eq-same x result (rw is at on))

pub holds_result-stored :
    (result : SignedReceiptResult) (p : ReceiptRow → Bool) (rows : List ReceiptRow)
    (o : Option ReceiptRow)
    → find_first p rows ≡ o
    → holds_result result o ≡ true
    → (r : ReceiptRow) × Row r rows × (p r ≡ true) × (r.signed ≡ some result)
unfolding holds_result
holds_result-stored result p rows none found on = cc
holds_result-stored result p rows (some r) found on = (
  r,
  find_first-Row p rows r found,
  find_first-passes p rows r found,
  signed-same r.signed r result refl on,
)
