-- ===== src/Receipts/Requests/Finalized.antt =====
-- What stands behind a finalized receipt.
use recallops.Workflow.Snapshot.{Time}
use recallops.Receipts.Requests.{
  ReceiptRequest, finalize_receipt_request, SignedReceiptResult, Manifest, Requests, committed,
  finalize_locked, sign_and_deliver, ReceiptRow, RequestRow, differs, signable, sign, holds,
  deliver,
}
use recallops.Common.{
  if◌then◌else◌, eq_iff, find_first-passes, ℕ, String, ◌==◌, ◌≡◌, Option, true, Bool, find_first,
  ◌≢◌, arith, string_eq, ◌⊎◌, Bool-cases, nat_eq, refl, some, inl, inr, ◌!=◌, ◌&&◌, ◌||◌, none,
  option_eq,
}
use recallops.Result.{Result, ok, err, ok-injective}
use recallops.Table.Rows.{Row, update_where_some, find_first-Row}
use recallops.Table.{update_where}
use recallops.Receipts.Requests.Conditions.{
  Bound, Pending, differs-Bound, holds-owned, holds_result-stored, signable-Pending,
}

-- The receipt's row was the pending one of exactly this request and is now signed with this result; the
-- request's row was being processed by this worker and is now delivered, with no owner.
pub record Signed (now : Time) (q : ReceiptRequest) (worker_id : String)
    (result : SignedReceiptResult) (s s' : Requests) : Type 0 where
  pub signed_row :
      (r r' : ReceiptRow) × Row r s.receipts
      × Pending q r
      × Row r' s'.receipts
      × (r' ≡ record r {
        status = "signed";
        signed = some result;
        signed_at = some now;
        failure_code = none;
        public_at = if r.synthetic && q.row.publish_public then some now else none;
      })
  pub delivered_row :
      (x x' : RequestRow) × Row x s.requests
      × (x.request_id ≡ q.row.request_id)
      × (x.status ≡ "processing")
      × (x.claimed_by ≡ some worker_id)
      × Row x' s'.requests
      × (x' ≡ record x {
        status = "delivered";
        delivered_at = some now;
        claimed_by = none;
        claimed_until = none;
        last_error_code = none;
      })

-- The request had been delivered before, its receipt holds the same result, and nothing has changed.
pub record Replayed (q : ReceiptRequest) (result : SignedReceiptResult) (s s' : Requests)
    : Type 0 where
  pub same : s' ≡ s
  pub before :
      (x : RequestRow) × Row x s.requests
      × (x.request_id ≡ q.row.request_id)
      × (x.receipt_id ≡ q.row.receipt_id)
      × (x.status ≡ "delivered")
  pub stored :
      (r : ReceiptRow) × Row r s.receipts
      × (r.receipt_id ≡ q.row.receipt_id)
      × (r.signed ≡ some result)

one-ne_zero : (n : ℕ) → (n == 1) ≡ true → n ≢ 0
one-ne_zero n one zero_count = ground (arith, nat_eq.beq_iff n 1)

committed-true :
    (s : Requests) (o : Result Bool × Requests)
    → (committed s o).0 ≡ ok true
    → (o.0 ≡ ok true) × ((committed s o).1 ≡ o.1)
unfolding committed
committed-true s (err e, t) done = cc
committed-true s (ok b, t) done = (done, refl)

module _ (now : Time) (q : ReceiptRequest) (worker_id : String) (result : SignedReceiptResult) where
  was_signed :
      (s : Requests)
      → (update_where (signable q) (sign now q.row.publish_public result) s.receipts).0 ≢ 0
      → (r r' : ReceiptRow) × Row r s.receipts
        × Pending q r
        × Row r' (update_where (signable q) (sign now q.row.publish_public result) s.receipts).1
        × (r' ≡ record r {
          status = "signed";
          signed = some result;
          signed_at = some now;
          failure_code = none;
          public_at = if r.synthetic && q.row.publish_public then some now else none;
        })
  unfolding sign
  was_signed s changed =
      let change = sign now q.row.publish_public result in
      let (r, row, on, after) = update_where_some (signable q) change s.receipts changed in
      (r, change r, row, signable-Pending q r on, after, refl)

  was_delivered :
      (s : Requests)
      → (update_where (holds q.row.request_id worker_id) (deliver now) s.requests).0 ≢ 0
      → (x x' : RequestRow) × Row x s.requests
        × (x.request_id ≡ q.row.request_id)
        × (x.status ≡ "processing")
        × (x.claimed_by ≡ some worker_id)
        × Row x' (update_where (holds q.row.request_id worker_id) (deliver now) s.requests).1
        × (x' ≡ record x {
          status = "delivered";
          delivered_at = some now;
          claimed_by = none;
          claimed_until = none;
          last_error_code = none;
        })
  unfolding deliver
  was_delivered s changed =
      let (x, row, on, after) =
        update_where_some (holds q.row.request_id worker_id) (deliver now) s.requests changed in
      let (named, status, owner) = holds-owned q.row.request_id worker_id x on in
      (x, deliver now x, row, named, status, owner, after, refl)

  sign_and_deliver-Signed :
      (s : Requests)
      → (sign_and_deliver now q worker_id result s).0 ≡ ok true
      → Signed now q worker_id result s (sign_and_deliver now q worker_id result s).1
  unfolding sign_and_deliver
  sign_and_deliver-Signed s done =
      let signing = update_where (signable q) (sign now q.row.publish_public result) s.receipts in
      let delivering = update_where (holds q.row.request_id worker_id) (deliver now) s.requests in
      elim (Bool-cases (signing.0 == 1)) [
        | inr unsigned ↦ absurd (ground arith)
        | inl signed ↦ elim (Bool-cases (delivering.0 == 1)) [
          | inr lost ↦ absurd (ground arith)
          | inl delivered ↦ rw signed (
              rw delivered (record {
                signed_row = was_signed s (one-ne_zero signing.0 signed);
                delivered_row = was_delivered s (one-ne_zero delivering.0 delivered);
              }))
        ]
      ]

  finalize_locked-true :
      (s : Requests) (o : Option RequestRow)
      → ((x : RequestRow)
          → o ≡ some x
          → Row x s.requests
            × (x.request_id ≡ q.row.request_id)
            × (x.receipt_id ≡ q.row.receipt_id))
      → (finalize_locked now q worker_id result s o).0 ≡ ok true
      → Replayed q result s (finalize_locked now q worker_id result s o).1
        ⊎ Signed now q worker_id result s (finalize_locked now q worker_id result s o).1
  unfolding finalize_locked
  finalize_locked-true s none lock done = cc
  finalize_locked-true s (some locked) lock done =
      elim (Bool-cases (locked.status == "delivered")) [
        | inl before ↦
            let (row, named, of_receipt) = lock locked refl in
            let (r, stored, on, signed) =
              holds_result-stored result (λ r. r.receipt_id == q.row.receipt_id) s.receipts _ refl
                (ok-injective (rw before at done)) in
            rw before (
              inl (record {
                same = refl;
                before =
                    (locked, row, named, of_receipt, (eq_iff locked.status "delivered").0 before);
                stored = (r, stored, (eq_iff r.receipt_id q.row.receipt_id).0 on, signed);
              }))
        | inr not_before ↦
            elim (Bool-cases
              (locked.status != "processing" || locked.claimed_by != some worker_id)) [
                | inl other ↦ absurd (ground arith)
                | inr own ↦
                    rw not_before
                      (rw own (inr (sign_and_deliver-Signed s (rw own at (rw not_before at done)))))
              ]
      ]

locked_row :
    (q : ReceiptRequest) (s : Requests) (x : RequestRow)
    → find_first
        (λ r. r.request_id == q.row.request_id && r.receipt_id == q.row.receipt_id)
        s.requests
      ≡ some x
    → Row x s.requests × (x.request_id ≡ q.row.request_id) × (x.receipt_id ≡ q.row.receipt_id)
locked_row q s x found =
    let fits : RequestRow → Bool =
      λ r. r.request_id == q.row.request_id && r.receipt_id == q.row.receipt_id in
    let on : fits x ≡ true = find_first-passes fits s.requests x found in
    (
      find_first-Row fits s.requests x found,
      ground (arith, on, eq_iff x.request_id q.row.request_id),
      ground (arith, on, eq_iff x.receipt_id q.row.receipt_id),
    )

-- A receipt is finalized only with a result that is bound to the claimed request, by its run, ledger head,
-- number of events, source, image, evaluation, policy and key; and then either the pending receipt of the
-- request was signed with it while the worker held the request, which is delivered now and has no owner, or the
-- request had been delivered before, its receipt holds the same result, and nothing has changed.
pub finalize_receipt_request_sound :
    (now : Time) (q : ReceiptRequest) (worker_id : String) (m : Manifest)
    (result : SignedReceiptResult) (s : Requests)
    → (finalize_receipt_request now q worker_id m result s).0 ≡ ok true
    → Bound q m result
      × (Replayed q result s (finalize_receipt_request now q worker_id m result s).1
          ⊎ Signed now q worker_id result s (finalize_receipt_request now q worker_id m result s).1)
unfolding finalize_receipt_request
finalize_receipt_request_sound now q worker_id m result s done =
    elim (Bool-cases (differs q m result)) [
      | inl other ↦ absurd (ground arith)
      | inr exact ↦
          let locked =
            find_first (λ r. r.request_id == q.row.request_id && r.receipt_id == q.row.receipt_id)
              s.requests in
          let (held, kept) =
            committed-true s (finalize_locked now q worker_id result s locked) (rw exact at done) in
          (
            differs-Bound q m result exact,
            rw exact (
                rw kept (
                  finalize_locked-true now q worker_id result s locked (λ x. locked_row q s x)
                    held)),
          )
    ]
