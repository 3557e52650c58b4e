-- ===== src/Ledger/Receipts/Heads.antt =====
-- What a receipt is requested for.
use recallops.Dict
use recallops.Ledger.Receipts.{is_head, request_receipt, receipt_name, receipt_row}
use recallops.Ledger.Event.{Hashing, AuthorityEvent, event_eq}
use recallops.Common.{
  Option, ◌≡◌, true, some, ap, last?, none, arith, eq_iff, Bool, false, not, ◌||◌, ◌!=◌, string_eq,
  refl, sym, ◌∙◌,
}
use recallops.Ledger.Repository.{ReceiptOptions}
use recallops.Ledger.InMemory.{Ledger, list_events}
use recallops.Workflow.Snapshot.{Uuid}
use recallops.Dict.{Dict}
use recallops.Result.{ok}

is_head-eq : (o : Option AuthorityEvent) (e : AuthorityEvent) → is_head o e ≡ true → o ≡ some e
unfolding is_head
is_head-eq none e held = cc
is_head-eq (some last) e held = ap some ((event_eq.beq_iff last e).0 held)

module _ (h : Hashing) (e : AuthorityEvent) (o : ReceiptOptions) where
  -- The test that guards a receipt.
  is_refused : Ledger → Bool
  is_refused l =
      not (is_head (last? (list_events e.run_id e.tenant_id l)) e) || e.state_after != "REVIEWED"

  -- The ledger once the receipt is requested.
  requested : Ledger → Ledger
  requested l = record l {
    receipt_requests =
        (Dict.setdefault (receipt_name h e o) (receipt_row (receipt_name h e o) e o)
          l.receipt_requests).1;
  }

  refused-free :
      (l : Ledger) {id : Uuid}
      → (request_receipt h e o l).0 ≡ ok id
      → (is_refused l ≡ false) × (receipt_name h e o ≡ id)
  unfolding is_refused request_receipt
  refused-free l done = ground arith

  request_receipt-free :
      (l : Ledger)
      → is_refused l ≡ false
      → request_receipt h e o l ≡ (ok (receipt_name h e o), requested l)
  unfolding is_refused request_receipt requested
  request_receipt-free l free = rw free refl

  accepted :
      (l : Ledger)
      → is_refused l ≡ false
      → (last? (list_events e.run_id e.tenant_id l) ≡ some e) × (e.state_after ≡ "REVIEWED")
  unfolding is_refused
  accepted l free =
      let facts : (is_head (last? (list_events e.run_id e.tenant_id l)) e ≡ true)
          × (e.state_after ≡ "REVIEWED") =
        ground (arith, eq_iff e.state_after "REVIEWED") in
      (is_head-eq _ e facts.0, facts.1)

  requested-requested : (l : Ledger) → requested (requested l) ≡ requested l
  unfolding requested
  requested-requested l =
      ap (λ d. record l { receipt_requests = d })
        (Dict.setdefault_again (receipt_name h e o) (receipt_row (receipt_name h e o) e o)
          l.receipt_requests)

  is_refused-requested : (l : Ledger) → is_refused (requested l) ≡ is_refused l
  unfolding is_refused requested list_events
  is_refused-requested l = refl

  request_receipt_again :
      (l : Ledger)
      → is_refused l ≡ false
      → request_receipt h e o (requested l) ≡ (ok (receipt_name h e o), requested l)
  request_receipt_again l free =
      rw (request_receipt-free (requested l) (is_refused-requested l ∙ free))
        (rw (requested-requested l) refl)

  -- A receipt is only requested for the head of its run's chain, in the state REVIEWED; asking again
  -- gives the same id and leaves the ledger as it is.
  pub request_receipt_once :
      (l : Ledger) (id : Uuid)
      → (request_receipt h e o l).0 ≡ ok id
      → (last? (list_events e.run_id e.tenant_id l) ≡ some e)
        × (e.state_after ≡ "REVIEWED")
        × (request_receipt h e o (request_receipt h e o l).1 ≡ (ok id, (request_receipt h e o l).1))
  request_receipt_once l id done =
      let (free, name) = refused-free l done in
      let (head, reviewed) = accepted l free in
      (
        head,
        reviewed,
        rw (request_receipt-free l free) (rw (sym name) (request_receipt_again l free)),
      )
