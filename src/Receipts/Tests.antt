-- ===== src/Receipts/Tests.antt =====
-- Runs of the receipt checks, with the hashes of the ledger's runs.
use recallops.Ledger.Tests.{encoded, encoded-IsCanonical}
use recallops.Ledger.Event.{
  AuthorityEvent, canonical_event_payload, verify_event, zero_event_hash, authority_event_hash,
}
use recallops.Common.{
  List, map, String, ◌∷◌, [], ◌+◌, ◌≡◌, from_hex, is_digest, some, ◌⊎◌, is_lower_case, none, refl,
}
use recallops.Receipts.Prefix.{VerifiedLedgerPrefix, verify_ledger_prefix, add_subject}
use recallops.Receipts.Bindings.{
  ReceiptDigestBindings, verify_causal_bindings, transition_binding_digest, disposition_digest,
}
use recallops.Workflow.States.{system, ui}
use recallops.Receipts.Prefix.Sound.{Proves, verify_ledger_prefix-Proves}
use recallops.Result.{ok}
use recallops.Ledger.Event.Collision.{Collision}
use recallops.Receipts.Prefix.Fixed.{verify_ledger_prefix_fixed}
use recallops.Receipts.Bindings.Exact.{Bound, verify_causal_bindings-Binds}

abbrev genesis : AuthorityEvent
genesis = record {
  event_id = "e1";
  run_id = "r";
  tenant_id = "t";
  sequence = 1;
  recorded_at = 10;
  event_type = "RUN_GENESIS";
  outcome = "accepted";
  actor_subject = "server";
  actor_role = "system";
  channel = system;
  workflow_id = "w";
  epoch_before = 0;
  epoch_after = 1;
  state_before = "ABSENT";
  state_after = "AWAITING_OPERATOR_APPROVAL";
  capabilities_before = [];
  capabilities_after = "inspect_incident" ∷ [];
  object_type = some "proposal";
  object_id = none;
  object_digest = some zero_event_hash;
  reason_code = "RUN_CREATED";
  display_summary = "created";
  policy_version = "p1";
  build_sha = "sha";
  previous_event_hash = zero_event_hash;
  event_hash = zero_event_hash;
}

-- An event after another, that enters a state.
abbrev after : AuthorityEvent → String → String → String → String → AuthorityEvent
after p role subject state object_type = record p {
  sequence = p.sequence + 1;
  recorded_at = p.recorded_at + 1;
  event_type = "STEP";
  actor_role = role;
  actor_subject = subject;
  channel = ui;
  epoch_before = p.epoch_after;
  epoch_after = p.epoch_after + 1;
  state_before = p.state_after;
  state_after = state;
  capabilities_before = p.capabilities_after;
  object_type = some object_type;
}

abbrev approved : AuthorityEvent
approved = after genesis "operator" "alice" "APPROVED_AWAITING_EXECUTION" "proposal"

abbrev executed : AuthorityEvent
executed = after approved "operator" "alice" "OBSERVING_POSTCHECK" "execution_binding"

abbrev observed : AuthorityEvent
observed = after executed "operator" "alice" "POSTCHECK_READY" "observation_binding"

abbrev assessed : AuthorityEvent
assessed = after observed "operator" "alice" "PENDING_REVIEW" "outcome_binding"

abbrev reviewed : AuthorityEvent
reviewed = after assessed "reviewer" "bob" "REVIEWED" "review_binding"

abbrev later : List AuthorityEvent
later = approved ∷ executed ∷ observed ∷ assessed ∷ reviewed ∷ []

abbrev verified : VerifiedLedgerPrefix
verified = record {
  run_id = "r";
  tenant_id = "t";
  workflow_id = "w";
  capability_policy_version = "p1";
  build_sha = "sha";
  first_epoch = 0;
  last_epoch = 6;
  event_count = 6;
  first_hash = zero_event_hash;
  head_hash = zero_event_hash;
  final_state = "REVIEWED";
  operator_subject = "alice";
  reviewer_subject = "bob";
}

checked : verify_ledger_prefix encoded (genesis ∷ later) ≡ ok verified
unfolding verify_ledger_prefix verify_event authority_event_hash from_hex is_lower_case add_subject
checked = refl

verify_ledger_prefix-Proves_example :
    (first : AuthorityEvent) × (rest : List AuthorityEvent) × (genesis ∷ later ≡ first ∷ rest)
    × Proves encoded first rest verified
verify_ledger_prefix-Proves_example =
    verify_ledger_prefix-Proves encoded (genesis ∷ later) verified checked

verify_ledger_prefix_fixed_example :
    (map (canonical_event_payload encoded) (genesis ∷ later)
      ≡ map (canonical_event_payload encoded) (genesis ∷ later))
    ⊎ Collision encoded
verify_ledger_prefix_fixed_example =
    verify_ledger_prefix_fixed encoded (genesis ∷ later) (genesis ∷ later) verified verified
      encoded-IsCanonical checked checked refl refl

abbrev digests : ReceiptDigestBindings
digests = record {
  proposal = zero_event_hash;
  execution = zero_event_hash;
  observation = zero_event_hash;
  assessment = zero_event_hash;
  policy_verdict = zero_event_hash;
  memory = zero_event_hash;
  review = zero_event_hash;
}

bindings_hold : verify_causal_bindings encoded (genesis ∷ later) digests "ACTIVATED" ≡ ok tt
unfolding verify_causal_bindings transition_binding_digest disposition_digest is_digest
bindings_hold = refl

verify_causal_bindings-Binds_example : Bound encoded (genesis ∷ later) digests "ACTIVATED"
verify_causal_bindings-Binds_example =
    verify_causal_bindings-Binds encoded (genesis ∷ later) digests "ACTIVATED" bindings_hold
