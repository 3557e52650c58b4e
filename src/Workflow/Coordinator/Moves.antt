-- ===== src/Workflow/Coordinator/Moves.antt =====
-- What a transition or a reset does, over any lawful repository, ledger and fault hook.
use recallops.Workflow.Repository.{WorkflowRepository, IsRepository, moved, Current}
use recallops.Common.{
  Option, ◌≡◌, some, ◌⊎◌, arith, none, refl, inl, String, ◌≢◌, ap, inr, sym, ◌∙◌, some-eq, ℕ,
}
use recallops.Ledger.Repository.{AuthorityLedger, FaultHook, Append}
use recallops.Workflow.Snapshot.{Uuid, Time, WorkflowSnapshot}
use recallops.Result.{Result, err, ok, ok-injective}
use recallops.Workflow.Coordinator.{
  commit, record_event, settle, Move, request, transition, validate_transition, validated, evidence,
  invalidate,
}
use recallops.Workflow.Coordinator.Authority.{MayMove, Admits, validate_transition_sound}
use recallops.Workflow.States.{RequestChannel}

module _ {R L : Type 0} (ops : WorkflowRepository R) (ledger : Option (AuthorityLedger L))
    (hook : FaultHook) (event_id : Uuid) (now : Time) where
  record_event-rows :
      (x : Option (AuthorityLedger L)) (before after : WorkflowSnapshot) (a : Append) (r : R)
      (l : L)
      → (record_event ops ledger hook event_id now x before after a r l).1 ≡ r
  unfolding record_event
  record_event-rows none before after a r l = refl
  record_event-rows (some x) before after a r l = ground arith

  record_event-ok :
      (x : Option (AuthorityLedger L)) (before after : WorkflowSnapshot) (a : Append) (r : R)
      (l : L) {s : WorkflowSnapshot}
      → (record_event ops ledger hook event_id now x before after a r l).0 ≡ ok s
      → s ≡ after
  unfolding record_event
  record_event-ok none before after a r l done = ground arith
  record_event-ok (some x) before after a r l done = ground arith

  settle-rows :
      (before : WorkflowSnapshot) (a : Append) (w : Result WorkflowSnapshot) (r : R) (l : L)
      → (settle ops ledger hook event_id now before a w r l).1 ≡ r
  unfolding settle
  settle-rows before a (err e) r l = refl
  settle-rows before a (ok after) r l = ground (arith, record_event-rows ledger before after a r l)

  settle-ok :
      (before : WorkflowSnapshot) (a : Append) (w : Result WorkflowSnapshot) (r : R) (l : L)
      (s : WorkflowSnapshot)
      → (settle ops ledger hook event_id now before a w r l).0 ≡ ok s
      → w ≡ ok s
  unfolding settle
  settle-ok before a (err e) r l s done = cc
  settle-ok before a (ok after) r l s done =
      ground (arith, record_event-ok ledger before after a r l {s = s})

  module _ (write : R → Result WorkflowSnapshot × R) (a : Append) (r : R) (l : L) where
    abbrev committed : Option WorkflowSnapshot → Result WorkflowSnapshot × R × L
    committed o = commit ops ledger hook event_id now write a r l o

    -- The rows are those before the call, or those that the repository wrote.
    commit-rows :
        (o : Option WorkflowSnapshot) → ((committed o).1 ≡ r) ⊎ ((committed o).1 ≡ (write r).1)
    unfolding commit
    commit-rows none = inl refl
    commit-rows (some before) = ground (arith, settle-rows before a (write r).0 (write r).1 l)

    commit-ok :
        (o : Option WorkflowSnapshot) (s : WorkflowSnapshot)
        → (committed o).0 ≡ ok s
        → ((write r).0 ≡ ok s) × ((committed o).1 ≡ (write r).1)
    unfolding commit
    commit-ok none s done = cc
    commit-ok (some before) s done = ground (
      arith,
      settle-ok before a (write r).0 (write r).1 l s,
      settle-rows before a (write r).0 (write r).1 l,
    )

  module _ (laws : IsRepository ops) (m : Move) (r : R) (l : L) where
    abbrev outcome : Result WorkflowSnapshot × R × L
    outcome = transition ops ledger hook event_id now m r l

    -- The rows after a call whose validation returned `v`.
    validated-rows :
        (v : Result WorkflowSnapshot)
        → (o : Result WorkflowSnapshot × R × L) → o ≡ validated ops ledger hook event_id now m r l v
        → (o.1 ≡ r)
          ⊎ ((c : WorkflowSnapshot) × (v ≡ ok c) × (o.1 ≡ (ops.transition now (request m) r).1))
    unfolding validated
    validated-rows (err e) o same = inl (cc)
    validated-rows (ok c) o same =
        elim (commit-rows (ops.transition now (request m)) (evidence m) r l
          (ops.get m.workflow_id m.tenant_id r)) [
            | inl kept ↦ inl (ap (λ (x : Result WorkflowSnapshot × R × L). x.1) same ∙ kept)
            | inr wrote ↦
                inr (c, refl, ap (λ (x : Result WorkflowSnapshot × R × L). x.1) same ∙ wrote)
          ]

    validated-ok :
        (v : Result WorkflowSnapshot) (s : WorkflowSnapshot)
        → (validated ops ledger hook event_id now m r l v).0 ≡ ok s
        → (c : WorkflowSnapshot) × (v ≡ ok c)
          × ((ops.transition now (request m) r).0 ≡ ok s)
          × ((validated ops ledger hook event_id now m r l v).1
              ≡ (ops.transition now (request m) r).1)
    unfolding validated
    validated-ok (err e) s done = cc
    validated-ok (ok c) s done =
        let (wrote, rows) =
          commit-ok (ops.transition now (request m)) (evidence m) r l
            (ops.get m.workflow_id m.tenant_id r) s done in
        (c, refl, wrote, rows)

    -- What an accepted write stores.
    stored :
        (c : WorkflowSnapshot)
        → validate_transition ops m r ≡ ok c
        → ((ops.transition now (request m) r).0 ≡ ok (moved now (request m) c))
          × (ops.get m.workflow_id m.tenant_id (ops.transition now (request m) r).1
              ≡ some (moved now (request m) c))
    unfolding request
    stored c valid =
        let (found, _, admits) = validate_transition_sound ops m r c valid in
        laws.transition_ok now (request m) r c found admits.current

    -- Over a lawful repository, a transition that returns has moved a row that the authority table and the row's epoch and
    -- state admit, and returns what the repository then shows: the target state, the next epoch,
    -- and the actor as operator or reviewer if that is the role.
    pub transition-commits :
        (s : WorkflowSnapshot)
        → outcome.0 ≡ ok s
        → (c : WorkflowSnapshot) × (ops.get m.workflow_id m.tenant_id r ≡ some c)
          × MayMove m.expected_state m.channel m.role m.allow_legacy_ui
          × Admits m c
          × (s ≡ moved now (request m) c)
          × (ops.get m.workflow_id m.tenant_id outcome.1 ≡ some s)
    unfolding transition
    transition-commits s done =
        let (c, valid, wrote, rows) = validated-ok (validate_transition ops m r) s done in
        let (found, may, admits) = validate_transition_sound ops m r c valid in
        let (value, kept) = stored c valid in
        let same : s ≡ moved now (request m) c = ok-injective (sym wrote ∙ value) in
        (c, found, may, admits, same, rw rows (kept ∙ ap some (sym same)))

    -- Over a lawful repository, after any outcome, errors included, the rows are as they were, or the one
    -- row has made the move that the validation admitted.
    pub transition-rows :
        (outcome.1 ≡ r)
        ⊎ ((c : WorkflowSnapshot) × (ops.get m.workflow_id m.tenant_id r ≡ some c)
            × MayMove m.expected_state m.channel m.role m.allow_legacy_ui
            × Admits m c
            × (ops.get m.workflow_id m.tenant_id outcome.1 ≡ some (moved now (request m) c)))
    unfolding transition
    transition-rows = elim (validated-rows (validate_transition ops m r) outcome refl) [
      | inl kept ↦ inl kept
      | inr (c, valid, wrote) ↦
          let (found, may, admits) = validate_transition_sound ops m r c valid in
          inr (c, found, may, admits, rw wrote (stored c valid).1)
    ]

    -- Over a lawful repository, no outcome of a transition touches another workflow, of this tenant or of
    -- another.
    pub transition-frame :
        (w : Uuid) (t : String)
        → ◌≢◌ {A = String × Uuid} (m.tenant_id, m.workflow_id) (t, w)
        → ops.get w t outcome.1 ≡ ops.get w t r
    unfolding transition request
    transition-frame w t other = elim (validated-rows (validate_transition ops m r) outcome refl) [
      | inl kept ↦ rw kept
      | inr (c, valid, wrote) ↦ rw wrote (laws.transition_frame now (request m) r w t other)
    ]

    -- Over a lawful repository, a transition is accepted once: after it has returned, the same call, by whoever holds the same
    -- epoch, no longer passes the validation, whatever the ledger, the hook and the clock do.
    pub transition_once :
        (s : WorkflowSnapshot)
        → outcome.0 ≡ ok s
        → (c : WorkflowSnapshot) → validate_transition ops m outcome.1 ≢ ok c
    transition_once s done c valid =
        let (before, _, _, admits, same, shown) = transition-commits s done in
        let (found, _, again) = validate_transition_sound ops m outcome.1 c valid in
        replayed before admits.current same again.current (some-eq (sym shown ∙ found))
      where
        replayed :
            (before : WorkflowSnapshot)
            → Current m.expected_epoch m.expected_state before
            → s ≡ moved now (request m) before
            → Current m.expected_epoch m.expected_state c
            → s ≡ c
            → ⊥
        replayed before current same again equal =
            omega
              (arith, current.1, again.1, ap (λ (x : WorkflowSnapshot). x.epoch) (sym equal ∙ same))

  -- A reset leaves the rows as they were, or as the repository's own reset leaves them.
  pub invalidate-rows :
      (w : Uuid) (t : String) (n : ℕ) (channel : RequestChannel) (role actor : String) (r : R)
      (l : L)
      → ((invalidate ops ledger hook event_id now w t n channel role actor r l).1 ≡ r)
        ⊎ ((invalidate ops ledger hook event_id now w t n channel role actor r l).1
            ≡ (ops.invalidate now w t n r).1)
  unfolding invalidate
  invalidate-rows w t n channel role actor r l =
      ground (arith, λ (a : Append). commit-rows (ops.invalidate now w t n) a r l (ops.get w t r))
