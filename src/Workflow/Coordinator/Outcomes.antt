-- ===== src/Workflow/Coordinator/Outcomes.antt =====
-- All that a transition can come to, with its evidence: src/recallops/workflow.py.
use recallops.Workflow.Repository.{WorkflowRepository, IsRepository, moved}
use recallops.Common.{Option, ◌≡◌, some, none, refl, sym, subst}
use recallops.Ledger.Repository.{AuthorityLedger, FaultHook, fault}
use recallops.Ledger.Event.{AuthorityEvent}
use recallops.Workflow.Snapshot.{Uuid, Time, WorkflowSnapshot}
use recallops.Result.{Result, Error, err, ok}
use recallops.Workflow.Coordinator.{
  commit, record_event, settle, Move, request, transition, validate_transition, validated, evidence,
}
use recallops.Workflow.Coordinator.Authority.{MayMove, Admits, validate_transition_sound}

module _ {R L : Type 0} (ops : WorkflowRepository R) (ledger : Option (AuthorityLedger L))
    (hook : FaultHook) (event_id : Uuid) (now : Time) (m : Move) (r : R) (l : L) where
  -- The row was admitted, and the repository now holds the move.
  pub record Moved (c : WorkflowSnapshot) (r' : R) : Type 0 where
    pub read : ops.get m.workflow_id m.tenant_id r ≡ some c
    pub may : MayMove m.expected_state m.channel m.role m.allow_legacy_ui
    pub admits : Admits m c
    pub holds : ops.get m.workflow_id m.tenant_id r' ≡ some (moved now (request m) c)

  -- The append of the event of this move.
  abbrev pub append : AuthorityLedger L → WorkflowSnapshot → Result (Option AuthorityEvent) × L
  append x c = x.append_transition event_id now c (moved now (request m) c) (evidence m) l

  -- The outcomes: refused, or stopped by a fault before the move, with nothing written; moved and stopped by
  -- the fault after it, with nothing recorded; moved and refused by the ledger; and moved, with
  -- the ledger's answer to exactly this move (the event, or `None` if it keeps none), or without a ledger.
  pub data Outcome : Result WorkflowSnapshot × R × L → Type 0 where
    unmoved : (e : Error) → Outcome (err e, r, l)
    faulted :
        (c : WorkflowSnapshot) (r' : R) (e : Error)
        → Moved c r'
        → fault hook "after_workflow" ≡ err e
        → Outcome (err e, r', l)
    unrecorded :
        (c : WorkflowSnapshot) (r' : R) (x : AuthorityLedger L) (e : Error)
        → Moved c r'
        → ledger ≡ some x
        → (append x c).0 ≡ err e
        → Outcome (err e, r', (append x c).1)
    recorded :
        (c : WorkflowSnapshot) (r' : R) (x : AuthorityLedger L) (event : Option AuthorityEvent)
        → Moved c r'
        → ledger ≡ some x
        → (append x c).0 ≡ ok event
        → Outcome (ok (moved now (request m) c), r', (append x c).1)
    unledgered :
        (c : WorkflowSnapshot) (r' : R)
        → Moved c r'
        → ledger ≡ none
        → Outcome (ok (moved now (request m) c), r', l)

  module _ (c : WorkflowSnapshot) (r' : R) (there : Moved c r') where
    appended-Outcome :
        (x : AuthorityLedger L) (o : Result (Option AuthorityEvent))
        → ledger ≡ some x
        → (append x c).0 ≡ o
        → Outcome (
            record_event ops ledger hook event_id now
              (some x)
              c
              (moved now (request m) c)
              (evidence m)
              r'
              l)
    unfolding record_event
    appended-Outcome x (err e) is made = rw made (unrecorded c r' x e there is made)
    appended-Outcome x (ok event) is made = rw made (recorded c r' x event there is made)

    record_event-Outcome :
        (o : Option (AuthorityLedger L))
        → ledger ≡ o
        → Outcome (
            record_event ops ledger hook event_id now o c
              (moved now (request m) c)
              (evidence m)
              r'
              l)
    record_event-Outcome none is = unfold record_event in unledgered c r' there is
    record_event-Outcome (some x) is = appended-Outcome x (append x c).0 is refl

    settle-Outcome :
        (o : Result (Unit {0}))
        → fault hook "after_workflow" ≡ o
        → Outcome
            (settle ops ledger hook event_id now c (evidence m) (ok (moved now (request m) c)) r' l)
    unfolding settle
    settle-Outcome (err e) is = rw (settle, is) (faulted c r' e there is)
    settle-Outcome (ok u) is = rw (settle, is) (record_event-Outcome ledger refl)

  module _ (laws : IsRepository ops) (c : WorkflowSnapshot)
      (valid : validate_transition ops m r ≡ ok c) where
    written :
        ((ops.transition now (request m) r).0 ≡ ok (moved now (request m) c))
        × Moved c (ops.transition now (request m) r).1
    unfolding request
    written =
        let (found, may, admits) = validate_transition_sound ops m r c valid in
        let (value, held) = laws.transition_ok now (request m) r c found admits.current in
        (value, record { read = found; may = may; admits = admits; holds = held })

    commit-Outcome :
        (o : Result (Unit {0}))
        → fault hook "before_workflow" ≡ o
        → Outcome (
            commit ops ledger hook event_id now
              (ops.transition now (request m))
              (evidence m)
              r
              l
              (some c))
    unfolding commit
    commit-Outcome (err e) is = rw (commit, is) (unmoved e)
    commit-Outcome (ok u) is =
        rw (commit, is)
          (rw written.0 (
            settle-Outcome c (ops.transition now (request m) r).1 written.1
              (fault hook "after_workflow") refl))

  validated-Outcome :
      IsRepository ops
      → (v : Result WorkflowSnapshot) → validate_transition ops m r ≡ v
      → Outcome (validated ops ledger hook event_id now m r l v)
  unfolding validated
  validated-Outcome laws (err e) valid = unmoved e
  validated-Outcome laws (ok c) valid =
      let (found, may, admits) = validate_transition_sound ops m r c valid in
      subst
        (λ o.
          Outcome (
            commit ops ledger hook event_id now (ops.transition now (request m)) (evidence m) r l
              o))
        (sym found) (commit-Outcome laws c valid (fault hook "before_workflow") refl)

  -- Over a lawful repository, a transition comes to one of five outcomes. Where it returns, the row that
  -- the validation admitted has made the move, and the ledger, if there is one, has answered the append
  -- of exactly that move, whose state it leaves. Where it raises, either nothing is written, in the rows or in the ledger; or, after
  -- a fault behind the repository's call or an error of the ledger, the row has made the move without its
  -- event.
  pub transition-Outcome :
      IsRepository ops → Outcome (transition ops ledger hook event_id now m r l)
  unfolding transition
  transition-Outcome laws = validated-Outcome laws (validate_transition ops m r) refl
