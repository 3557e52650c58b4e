-- ===== src/Ledger/InMemory/Chain.antt =====
-- The hash chain of a run's events, and that appends keep it.
use recallops.Dict
use recallops.Ledger.Event.{
  Hashing, AuthorityEvent, verify_event, canonical_event_payload, zero_event_hash,
  authority_event_hash, check_event,
}
use recallops.Common.{
  String, List, ℕ, last?, none, some, ◌≡◌, pair_eq, string_eq, true, length, ◌+◌, ◌∷◌, [], arith,
  suc, ◌++◌, ==_refl, refl, subst, not, Option, Bool-cases, Option-cases, inl, pair_beq,
  pair_beq_iff, sym, inr,
}
use recallops.Ledger.InMemory.{
  Ledger, event, Run, Append, head_hash, draft, FaultHook, list_events, append_transition,
}
use recallops.Workflow.Snapshot.{Uuid, Time, WorkflowSnapshot}
use recallops.Result.{
  ok, >>=-eq-ok, ok-injective, Result, raise_if->>-eq-ok, validation_error, ◌>>=◌, err,
}
use recallops.Ledger.InMemory.Appends.{
  appended, append_transition_unbound, list_events-append_transition, append_transition-made,
  append_transition_frame,
}

module _ (h : Hashing) where
  -- Each event verifies against the hash of the one before it, and the sequence counts up.
  abbrev pub Chain : String → ℕ → List AuthorityEvent → Type 0
  Chain previous n [] = Unit
  Chain previous n (e ∷ es) =
      (verify_event h e previous ≡ ok true) × (e.sequence ≡ n) × Chain e.event_hash (suc n) es

  -- Every run's list in the ledger is a chain from the zero hash and sequence 1.
  abbrev pub IsChained : Ledger → Type 0
  IsChained l =
      (run_id : Uuid) (tenant_id : String)
      → Chain zero_event_hash 1 (list_events run_id tenant_id l)

abbrev pub head_from : String → List AuthorityEvent → String
head_from previous es = elim (last? es) [ none ↦ previous | some e ↦ e.event_hash ]

pub head_from-cons :
    (previous : String) (x : AuthorityEvent) (xs : List AuthorityEvent)
    → head_from previous (x ∷ xs) ≡ head_from x.event_hash xs
head_from-cons previous x [] = refl
head_from-cons previous x (y ∷ ys) = head_from-cons' y ys
  where
    head_from-cons' :
        (y : AuthorityEvent) (ys : List AuthorityEvent)
        → head_from previous (y ∷ ys) ≡ head_from x.event_hash (y ∷ ys)
    head_from-cons' y [] = refl
    head_from-cons' y (z ∷ zs) = head_from-cons' z zs

module _ (h : Hashing) where
  pub Chain-append :
      (previous : String) (n : ℕ) (es : List AuthorityEvent) (e : AuthorityEvent)
      → Chain h previous n es
      → verify_event h e (head_from previous es) ≡ ok true
      → e.sequence ≡ n + length es
      → Chain h previous n (es ++ e ∷ [])
  Chain-append previous n [] e c v s = (v, omega arith, tt)
  Chain-append previous n (x ∷ xs) e c v s = (
    c.0,
    c.1,
    Chain-append x.event_hash (suc n) xs e c.2
        (subst (λ p. verify_event h e p ≡ ok true) (head_from-cons previous x xs) v) (omega arith),
  )

  -- The hash that is put in is the one that `verify_event` computes: the payload leaves it out.
  sealed-verify :
      (d : AuthorityEvent) (c : String)
      → authority_event_hash h d.previous_event_hash (canonical_event_payload h d) ≡ ok c
      → verify_event h (record d { event_hash = c }) d.previous_event_hash ≡ ok true
  unfolding verify_event canonical_event_payload
  sealed-verify d c computed = rw (==_refl d.previous_event_hash) (rw computed (rw (==_refl c)))

  -- What `_event` returns extends the list that it was made for.
  event-verify :
      (event_id : Uuid) (now : Time) (run : Run) (events : List AuthorityEvent)
      (before after : WorkflowSnapshot) (a : Append) (e : AuthorityEvent)
      → event h event_id now run events before after a ≡ ok e
      → (verify_event h e (head_hash events) ≡ ok true) × (e.sequence ≡ length events + 1)
  unfolding event
  event-verify event_id now run events before after a e made =
      let d = draft event_id now run events before after a in
      let computation =
        authority_event_hash h d.previous_event_hash (canonical_event_payload h d) in
      let build : String → Result AuthorityEvent = λ c. ok (record d { event_hash = c }) in
      let (_, checked) =
        raise_if->>-eq-ok (not (check_event d)) (validation_error "AuthorityEvent")
          (computation >>= build) made in
      let (c, computed, built) = >>=-eq-ok computation build checked in
      subst
        (λ x. (verify_event h x (head_hash events) ≡ ok true) × (x.sequence ≡ length events + 1))
        (ok-injective built) (sealed-verify d c computed, refl)

  -- A returned event verifies against the list as it stood, so the longer list is a chain.
  Chain-appended :
      (r : Result (Option AuthorityEvent)) (es : List AuthorityEvent)
      → Chain h zero_event_hash 1 es
      → ((e : AuthorityEvent)
          → r ≡ ok (some e)
          → (verify_event h e (head_hash es) ≡ ok true) × (e.sequence ≡ length es + 1))
      → Chain h zero_event_hash 1 (appended r es)
  Chain-appended (ok (some e)) es c fits =
      let (v, s) = fits e refl in Chain-append zero_event_hash 1 es e c v (omega arith)
  Chain-appended (ok none) es c fits = c
  Chain-appended (err x) es c fits = c

  module _ (hook : FaultHook) (event_id : Uuid) (now : Time) (before after : WorkflowSnapshot)
      (a : Append) (l : Ledger) (chained : IsChained h l) where
    abbrev result : Result (Option AuthorityEvent) × Ledger
    result = append_transition h hook event_id now before after a l

    bound-IsChained :
        (run : Run)
        → Dict.get (before.tenant_id, before.workflow_id) l.runs ≡ some run
        → IsChained h result.1
    bound-IsChained run bound r t =
        elim (Bool-cases (pair_beq (before.tenant_id, run.run_id) (t, r))) [
          | inl same ↦
              let here = (pair_beq_iff (before.tenant_id, run.run_id) (t, r)).0 same in
              subst
                (λ (k : String × Uuid). Chain h zero_event_hash 1 (list_events k.1 k.0 result.1))
                here
                (rw (list_events-append_transition h hook event_id now before after a l run bound) (
                  Chain-appended result.0 (list_events run.run_id before.tenant_id l)
                    (chained run.run_id before.tenant_id)
                    (λ e done.
                      event-verify event_id now run (list_events run.run_id before.tenant_id l)
                        before after a e
                        (append_transition-made h hook event_id now before after a l run bound e
                          done))))
          | inr other ↦
              rw
                (append_transition_frame h hook event_id now before after a l run bound r t
                  (λ e. cc ((pair_beq_iff (before.tenant_id, run.run_id) (t, r)).1 e)))
                (chained r t)
        ]

    -- On a ledger whose lists are chains, every append, whether it returns or raises at any stage, keeps every run's list a verified
    -- hash chain from the zero hash with the sequence numbers 1, 2, 3 and so on.
    pub append_transition-IsChained : IsChained h result.1
    append_transition-IsChained =
        elim (Option-cases (Dict.get (before.tenant_id, before.workflow_id) l.runs)) [
          | inl unbound ↦
              subst (λ (x : Result (Option AuthorityEvent) × Ledger). IsChained h x.1)
                (sym (append_transition_unbound h hook event_id now before after a l unbound))
                chained
          | inr (run, bound) ↦ bound-IsChained run bound
        ]
