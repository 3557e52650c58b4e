-- ===== src/Workflow/Coordinator/History.antt =====
-- Histories of coordinator calls: what happens to one workflow over any sequence of them.
use recallops.Workflow.Snapshot.{Time, WorkflowSnapshot, Uuid, check_snapshot}
use recallops.Workflow.Repository.{
  WorkflowRepository, TransitionRequest, moved, retired, IsRepository,
}
use recallops.Common.{
  if◌then◌else◌, Option, String, arith, ◌≡◌, true, ◌∙◌, ◌≤◌, Bool, false, List, ap, refl, some, ℕ,
  ◌∷◌, Bool-cases, [], pair_beq, inl, inr, string_eq, subst, ◌&&◌, nat_beq, pair_beq_iff, some-eq,
  sym,
}
use recallops.Ledger.Repository.{AuthorityLedger, FaultHook}
use recallops.Workflow.Coordinator.{
  Move, ensure_for_analysis, transition, invalidate, request, initial,
}
use recallops.Workflow.States.{RequestChannel}
use recallops.Workflow.Coordinator.Moves.{transition-rows, invalidate-rows, transition-frame}
use recallops.Result.{Result, err, validation_error}

-- One call of the coordinator that may write, with the event id and the time that it draws.
pub data Call : Type 0 where
  analysis : Time → String → Uuid → Option String → Bool → Call
  move : Uuid → Time → Move → Call
  reset : Uuid → Time → Uuid → String → ℕ → RequestChannel → String → String → Call

-- How one workflow's row may change: it keeps its identity and its proposal, its epoch does not
-- fall, it changes at no epoch of its own, and a retired row is final.
pub record Grows (c d : WorkflowSnapshot) : Type 0 where
  pub tenant : d.tenant_id ≡ c.tenant_id
  pub workflow : d.workflow_id ≡ c.workflow_id
  pub proposal : d.proposal_hash ≡ c.proposal_hash
  pub epoch_le : c.epoch ≤ d.epoch
  pub same_epoch : d.epoch ≡ c.epoch → d ≡ c
  pub retired_final : c.active ≡ false → d ≡ c

Grows-refl : (c : WorkflowSnapshot) → Grows c c
Grows-refl c = record {
  tenant = refl;
  workflow = refl;
  proposal = refl;
  epoch_le = omega arith;
  same_epoch = λ _. refl;
  retired_final = λ _. refl;
}

Grows-trans : {c d e : WorkflowSnapshot} → Grows c d → Grows d e → Grows c e
Grows-trans g h = record {
  tenant = h.tenant ∙ g.tenant;
  workflow = h.workflow ∙ g.workflow;
  proposal = h.proposal ∙ g.proposal;
  epoch_le = omega arith;
  same_epoch = λ same. trans_same g h same;
  retired_final = λ off. trans_final g h off;
}
  where
    trans_same : {c d e : WorkflowSnapshot} → Grows c d → Grows d e → e.epoch ≡ c.epoch → e ≡ c
    trans_same {c} {d} {e} g h same =
        h.same_epoch (omega (arith, g.epoch_le, h.epoch_le))
        ∙ g.same_epoch (omega (arith, g.epoch_le, h.epoch_le))

    trans_final : {c d e : WorkflowSnapshot} → Grows c d → Grows d e → c.active ≡ false → e ≡ c
    trans_final {c} {d} {e} g h off =
        h.retired_final (ap (λ (x : WorkflowSnapshot). x.active) (g.retired_final off) ∙ off)
        ∙ g.retired_final off

Grows-moved :
    (now : Time) (q : TransitionRequest) (c : WorkflowSnapshot)
    → c.active ≡ true
    → Grows c (moved now q c)
Grows-moved now q c on = record {
  tenant = refl;
  workflow = refl;
  proposal = refl;
  epoch_le = omega arith;
  same_epoch = λ same. absurd (omega arith);
  retired_final = λ off. cc (on, off);
}

Grows-retired : (now : Time) (c : WorkflowSnapshot) → c.active ≡ true → Grows c (retired now c)
Grows-retired now c on = record {
  tenant = refl;
  workflow = refl;
  proposal = refl;
  epoch_le = omega arith;
  same_epoch = λ same. absurd (omega arith);
  retired_final = λ off. cc (on, off);
}

not_current :
    (c : WorkflowSnapshot) (n : ℕ)
    → (c.active && nat_beq c.epoch n) ≡ false
    → ¬ ((c.active ≡ true) × (c.epoch ≡ n))
not_current c n stale k = ground arith

module _ {R L : Type 0} (ops : WorkflowRepository R) (ledger : Option (AuthorityLedger L))
    (hook : FaultHook) where
  -- One call, whatever it returns or raises.
  pub run_call : Call → R → L → R × L
  run_call (analysis now t w hash mutating) r l =
      ((ensure_for_analysis ops now t w hash mutating r).1, l)
  run_call (move event_id now m) r l =
      let (_, r', l') = transition ops ledger hook event_id now m r l in (r', l')
  run_call (reset event_id now w t n channel role actor) r l =
      let (_, r', l') = invalidate ops ledger hook event_id now w t n channel role actor r l in
      (r', l')

  pub run_calls : List Call → R → L → R × L
  unfolding run_call
  run_calls [] r l = (r, l)
  run_calls (c ∷ cs) r l = let (r', l') = run_call c r l in run_calls cs r' l'

  -- The row of a key is still there, and has grown.
  abbrev Grown : String × Uuid → R → R → Type 0
  Grown k r r' =
      (c : WorkflowSnapshot)
      → ops.get k.1 k.0 r ≡ some c
      → (d : WorkflowSnapshot) × (ops.get k.1 k.0 r' ≡ some d) × Grows c d

  Grown-same :
      (k : String × Uuid) (r r' : R) → ops.get k.1 k.0 r' ≡ ops.get k.1 k.0 r → Grown k r r'
  Grown-same k r r' same c h = (c, same ∙ h, Grows-refl c)

  module _ (laws : IsRepository ops) (event_id : Uuid) (now : Time) (r : R) (l : L) where
    move-Grown_self :
        (m : Move)
        → Grown (m.tenant_id, m.workflow_id) r (transition ops ledger hook event_id now m r l).1
    move-Grown_self m c h = elim (transition-rows ops ledger hook event_id now laws m r l) [
      | inl kept ↦ (c, rw kept h, Grows-refl c)
      | inr (b, found, may, admits, shown) ↦ (
        moved now (request m) b,
        shown,
        subst (λ (x : WorkflowSnapshot). Grows x (moved now (request m) b))
            (some-eq (sym found ∙ h)) (Grows-moved now (request m) b admits.current.0),
      )
    ]

    reset_row-Grown :
        (w : Uuid) (t : String) (n : ℕ) → Grown (t, w) r (ops.invalidate now w t n r).1
    reset_row-Grown w t n c h = elim (Bool-cases (c.active && nat_beq c.epoch n)) [
      | inl current ↦ (
        retired now c,
        (laws.invalidate_ok now w t n r c h (ground arith) (ground arith)).1,
        Grows-retired now c (ground arith),
      )
      | inr stale ↦ (
        c,
        rw
            (laws.invalidate_rejects now w t n r (λ d found k. not_current c n stale (
              subst (λ (x : WorkflowSnapshot). (x.active ≡ true) × (x.epoch ≡ n))
                (some-eq (sym found ∙ h)) k))).0
            h,
        Grows-refl c,
      )
    ]

    module _ (w : Uuid) (t : String) (n : ℕ) (channel : RequestChannel) (role actor : String) where
      abbrev after_reset : R
      after_reset = (invalidate ops ledger hook event_id now w t n channel role actor r l).1

      reset-Grown : (k : String × Uuid) → Grown k r after_reset
      reset-Grown k c h =
          elim (invalidate-rows ops ledger hook event_id now w t n channel role actor r l) [
            | inl kept ↦ (c, rw kept h, Grows-refl c)
            | inr wrote ↦ rw wrote (written k c h)
          ]
        where
          written : (k : String × Uuid) → Grown k r (ops.invalidate now w t n r).1
          written k = elim (Bool-cases (pair_beq (t, w) k)) [
            | inl here ↦
                subst (λ (x : String × Uuid). Grown x r (ops.invalidate now w t n r).1)
                  ((pair_beq_iff (t, w) k).0 here) (reset_row-Grown w t n)
            | inr other ↦ Grown-same k r (ops.invalidate now w t n r).1 (
                laws.invalidate_frame now w t n r k.1 k.0
                  (λ e. cc (other, (pair_beq_iff (t, w) k).1 e)))
          ]

    move-Grown :
        (m : Move) (k : String × Uuid) → Grown k r (transition ops ledger hook event_id now m r l).1
    move-Grown m k = elim (Bool-cases (pair_beq (m.tenant_id, m.workflow_id) k)) [
      | inl here ↦
          subst (λ (x : String × Uuid). Grown x r (transition ops ledger hook event_id now m r l).1)
            ((pair_beq_iff (m.tenant_id, m.workflow_id) k).0 here) (move-Grown_self m)
      | inr other ↦ Grown-same k r (transition ops ledger hook event_id now m r l).1 (
          transition-frame ops ledger hook event_id now laws m r l k.1 k.0
            (λ e. cc (other, (pair_beq_iff (m.tenant_id, m.workflow_id) k).1 e)))
    ]

  module _ (laws : IsRepository ops) where
    ensure-Grown : (s : WorkflowSnapshot) (r : R) (k : String × Uuid) → Grown k r (ops.ensure s r).1
    ensure-Grown s r k = elim (Bool-cases (pair_beq (s.tenant_id, s.workflow_id) k)) [
      | inl here ↦
          subst (λ (x : String × Uuid). Grown x r (ops.ensure s r).1)
            ((pair_beq_iff (s.tenant_id, s.workflow_id) k).0 here)
            (λ c h.
              Grown-same (s.tenant_id, s.workflow_id) r (ops.ensure s r).1
                (ap (λ (x : Result WorkflowSnapshot × R). ops.get s.workflow_id s.tenant_id x.1)
                  (laws.ensure_old s c r h))
                c h)
      | inr other ↦ Grown-same k r (ops.ensure s r).1 (
          laws.ensure_frame s r k.1 k.0
            (λ e. cc (other, (pair_beq_iff (s.tenant_id, s.workflow_id) k).1 e)))
    ]

    checked-Grown :
        (s : WorkflowSnapshot) (r : R) (k : String × Uuid) (b : Bool)
        → Grown k r (if b then ops.ensure s r else (err (validation_error "WorkflowSnapshot"), r)).1
    checked-Grown s r k true = ensure-Grown s r k
    checked-Grown s r k false = Grown-same k r r refl

    analysis-Grown :
        (now : Time) (t : String) (w : Uuid) (hash : Option String) (mutating : Bool) (r : R)
        (k : String × Uuid)
        → Grown k r (ensure_for_analysis ops now t w hash mutating r).1
    unfolding ensure_for_analysis
    analysis-Grown now t w hash mutating r k =
        checked-Grown (initial now t w hash mutating) r k
          (check_snapshot (initial now t w hash mutating))

    call-Grown : (x : Call) (r : R) (l : L) (k : String × Uuid) → Grown k r (run_call x r l).0
    unfolding run_call
    call-Grown (analysis now t w hash mutating) r l k = analysis-Grown now t w hash mutating r k
    call-Grown (move event_id now m) r l k = move-Grown laws event_id now r l m k
    call-Grown (reset event_id now w t n channel role actor) r l k =
        reset-Grown laws event_id now r l w t n channel role actor k

    -- Over a lawful repository and any sequence of calls, by anybody and with any outcomes, a workflow that is there stays
    -- there with its identity and proposal, its epoch never falls, two reads at one epoch are equal,
    -- and a retired workflow never changes again.
    pub run_calls-Grows :
        (calls : List Call) (r : R) (l : L) (w : Uuid) (t : String) (c : WorkflowSnapshot)
        → ops.get w t r ≡ some c
        → (d : WorkflowSnapshot) × (ops.get w t (run_calls calls r l).0 ≡ some d) × Grows c d
    unfolding run_calls
    run_calls-Grows [] r l w t c h = (c, h, Grows-refl c)
    run_calls-Grows (x ∷ xs) r l w t c h =
        let (d, found, grown) = call-Grown x r l (t, w) c h in
        let (e, last, more) =
          run_calls-Grows xs (run_call x r l).0 (run_call x r l).1 w t d found in
        (e, last, Grows-trans grown more)
