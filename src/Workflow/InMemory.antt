-- ===== src/Workflow/InMemory.antt =====
-- `InMemoryWorkflowRepository` of src/recallops/workflow.py. Each method holds the lock for the
-- whole of its body, so a call is one step.
use recallops.Dict
use recallops.Dict.{Dict, get-put_self, get-put_ne}
use recallops.Workflow.Snapshot.{Time, Uuid, WorkflowSnapshot}
use recallops.Workflow.Repository.{
  WorkflowRepository, TransitionRequest, IsRepository, moved, retired, Current,
}
use recallops.Common.{
  arith, String, Option, ℕ, none, pair_eq, some, string_eq, if◌then◌else◌, not, ◌!=◌, ◌||◌, nat_eq,
  ◌≡◌, true, refl, ◌≢◌,
}
use recallops.Result.{Result, ok, err, workflow_conflict, Refused}
use recallops.Workflow.States.{state_eq, state_beq_iff}

abbrev pub Workflows : Type 0
Workflows = Dict (String × Uuid) WorkflowSnapshot

unfoldable pub get : Uuid → String → Workflows → Option WorkflowSnapshot
get workflow_id tenant_id r = Dict.get (tenant_id, workflow_id) r

unfoldable pub ensure : WorkflowSnapshot → Workflows → Result WorkflowSnapshot × Workflows
ensure s r = let (found, r') = Dict.setdefault (s.tenant_id, s.workflow_id) s r in (ok found, r')

-- The body of `transition` once the row has been looked up.
transition_row :
    Time
    → TransitionRequest
    → Workflows
    → Option WorkflowSnapshot
    → Result WorkflowSnapshot × Workflows
transition_row now q r none = (err (workflow_conflict "workflow not found"), r)
transition_row now q r (some current) =
    if not current.active
    then (err (workflow_conflict "workflow is inactive"), r)
    else if current.epoch != q.expected_epoch || current.state != q.expected_state
    then (err (workflow_conflict "stale workflow state or epoch"), r)
    else (ok (moved now q current), Dict.put (q.tenant_id, q.workflow_id) (moved now q current) r)

unfoldable pub transition :
    Time → TransitionRequest → Workflows → Result WorkflowSnapshot × Workflows
unfolding transition_row
transition now q r = transition_row now q r (Dict.get (q.tenant_id, q.workflow_id) r)

-- The body of `invalidate` once the row has been looked up.
invalidate_row :
    Time
    → Uuid
    → String
    → ℕ
    → Workflows
    → Option WorkflowSnapshot
    → Result WorkflowSnapshot × Workflows
invalidate_row now workflow_id tenant_id expected_epoch r none =
    (err (workflow_conflict "workflow not found"), r)
invalidate_row now workflow_id tenant_id expected_epoch r (some current) =
    if not current.active || current.epoch != expected_epoch
    then (err (workflow_conflict "stale workflow state or epoch"), r)
    else (ok (retired now current), Dict.put (tenant_id, workflow_id) (retired now current) r)

unfoldable pub invalidate :
    Time → Uuid → String → ℕ → Workflows → Result WorkflowSnapshot × Workflows
unfolding invalidate_row
invalidate now workflow_id tenant_id expected_epoch r =
    invalidate_row now workflow_id tenant_id expected_epoch r (Dict.get (tenant_id, workflow_id) r)

unfoldable pub in_memory : WorkflowRepository Workflows
unfolding ensure get transition invalidate
in_memory = record { ensure = ensure; get = get; transition = transition; invalidate = invalidate }

module _ (now : Time) (r : Workflows) where
  transition_row-Refused :
      (q : TransitionRequest) (o : Option WorkflowSnapshot)
      → ((c : WorkflowSnapshot) → o ≡ some c → ¬ Current q.expected_epoch q.expected_state c)
      → Refused (transition_row now q r o) r
  unfolding transition_row
  transition_row-Refused q none h = (refl, tt)
  transition_row-Refused q (some c) h =
      ground (arith, h c refl, state_beq_iff c.state q.expected_state)

  invalidate_row-Refused :
      (w : Uuid) (t : String) (n : ℕ) (o : Option WorkflowSnapshot)
      → ((c : WorkflowSnapshot) → o ≡ some c → ¬ ((c.active ≡ true) × (c.epoch ≡ n)))
      → Refused (invalidate_row now w t n r o) r
  unfolding invalidate_row
  invalidate_row-Refused w t n none h = (refl, tt)
  invalidate_row-Refused w t n (some c) h = ground (arith, h c refl)

  transition_row-frame :
      (q : TransitionRequest) (k : String × Uuid) (o : Option WorkflowSnapshot)
      → ◌≢◌ {A = String × Uuid} (q.tenant_id, q.workflow_id) k
      → Dict.get k (transition_row now q r o).1 ≡ Dict.get k r
  unfolding transition_row
  transition_row-frame q k none h = refl
  transition_row-frame q k (some c) h =
      ground (arith, get-put_ne (q.tenant_id, q.workflow_id) k (moved now q c) r h)

  invalidate_row-frame :
      (w : Uuid) (t : String) (n : ℕ) (k : String × Uuid) (o : Option WorkflowSnapshot)
      → ◌≢◌ {A = String × Uuid} (t, w) k
      → Dict.get k (invalidate_row now w t n r o).1 ≡ Dict.get k r
  unfolding invalidate_row
  invalidate_row-frame w t n k none h = refl
  invalidate_row-frame w t n k (some c) h = ground (arith, get-put_ne (t, w) k (retired now c) r h)

-- The in-memory repository keeps every promise of the protocol.
pub in_memory-IsRepository : IsRepository in_memory
unfolding in_memory Dict.setdefault
in_memory-IsRepository = record {
  ensure_new = λ s r h. ground (arith, get-put_self (s.tenant_id, s.workflow_id) s r);
  ensure_old = λ s c r h. ground arith;
  ensure_frame = λ s r w t h. ground (arith, get-put_ne (s.tenant_id, s.workflow_id) (t, w) s r h);
  transition_ok = λ now q r c h k. ground (
    arith,
    state_beq_iff c.state q.expected_state,
    get-put_self (q.tenant_id, q.workflow_id) (moved now q c) r,
  );
  transition_rejects =
      λ now q r h. transition_row-Refused now r q (Dict.get (q.tenant_id, q.workflow_id) r) h;
  transition_frame = λ now q r w t h.
      transition_row-frame now r q (t, w) (Dict.get (q.tenant_id, q.workflow_id) r) h;
  invalidate_ok = λ now w t n r c h a e. ground (arith, get-put_self (t, w) (retired now c) r);
  invalidate_rejects = λ now w t n r h. invalidate_row-Refused now r w t n (Dict.get (t, w) r) h;
  invalidate_frame =
      λ now w t n r v u h. invalidate_row-frame now r w t n (u, v) (Dict.get (t, w) r) h;
}
