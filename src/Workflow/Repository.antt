-- ===== src/Workflow/Repository.antt =====
-- The `WorkflowRepository` protocol of src/recallops/workflow.py: its operations, and the laws
-- that the coordinator relies on, stated by what `get` shows of the repository.
use recallops.Workflow.Snapshot.{Time, Uuid, WorkflowSnapshot}
use recallops.Common.{
  Option, ℕ, String, false, ◌+◌, ◌≡◌, none, some, true, if◌then◌else◌, ◌==◌, ◌≢◌, string_eq,
}
use recallops.Result.{Result, ok, Refused}
use recallops.Workflow.States.{WorkflowState}

-- The arguments of `transition`.
pub record TransitionRequest : Type 0 where
  pub workflow_id : Uuid
  pub tenant_id : String
  pub expected_epoch : ℕ
  pub expected_state : WorkflowState
  pub target_state : WorkflowState
  pub operator_subject : Option String
  pub reviewer_subject : Option String

-- A repository keeps its rows in an `R`; a call returns its value or raises, and the rows after it.
pub record WorkflowRepository (R : Type 0) : Type 0 where
  pub ensure : WorkflowSnapshot → R → Result WorkflowSnapshot × R
  pub get : Uuid → String → R → Option WorkflowSnapshot
  pub transition : Time → TransitionRequest → R → Result WorkflowSnapshot × R
  pub invalidate : Time → Uuid → String → ℕ → R → Result WorkflowSnapshot × R

-- `subject or current`: an absent or empty subject keeps the one that stands.
abbrev pub or_subject : Option String → Option String → Option String
or_subject none current = current
or_subject (some s) current = if s == "" then current else some s

-- The row that an accepted transition writes.
abbrev pub moved : Time → TransitionRequest → WorkflowSnapshot → WorkflowSnapshot
moved now q s = record s {
  state = q.target_state;
  epoch = s.epoch + 1;
  operator_subject = or_subject q.operator_subject s.operator_subject;
  reviewer_subject = or_subject q.reviewer_subject s.reviewer_subject;
  updated_at = now;
}

-- The row that a reset writes.
abbrev pub retired : Time → WorkflowSnapshot → WorkflowSnapshot
retired now s = record s { active = false; epoch = s.epoch + 1; updated_at = now }

-- The compare-and-set test of `transition`.
abbrev pub Current : ℕ → WorkflowState → WorkflowSnapshot → Type 0
Current epoch state s = (s.active ≡ true) × (s.epoch ≡ epoch) × (s.state ≡ state)

-- What an implementation promises, for every state of its rows.
pub record IsRepository {R : Type 0} (ops : WorkflowRepository R) : Type 0 where
  pub ensure_new :
      (s : WorkflowSnapshot) (r : R)
      → ops.get s.workflow_id s.tenant_id r ≡ none
      → ((ops.ensure s r).0 ≡ ok s)
        × (ops.get s.workflow_id s.tenant_id (ops.ensure s r).1 ≡ some s)
  pub ensure_old :
      (s c : WorkflowSnapshot) (r : R)
      → ops.get s.workflow_id s.tenant_id r ≡ some c
      → ops.ensure s r ≡ (ok c, r)
  pub ensure_frame :
      (s : WorkflowSnapshot) (r : R) (w : Uuid) (t : String)
      → ◌≢◌ {A = String × Uuid} (s.tenant_id, s.workflow_id) (t, w)
      → ops.get w t (ops.ensure s r).1 ≡ ops.get w t r
  pub transition_ok :
      (now : Time) (q : TransitionRequest) (r : R) (c : WorkflowSnapshot)
      → ops.get q.workflow_id q.tenant_id r ≡ some c
      → Current q.expected_epoch q.expected_state c
      → ((ops.transition now q r).0 ≡ ok (moved now q c))
        × (ops.get q.workflow_id q.tenant_id (ops.transition now q r).1 ≡ some (moved now q c))
  pub transition_rejects :
      (now : Time) (q : TransitionRequest) (r : R)
      → ((c : WorkflowSnapshot)
          → ops.get q.workflow_id q.tenant_id r ≡ some c
          → ¬ Current q.expected_epoch q.expected_state c)
      → Refused (ops.transition now q r) r
  pub transition_frame :
      (now : Time) (q : TransitionRequest) (r : R) (w : Uuid) (t : String)
      → ◌≢◌ {A = String × Uuid} (q.tenant_id, q.workflow_id) (t, w)
      → ops.get w t (ops.transition now q r).1 ≡ ops.get w t r
  pub invalidate_ok :
      (now : Time) (w : Uuid) (t : String) (n : ℕ) (r : R) (c : WorkflowSnapshot)
      → ops.get w t r ≡ some c
      → c.active ≡ true
      → c.epoch ≡ n
      → ((ops.invalidate now w t n r).0 ≡ ok (retired now c))
        × (ops.get w t (ops.invalidate now w t n r).1 ≡ some (retired now c))
  pub invalidate_rejects :
      (now : Time) (w : Uuid) (t : String) (n : ℕ) (r : R)
      → ((c : WorkflowSnapshot) → ops.get w t r ≡ some c → ¬ ((c.active ≡ true) × (c.epoch ≡ n)))
      → Refused (ops.invalidate now w t n r) r
  pub invalidate_frame :
      (now : Time) (w : Uuid) (t : String) (n : ℕ) (r : R) (v : Uuid) (u : String)
      → ◌≢◌ {A = String × Uuid} (t, w) (u, v)
      → ops.get v u (ops.invalidate now w t n r).1 ≡ ops.get v u r
