-- ===== src/Api/Handoff.antt =====
-- `review_target`, `create_reviewer_handoff` and `require_if_match` of src/recallops/api.py, over the
-- in-memory store and workflow repository; the code is a random token. A handoff's purpose is the value
-- of `HandoffPurpose`. A memory with no digest makes the comparison raise, which the server answers with 500.
pub mod Issue
pub mod Ready
use recallops.Sessions
use recallops.Dict
use recallops.Common.{pair_eq}
use recallops.Memory.Store.{Store}
use recallops.Workflow.InMemory.{Workflows, get}
use recallops.Workflow.States.{WorkflowState, state_eq}
use recallops.Domain.{MemoryState, memory_state_eq}
use recallops.Result.{Error, Result, http_error, err, ◌>>=◌, ◌>>◌, ok, raise_if}
use recallops.Common.{
  Option, String, Bool, if◌then◌else◌, concat, false, not, ◌+◌, ◌==◌, some, string_eq, ◌*◌, ◌||◌,
  ◌∷◌, decimal, is_none, leb, none, ◌!=◌, ◌&&◌, [],
}
use recallops.Workflow.Snapshot.{Time, WorkflowSnapshot}
use recallops.Api.{Settings, Request, require_protected_request, current_run, require_role}
use recallops.Sessions.{JudgeRun, ReviewHandoff, Sessions}
use recallops.Memory.Record.{Memory}
use recallops.Auth.{Principal}

nothing_ready : Error
nothing_ready = http_error 409 "no reviewable evidence is ready"

-- The states of the workflow and of the memory for a purpose.
pub expected_states : String → WorkflowState × MemoryState
expected_states purpose =
    if purpose == "initial_review"
    then (WorkflowState.pending_review, MemoryState.pending_review)
    else (WorkflowState.reviewed, MemoryState.active)

-- `snapshot is None or not snapshot.active or snapshot.state is not expected_state`
pub in_state : WorkflowState → Option WorkflowSnapshot → Bool
in_state expected none = false
in_state expected (some snapshot) = snapshot.active && snapshot.state == expected

pub past : Time → Option Time → Bool
past now none = false
past now (some t) = leb t now

same_digest : String → Option String → Result (Unit {0})
same_digest supplied none = err (http_error 500 "Internal Server Error")
same_digest supplied (some digest) =
    raise_if (supplied != digest) (http_error 409 "stale or mismatched memory digest")

stored_handoff : ReviewHandoff → Result (Unit {0}) × Sessions → Result ReviewHandoff × Sessions
stored_handoff h (err e, s) = (err e, s)
stored_handoff h (ok _, s) = (ok h, s)

module _ {F : Type 0} where
  -- The tests on a memory whose reuse is to be revoked.
  pub lapsed : Time → Memory F → Bool
  lapsed now m =
      not m.valid
      || past now m.expires_at
      || not (is_none m.superseded_at)
      || not (is_none m.revoked_at)

  pub reviewable : Time → String → Option (Memory F) → Result (Memory F)
  unfolding nothing_ready expected_states lapsed past
  reviewable now purpose none = err nothing_ready
  reviewable now purpose (some m) =
      if m.state != (expected_states purpose).1
      then err nothing_ready
      else if purpose == "revocation" && lapsed now m
      then err nothing_ready
      else ok m

  unfoldable pub review_target : Time → JudgeRun → String → Workflows → Store F → Result (Memory F)
  unfolding reviewable in_state
  review_target now run purpose workflows store =
      if not
        (in_state (expected_states purpose).0 (get run.source_incident_id run.tenant_id workflows))
      then err nothing_ready
      else reviewable now purpose
          (Dict.get (run.tenant_id, run.source_incident_id) store.outcome_memories)

module _ {F : Type 0} (st : Settings) (now : Time) where
  unfoldable pub handoff_of :
      Principal → JudgeRun → String → String → Memory F → String → ReviewHandoff
  handoff_of identity run purpose digest m code = record {
    code_hash = st.authenticator.digest code;
    run_id = run.run_id;
    tenant_id = run.tenant_id;
    workflow_id = run.source_incident_id;
    memory_id = m.id;
    memory_digest = digest;
    purpose = purpose;
    issued_by_subject = identity.subject;
    expires_at = now + st.handoff_ttl_seconds * 1000000;
    consumed_at = none;
    revoked_at = none;
  }

  issue :
      Principal
      → JudgeRun
      → String
      → String
      → String
      → Result (Memory F)
      → Sessions
      → Result ReviewHandoff × Sessions
  unfolding handoff_of stored_handoff
  issue identity run purpose digest code (err e) s = (err e, s)
  issue identity run purpose digest code (ok m) s =
      stored_handoff (handoff_of identity run purpose digest m code)
        (Sessions.save_handoff (handoff_of identity run purpose digest m code) s)

  checked_target : JudgeRun → String → String → Workflows → Store F → Result (Memory F)
  unfolding review_target same_digest
  checked_target run purpose digest workflows store = do
    m ← review_target now run purpose workflows store
    same_digest digest m.memory_digest
    ok m

  in_run :
      Principal
      → String
      → String
      → String
      → Workflows
      → Store F
      → Result JudgeRun × Sessions
      → Result ReviewHandoff × Sessions
  unfolding issue checked_target
  in_run identity purpose digest code workflows store (err e, s) = (err e, s)
  in_run identity purpose digest code workflows store (ok run, s) =
      issue identity run purpose digest code (checked_target run purpose digest workflows store) s

  permitted :
      Principal
      → String
      → String
      → String
      → Workflows
      → Store F
      → Result (Unit {0})
      → Sessions
      → Result ReviewHandoff × Sessions
  unfolding in_run
  permitted identity purpose digest code workflows store (err e) s = (err e, s)
  permitted identity purpose digest code workflows store (ok _) s =
      in_run identity purpose digest code workflows store (current_run now identity s)

  unfoldable pub create_reviewer_handoff :
      Request
      → Principal
      → Option String
      → String
      → String
      → String
      → Workflows
      → Store F
      → Sessions
      → Result ReviewHandoff × Sessions
  unfolding permitted
  create_reviewer_handoff r identity csrf_token purpose digest code workflows store s =
      permitted identity purpose digest code workflows store
        (do require_protected_request st r identity csrf_token; require_role identity "operator") s

-- `f'"{run.generation}:{workflow.epoch}"'`
etag : JudgeRun → WorkflowSnapshot → String
etag run workflow =
    concat ("\"" ∷ decimal run.generation ∷ ":" ∷ decimal workflow.epoch ∷ "\"" ∷ [])

pub require_if_match : Option String → JudgeRun → WorkflowSnapshot → Result (Unit {0})
unfolding etag
require_if_match none run workflow = err (http_error 428 "If-Match required")
require_if_match (some supplied) run workflow =
    raise_if (supplied != etag run workflow) (http_error 412 "stale workflow precondition")
