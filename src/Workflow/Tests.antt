-- ===== src/Workflow/Tests.antt =====
-- Runs of the coordinator over the in-memory repository.
use recallops.Dict
use recallops.Workflow.Snapshot.{WorkflowSnapshot, Uuid}
use recallops.Workflow.InMemory.{Workflows, in_memory, in_memory-IsRepository}
use recallops.Common.{
  Option, String, ◌≡◌, none, pair_eq, some, string_eq, ◌≢◌, refl, true, ◌↔◌, ◌∷◌, [], false,
  false≢true, ap,
}
use recallops.Workflow.Coordinator.{validate_transition, Move, required_role, request, transition}
use recallops.Result.{Result, ok, err, workflow_conflict}
use recallops.Workflow.States.{pending_review, reviewed, ui, WorkflowState}
use recallops.Ledger.Repository.{AuthorityLedger}
use recallops.Workflow.Repository.{moved}
use recallops.Workflow.Coordinator.Moves.{transition-frame, transition_once, transition-commits}
use recallops.Workflow.Coordinator.Outcomes.{Outcome, transition-Outcome}
use recallops.Workflow.Coordinator.History.{run_calls, move, Grows, run_calls-Grows}
use recallops.Workflow.Coordinator.Authority.{MayMove, Admits, validate_transition_iff}

abbrev in_review : WorkflowSnapshot
in_review = record {
  workflow_id = "w";
  tenant_id = "t";
  state = pending_review;
  epoch = 5;
  active = true;
  proposal_hash = none;
  operator_subject = some "alice";
  reviewer_subject = none;
  created_at = 10;
  updated_at = 20;
}

abbrev rows : Workflows
rows = Dict.put ("t", "w") in_review Dict.empty

abbrev review_by : String → Move
review_by actor = record {
  workflow_id = "w";
  tenant_id = "t";
  expected_epoch = 5;
  expected_state = pending_review;
  target_state = reviewed;
  channel = ui;
  actor_subject = actor;
  role = "reviewer";
  reason_code = "REVIEW_ACCEPTED";
  object_type = none;
  object_id = none;
  object_digest = none;
  allow_legacy_ui = false;
}

abbrev no_ledger : Option (AuthorityLedger (Unit {0}))
no_ledger = none

abbrev reviewed_row : WorkflowSnapshot
reviewed_row = moved 30 (request (review_by "bob")) in_review

-- The reviewer passes the validation.
reviewer_passes : validate_transition in_memory (review_by "bob") rows ≡ ok in_review
unfolding validate_transition required_role in_memory Dict.get Dict.put Dict.empty
reviewer_passes = refl

-- The operator does not review.
operator_refused :
    validate_transition in_memory (review_by "alice") rows
    ≡ err (workflow_conflict "independent reviewer subject required")
unfolding validate_transition required_role in_memory Dict.get Dict.put Dict.empty
operator_refused = refl

bob_commits :
    (transition in_memory no_ledger none "e" 30 (review_by "bob") rows tt).0 ≡ ok reviewed_row
unfolding transition validate_transition required_role request in_memory Dict.get Dict.put
    Dict.empty
bob_commits = refl

stored : in_memory.get "w" "t" rows ≡ some in_review
unfolding in_memory Dict.get Dict.put Dict.empty
stored = refl

validate_transition_iff_example :
    ((validate_transition in_memory (review_by "bob") rows ≡ ok in_review) ↔ (
      (in_memory.get "w" "t" rows ≡ some in_review)
      × MayMove pending_review ui "reviewer" false
      × Admits (review_by "bob") in_review))
    × ((target : WorkflowState)
        → validate_transition in_memory (record (review_by "bob") { target_state = target }) rows
          ≡ validate_transition in_memory (review_by "bob") rows)
validate_transition_iff_example = validate_transition_iff in_memory (review_by "bob") rows in_review

abbrev after_review : Result WorkflowSnapshot × Workflows × Unit {0}
after_review = transition in_memory no_ledger none "e" 30 (review_by "bob") rows tt

transition-commits_example :
    (c : WorkflowSnapshot) × (in_memory.get "w" "t" rows ≡ some c)
    × MayMove pending_review ui "reviewer" false
    × Admits (review_by "bob") c
    × (reviewed_row ≡ moved 30 (request (review_by "bob")) c)
    × (in_memory.get "w" "t" after_review.1 ≡ some reviewed_row)
transition-commits_example =
    transition-commits in_memory no_ledger none "e" 30 in_memory-IsRepository (review_by "bob") rows
      tt reviewed_row bob_commits

transition-Outcome_example :
    Outcome in_memory no_ledger none "e" 30 (review_by "bob") rows tt after_review
transition-Outcome_example =
    transition-Outcome in_memory no_ledger none "e" 30 (review_by "bob") rows tt
      in_memory-IsRepository

transition-frame_example : in_memory.get "v" "t" after_review.1 ≡ in_memory.get "v" "t" rows
transition-frame_example =
    transition-frame in_memory no_ledger none "e" 30 in_memory-IsRepository (review_by "bob") rows
      tt "v" "t"
      (λ e. false≢true ((string_eq.beq_iff "w" "v").1 (ap (λ (k : String × Uuid). k.1) e)))

transition_once_example :
    validate_transition in_memory (review_by "bob") after_review.1 ≢ ok reviewed_row
transition_once_example =
    transition_once in_memory no_ledger none "e" 30 in_memory-IsRepository (review_by "bob") rows tt
      reviewed_row bob_commits reviewed_row

run_calls-Grows_example :
    (d : WorkflowSnapshot) × (in_memory.get "w" "t"
        (run_calls in_memory no_ledger none (move "e" 30 (review_by "bob") ∷ []) rows tt).0
      ≡ some d)
    × Grows in_review d
run_calls-Grows_example =
    run_calls-Grows in_memory no_ledger none in_memory-IsRepository
      (move "e" 30 (review_by "bob") ∷ []) rows tt "w" "t" in_review stored
