-- ===== src/Api/Tests/Review.antt =====
-- A review from the handoff's issue to the evidence.
use recallops.Dict
use recallops.Domain.{exact}
use recallops.Workflow.InMemory.{get}
use recallops.Workflow.States.{WorkflowState}
use recallops.Sessions.SingleUse.{run_calls, get_run_call}
use recallops.Auth.{
  Authenticator, Principal, require, validate_csrf, consume_handoff_attempt, create_session,
  session_of, principal_of,
}
use recallops.Api.{
  Request, Settings, require_origin, require_protected_request, require_role, require_json,
  current_run,
}
use recallops.Common.{
  String, concat, some, string_eq, ℕ, ◌∷◌, [], false, none, ◌≡◌, ◌≢◌, refl, true, pair_eq,
}
use recallops.Sessions.{
  JudgeRun, ReviewHandoff, Sessions, RunStatus, get_handoff, get_run, consume_attempt,
  consume_handoff, save_handoff, save,
}
use recallops.Memory.Record.{Memory}
use recallops.Memory.Store.{Store, get_memory}
use recallops.Workflow.InMemory.{Workflows}
use recallops.Api.Handoff.{create_reviewer_handoff, review_target, handoff_of}
use recallops.Api.Exchange.{
  Draws, Exchanged, exchange_reviewer_handoff, valid_code, reviewer_request,
}
use recallops.Result.{IsErr, ok}
use recallops.Api.Scope.{reviewer_scope}
use recallops.Api.Scope.Independence.{Scoped, reviewer_scope_sound}
use recallops.Sessions.Handoffs.{Redeems}
use recallops.Api.Handoff.Issue.{Issued, create_reviewer_handoff_sound}
use recallops.Api.Exchange.Review.{attempted, exchange_sound}
use recallops.Domain.{positive, MemoryState, system_observed}
use recallops.Api.Exchange.Once.{exchange_once}

abbrev judges : Authenticator
judges = record {
  ttl = 1;
  attempt_limit = 5;
  attempt_window = 60;
  digest = λ s. concat ("#" ∷ s ∷ []);
  keyed = λ purpose address. concat (purpose ∷ address ∷ []);
}

abbrev settings : Settings
settings = record { public_origin = "https://o"; handoff_ttl_seconds = 1; authenticator = judges }

abbrev posted : Request
posted = record {
  origin = some "https://o";
  content_type = "application/json; charset=utf-8";
  reviewer_path = false;
  operator_cookie = none;
  reviewer_cookie = none;
  client_host = none;
}

abbrev secret : String
secret = "0123456789abcdef0123456789abcdef"

abbrev active_run : JudgeRun
active_run = record {
  run_id = "r";
  tenant_id = "t";
  generation = 1;
  scenario_version = "v1";
  source_incident_id = "i";
  status = RunStatus.active;
  operator_subject = "alice";
  build_sha = "sha";
  capability_policy_version = "p1";
  created_at = 0;
  expires_at = 5000000;
  finalized_at = none;
  reset_at = none;
}

abbrev tables : Sessions
tables = record {
  sessions = Dict.empty;
  attempts = Dict.empty;
  runs = Dict.put "r" active_run Dict.empty;
  handoffs = Dict.empty;
}

abbrev evidence : Memory ℕ
evidence = record {
  id = "m";
  tenant_id = "t";
  service = "checkout";
  service_version = "1.2.3";
  compatibility_policy = exact;
  compatibility_policy_version = "v1";
  symptom = "latency";
  action = "restart";
  outcome = "recovered";
  outcome_score = 1;
  outcome_semantics = some positive;
  confidence = 1;
  valid = false;
  state = MemoryState.pending_review;
  superseded_by = none;
  source_incident_id = some "i";
  observed_by = some "alice";
  evidence_verification = system_observed;
  evidence_refs = "e" ∷ [];
  observation_window_seconds = none;
  postconditions = [];
  reviewed_by = none;
  reviewed_at = none;
  observation_digest = none;
  assessment_digest = none;
  verdict_digest = none;
  memory_digest = some "d";
  governance_policy_version = "memory-governance-v1";
  governance_version = 1;
  expires_at = none;
  superseded_at = none;
  revoked_at = none;
  embedding_space = "hash";
  embedding = [];
  created_at = 0;
}

abbrev store : Store ℕ
store = record {
  memories = evidence ∷ [];
  analyses = Dict.empty;
  idempotency = Dict.empty;
  incidents = Dict.empty;
  outcome_memories = Dict.put ("t", "i") evidence Dict.empty;
  memory_events = [];
  approvals = Dict.empty;
  executions = Dict.empty;
  sandbox_executions = Dict.empty;
  postchecks = Dict.empty;
  postcheck_assessments = Dict.empty;
}

abbrev workflows : Workflows
workflows =
    Dict.put ("t", "i")
      (record {
        workflow_id = "i";
        tenant_id = "t";
        state = WorkflowState.pending_review;
        epoch = 5;
        active = true;
        proposal_hash = none;
        operator_subject = some "alice";
        reviewer_subject = none;
        created_at = 0;
        updated_at = 0;
      })
      Dict.empty

abbrev alice : Principal
alice = record {
  subject = "alice";
  tenant_id = "t";
  roles = "operator" ∷ "agent" ∷ [];
  auth_method = "judge_session";
  session_hash = some "#alice";
  csrf_hash = some "#csrf";
  run_id = some "r";
  session_generation = some 1;
  review_handoff_hash = none;
}

abbrev handoff : ReviewHandoff
handoff = record {
  code_hash = concat ("#" ∷ secret ∷ []);
  run_id = "r";
  tenant_id = "t";
  workflow_id = "i";
  memory_id = "m";
  memory_digest = "d";
  purpose = "initial_review";
  issued_by_subject = "alice";
  expires_at = 1000010;
  consumed_at = none;
  revoked_at = none;
}

issued :
    (create_reviewer_handoff settings 10 posted alice
      (some "csrf")
      "initial_review"
      "d"
      secret
      workflows
      store
      tables).0
    ≡ ok handoff
unfolding create_reviewer_handoff require_protected_request validate_csrf require_role require
    require_origin current_run get_run review_target handoff_of save_handoff get Dict.get Dict.put
    Dict.empty Dict.contains
issued = refl

create_reviewer_handoff_sound_example :
    (run : JudgeRun) × (m : Memory ℕ) × Issued settings 10 alice "initial_review" "d" secret
      workflows store tables
      (create_reviewer_handoff settings 10 posted alice
        (some "csrf")
        "initial_review"
        "d"
        secret
        workflows
        store
        tables).1
      handoff
      run
      m
create_reviewer_handoff_sound_example =
    create_reviewer_handoff_sound settings 10 alice "initial_review" "d" secret posted (some "csrf")
      workflows store tables handoff issued

-- The tables that hold the handoff.
abbrev ready : Sessions
ready = record tables { handoffs = Dict.put (concat ("#" ∷ secret ∷ [])) handoff Dict.empty }

abbrev draws : Draws
draws = record { subject_hex = "00ff"; token = "token"; csrf = "forged" }

abbrev bob : Principal
bob = record {
  subject = "reviewer_00ff";
  tenant_id = "t";
  roles = "reviewer" ∷ [];
  auth_method = "judge_session";
  session_hash = some "#token";
  csrf_hash = some "#forged";
  run_id = some "r";
  session_generation = some 1;
  review_handoff_hash = some (concat ("#" ∷ secret ∷ []));
}

abbrev response : Exchanged
response = record {
  token = "token";
  csrf_token = "forged";
  identity = bob;
  workflow_id = "i";
  memory_id = "m";
  memory_digest = "d";
  purpose = "initial_review";
}

exchanged : (exchange_reviewer_handoff settings 20 draws posted (some secret) ready).0 ≡ ok response
unfolding exchange_reviewer_handoff require_origin require_json valid_code consume_handoff_attempt
    consume_attempt consume_handoff get_run reviewer_request create_session session_of principal_of
    save Dict.get Dict.put Dict.empty
exchanged = refl

exchange_sound_example :
    (before : ReviewHandoff) × (run : JudgeRun) × (get_handoff
        (judges.digest secret)
        (attempted settings 20 draws posted ready)
      ≡ some before)
    × Redeems 20 (attempted settings 20 draws posted ready) before run
    × (bob.roles ≡ "reviewer" ∷ [])
    × (bob.run_id ≡ some run.run_id)
    × (bob.review_handoff_hash ≡ some before.code_hash)
    × (bob.subject ≢ run.operator_subject)
    × (bob.subject ≢ before.issued_by_subject)
exchange_sound_example = exchange_sound settings 20 draws posted secret ready response exchanged

exchange_once_example :
    IsErr
      (exchange_reviewer_handoff settings 30 draws posted (some secret) (
        run_calls
          (get_run_call 25 "r" ∷ [])
          (exchange_reviewer_handoff settings 20 draws posted (some secret) ready).1)).0
exchange_once_example =
    exchange_once settings 20 30 draws draws posted posted secret ready response
      (get_run_call 25 "r" ∷ []) exchanged

-- The tables once the handoff is consumed.
abbrev consumed : Sessions
consumed = record tables {
  handoffs =
      Dict.put (concat ("#" ∷ secret ∷ [])) (record handoff { consumed_at = some 20 }) Dict.empty;
}

in_scope :
    (reviewer_scope 30 bob (some "initial_review") store consumed).0
    ≡ ok (active_run, record handoff { consumed_at = some 20 }, evidence)
unfolding reviewer_scope require_role require get_handoff current_run get_run get_memory Dict.get
    Dict.put Dict.empty
in_scope = refl

reviewer_scope_sound_example :
    Scoped 30 bob
      (some "initial_review")
      store
      consumed
      active_run
      (record handoff { consumed_at = some 20 })
      evidence
reviewer_scope_sound_example =
    reviewer_scope_sound 30 bob (some "initial_review") store consumed active_run
      (record handoff { consumed_at = some 20 }) evidence in_scope
