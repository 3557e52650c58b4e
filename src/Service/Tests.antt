-- ===== src/Service/Tests.antt =====
-- Runs of the service over the in-memory store. Error rates are counted in thousandths.
use recallops.Dict
use recallops.Memory.Record.{Floats}
use recallops.Incident.{
  ApprovalRequest, ExecutionAttestationRequest, IncidentAnalysis, PostcheckObservation,
  SandboxExecution, SandboxExecutionRequest,
}
use recallops.Service.Sandbox.{evaluate_observation, baseline, remedied, sandbox_action_command}
use recallops.Common.{
  pair_eq, string_eq, List, true, ℕ, ◌∷◌, ◌≡◌, String, [], ltb, refl, some, Bool, leb, ◌↔◌, not,
  ◌/◌, if◌then◌else◌, is_empty, ◌≢◌, ◌≤◌, ◌*◌, ◌<◌,
}
use recallops.Memory.Store.{Store, get_analysis, get_approval, record_approval}
use recallops.Service.Approval.{decide_approval, prepare_execution, attestation}
use recallops.Domain.{EvidenceVerification, mutating, recovered, manual_attestation, inconclusive}
use recallops.Service.Approval.Bound.{
  Approves, decide_approval-Approves, decision, Approves-decide_approval,
}
use recallops.Service.Approval.Executions.{Executes, prepare_execution-Executes}
use recallops.Service.Sandbox.Verdict.{
  evaluate_observation_partition, listed, Recovers, evaluate_observation_iff,
}
use recallops.Result.{ok, err, workflow_error, sandbox_policy_error}
use recallops.Service.Sandbox.Executions.{collect, simulate, simulated}
use recallops.Service.Sandbox.Executions.Bound.{simulate-eq-ok}

abbrev thousandths : Floats ℕ
thousandths = record {
  lt = ltb;
  le = leb;
  zero = 0;
  half = λ x. x / 2;
  literal = λ units places. units;
  min = λ x y. if ltb y x then y else x;
}

abbrev observation : PostcheckObservation ℕ
observation = record {
  id = "o";
  execution_id = "x";
  incident_id = "i";
  tenant_id = "t";
  proposal_hash = "p";
  execution_digest = "d";
  source = "sandbox";
  observation_window_seconds = 60;
  before = baseline thousandths;
  after = remedied thousandths;
  observation_digest = "od";
  observed_at = 5;
}

remedy_recovers : (evaluate_observation thousandths 7 observation).classification ≡ recovered
unfolding evaluate_observation
remedy_recovers = refl

evaluate_observation_iff_example :
    ((evaluate_observation thousandths 7 observation).classification ≡ recovered
      ↔ Recovers thousandths 7 observation)
    × ((evaluate_observation thousandths 7 observation).classification ≢ inconclusive)
    × ((evaluate_observation thousandths 7 observation).observation_digest ≡ "od")
evaluate_observation_iff_example = evaluate_observation_iff thousandths 7 observation

evaluate_observation_partition_example :
    (latency errors saturation : Bool) × ((evaluate_observation thousandths 7
        observation).checks_passed
      ≡ listed latency "LATENCY_RECOVERY_THRESHOLD" (
          listed errors "ERROR_RATE_RECOVERY_THRESHOLD"
            (listed saturation "SATURATION_RECOVERY_THRESHOLD" [])))
    × ((evaluate_observation thousandths 7 observation).checks_failed
        ≡ listed (not latency) "LATENCY_RECOVERY_THRESHOLD" (
            listed
              (not errors)
              "ERROR_RATE_RECOVERY_THRESHOLD"
              (listed (not saturation) "SATURATION_RECOVERY_THRESHOLD" [])))
    × (latency ≡ true ↔ (210 ≤ 300) × (210 * 2 ≤ 1420))
    × (errors ≡ true
        ↔ (thousandths.le (remedied thousandths).error_rate (thousandths.literal 5 3) ≡ true)
          × (thousandths.le
                (remedied thousandths).error_rate
                (thousandths.half (baseline thousandths).error_rate)
              ≡ true))
    × (saturation ≡ true ↔ (3 ≤ 5) × (3 < 40))
evaluate_observation_partition_example = evaluate_observation_partition thousandths 7 observation

abbrev analysis : IncidentAnalysis
analysis = record {
  incident_id = "i";
  diagnosis = "saturation";
  proposed_action = record {
    name = "reduce";
    command = "reduce workers";
    risk = mutating;
    rationale = "recalled";
    requires_approval = true;
    action_hash = some "p";
  };
  created_at = 1;
}

abbrev store : Store ℕ
store = record {
  memories = [];
  analyses = Dict.put ("t", "i") analysis Dict.empty;
  idempotency = Dict.empty;
  incidents = Dict.empty;
  outcome_memories = Dict.empty;
  memory_events = [];
  approvals = Dict.empty;
  executions = Dict.empty;
  sandbox_executions = Dict.empty;
  postchecks = Dict.empty;
  postcheck_assessments = Dict.empty;
}

abbrev approval : ApprovalRequest
approval = record {
  tenant_id = "t";
  approved = true;
  actor_id = "alice";
  proposal_hash = "p";
  reason = "safe";
}

approved_first : (decide_approval 3 "i" store approval).0 ≡ ok true
unfolding decide_approval record_approval get_analysis Dict.contains Dict.get Dict.put Dict.empty
approved_first = refl

decide_approval-Approves_example : (a : IncidentAnalysis) × Approves 3 "i" store approval a
decide_approval-Approves_example = decide_approval-Approves 3 "i" store approval approved_first

bound : Approves 3 "i" store approval analysis
unfolding get_analysis get_approval Dict.get Dict.put Dict.empty
bound = record { analysed = refl; needed = refl; same_digest = refl; first = refl }

Approves-decide_approval_example :
    ((decide_approval 3 "i" store approval).0 ≡ ok true)
    × (get_approval "i" "t" (decide_approval 3 "i" store approval).1
        ≡ some (decision 3 "i" store approval))
Approves-decide_approval_example = Approves-decide_approval 3 "i" store approval analysis bound

-- The store once the approval is on record.
abbrev approved_store : Store ℕ
approved_store = record store {
  approvals = Dict.put ("t", "i") (decision 3 "i" store approval) Dict.empty;
}

abbrev execution : ExecutionAttestationRequest
execution = record {
  tenant_id = "t";
  actor_id = "alice";
  action_hash = "p";
  action_taken = "reduce workers";
  evidence_refs = "trace" ∷ [];
  evidence_verification = manual_attestation;
}

abbrev trusting : EvidenceVerification → List String → Bool
trusting v refs = not (is_empty refs)

prepared :
    prepare_execution 4 "i" approved_store trusting execution
    ≡ ok (some (attestation 4 "i" approved_store execution))
unfolding prepare_execution get_analysis get_approval Dict.get Dict.put Dict.empty
prepared = refl

-- Without the decision on record the execution is refused.
unapproved :
    prepare_execution 4 "i" store trusting execution
    ≡ err (workflow_error "approved decision required before execution")
unfolding prepare_execution get_analysis get_approval Dict.get Dict.put Dict.empty
unapproved = refl

prepare_execution-Executes_example :
    (a : IncidentAnalysis) × Executes 4 "i" approved_store trusting execution a
    × (attestation 4 "i" approved_store execution ≡ attestation 4 "i" approved_store execution)
prepare_execution-Executes_example =
    prepare_execution-Executes 4 "i" approved_store trusting execution
      (attestation 4 "i" approved_store execution) prepared

abbrev sandboxed : IncidentAnalysis
sandboxed = record analysis {
  proposed_action = record analysis.proposed_action { command = sandbox_action_command };
}

abbrev sandbox_request : SandboxExecutionRequest
sandbox_request = record {
  tenant_id = "t";
  actor_id = "alice";
  proposal_hash = "p";
  idempotency_key = "k";
}

abbrev no_digest : {A : Type 0} → A → String
no_digest x = "digest"

abbrev simulation : SandboxExecution ℕ
simulation = simulated thousandths "x" 4 no_digest "i" sandbox_request

simulates : simulate thousandths "x" 4 no_digest "i" sandboxed sandbox_request ≡ ok simulation
unfolding simulate simulated
simulates = refl

-- Another command is not simulated, and what is simulated recovers.
not_allowed :
    simulate thousandths "x" 4 no_digest "i" analysis sandbox_request
    ≡ err (sandbox_policy_error "proposed action is not in the sandbox allowlist")
unfolding simulate
not_allowed = refl

simulation_recovers :
    (evaluate_observation thousandths 7
      (collect thousandths "o" 5 no_digest simulation)).classification
    ≡ recovered
unfolding evaluate_observation collect simulated
simulation_recovers = refl

simulate-eq-ok_example :
    (sandboxed.proposed_action.action_hash ≡ some "p")
    × (simulation.proposal_hash ≡ "p")
    × (sandbox_action_command ≡ sandbox_action_command)
    × (simulation.tenant_id ≡ "t")
    × (simulation.actor_id ≡ "alice")
    × (simulation.incident_id ≡ "i")
    × (simulation.execution_digest ≡ "digest")
simulate-eq-ok_example =
    simulate-eq-ok thousandths "x" 4 no_digest "i" sandboxed sandbox_request simulation simulates
