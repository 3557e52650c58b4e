-- ===== src/Service/Sandbox/Executions.antt =====
-- `CheckoutSandbox.prepare_execution` and `DeterministicObservationProvider.collect` of
-- src/recallops/sandbox.py. `_digest`, SHA-256 of key-sorted JSON, is a parameter on the material that it is
-- given; the new record's id and time are arguments.
pub mod Bound
use recallops.Workflow.Snapshot.{Uuid, Time}
use recallops.Common.{String, ℕ, Option, Bool, if◌then◌else◌, true, some, ◌!=◌, none, string_eq}
use recallops.Memory.Record.{Floats}
use recallops.Incident.{
  SandboxMetrics, IncidentAnalysis, SandboxExecution, SandboxExecutionRequest, PostcheckObservation,
}
use recallops.Service.Sandbox.{baseline, remedied, sandbox_action_command}
use recallops.Result.{Result, err, sandbox_policy_error, ok}

-- The keys of `prepare_execution`'s material that vary, and its metrics.
pub record ExecutionMaterial (F : Type 0) : Type 0 where
  pub incident_id : Uuid
  pub tenant_id : String
  pub proposal_hash : String
  pub action_id : String
  pub simulator_version : String
  pub idempotency_key : String
  pub before : SandboxMetrics F
  pub after : SandboxMetrics F

pub record ObservationMaterial (F : Type 0) : Type 0 where
  pub execution_id : Uuid
  pub incident_id : Uuid
  pub tenant_id : String
  pub proposal_hash : String
  pub execution_digest : String
  pub source : String
  pub observation_window_seconds : ℕ
  pub before : SandboxMetrics F
  pub after : SandboxMetrics F

abbrev pub sandbox_action_id : String
sandbox_action_id = "checkout.reduce_concurrency_and_recycle.v1"

abbrev pub simulator_version : String
simulator_version = "checkout-simulator-v1"

abbrev pub observation_source : String
observation_source = "checkout-simulator-telemetry-v1"

module _ {F : Type 0} (fl : Floats F) (id : Uuid) (now : Time) where
  abbrev pub execution_material : Uuid → SandboxExecutionRequest → ExecutionMaterial F
  execution_material incident_id request = record {
    incident_id = incident_id;
    tenant_id = request.tenant_id;
    proposal_hash = request.proposal_hash;
    action_id = sandbox_action_id;
    simulator_version = simulator_version;
    idempotency_key = request.idempotency_key;
    before = baseline fl;
    after = remedied fl;
  }

  -- The record that is returned once the request has passed the tests.
  unfoldable pub simulated :
      (ExecutionMaterial F → String) → Uuid → SandboxExecutionRequest → SandboxExecution F
  simulated digest incident_id request = record {
    id = id;
    incident_id = incident_id;
    tenant_id = request.tenant_id;
    actor_id = request.actor_id;
    proposal_hash = request.proposal_hash;
    action_id = sandbox_action_id;
    simulator_version = simulator_version;
    idempotency_key = request.idempotency_key;
    before = baseline fl;
    after = remedied fl;
    execution_digest = digest (execution_material incident_id request);
    created_at = now;
  }

  -- `action_hash is None or proposal_hash != action_hash`
  pub is_unbound : Option String → String → Bool
  is_unbound none proposal_hash = true
  is_unbound (some action_hash) proposal_hash = proposal_hash != action_hash

  unfoldable pub simulate :
      (ExecutionMaterial F → String)
      → Uuid
      → IncidentAnalysis
      → SandboxExecutionRequest
      → Result (SandboxExecution F)
  unfolding is_unbound
  simulate digest incident_id analysis request =
      if is_unbound analysis.proposed_action.action_hash request.proposal_hash
      then err (sandbox_policy_error "sandbox request is not bound to the proposed action")
      else if analysis.proposed_action.command != sandbox_action_command
      then err (sandbox_policy_error "proposed action is not in the sandbox allowlist")
      else ok (simulated digest incident_id request)

  unfoldable pub collect :
      (ObservationMaterial F → String) → SandboxExecution F → PostcheckObservation F
  collect digest execution = record {
    id = id;
    execution_id = execution.id;
    incident_id = execution.incident_id;
    tenant_id = execution.tenant_id;
    proposal_hash = execution.proposal_hash;
    execution_digest = execution.execution_digest;
    source = observation_source;
    observation_window_seconds = 300;
    before = execution.before;
    after = execution.after;
    observation_digest = digest (record {
      execution_id = execution.id;
      incident_id = execution.incident_id;
      tenant_id = execution.tenant_id;
      proposal_hash = execution.proposal_hash;
      execution_digest = execution.execution_digest;
      source = observation_source;
      observation_window_seconds = 300;
      before = execution.before;
      after = execution.after;
    });
    observed_at = now;
  }
