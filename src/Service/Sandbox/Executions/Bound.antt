-- ===== src/Service/Sandbox/Executions/Bound.antt =====
-- What the sandbox simulates.
use recallops.Memory.Record.{Floats}
use recallops.Workflow.Snapshot.{Uuid, Time}
use recallops.Service.Sandbox.Executions.{
  ExecutionMaterial, is_unbound, simulate, simulated, execution_material,
}
use recallops.Common.{String, Option, ◌≡◌, false, some, arith, eq_iff, refl, none}
use recallops.Incident.{IncidentAnalysis, SandboxExecutionRequest, SandboxExecution}
use recallops.Result.{ok}
use recallops.Service.Sandbox.{sandbox_action_command}

module _ {F : Type 0} (fl : Floats F) (id : Uuid) (now : Time)
    (digest : ExecutionMaterial F → String) (incident_id : Uuid) (analysis : IncidentAnalysis)
    (request : SandboxExecutionRequest) where
  -- The digest of the action, named by the request.
  is_unbound-eq :
      (o : Option String)
      → is_unbound fl id now o request.proposal_hash ≡ false
      → o ≡ some request.proposal_hash
  unfolding is_unbound
  is_unbound-eq none held = cc
  is_unbound-eq (some action_hash) held = ground (arith, eq_iff request.proposal_hash action_hash)

  simulate-ok :
      (x : SandboxExecution F)
      → simulate fl id now digest incident_id analysis request ≡ ok x
      → (is_unbound fl id now analysis.proposed_action.action_hash request.proposal_hash ≡ false)
        × (analysis.proposed_action.command ≡ sandbox_action_command)
        × (x ≡ simulated fl id now digest incident_id request)
  unfolding simulate
  simulate-ok x done =
      ground (arith, eq_iff analysis.proposed_action.command sandbox_action_command)

  -- A request that the sandbox accepts names the digest of the analysed proposal, whose command is the one
  -- that is allowed, and the execution carries the request's digest, tenant, actor and incident, under the
  -- digest of its own material.
  pub simulate-eq-ok :
      (x : SandboxExecution F)
      → simulate fl id now digest incident_id analysis request ≡ ok x
      → (analysis.proposed_action.action_hash ≡ some request.proposal_hash)
        × (x.proposal_hash ≡ request.proposal_hash)
        × (analysis.proposed_action.command ≡ sandbox_action_command)
        × (x.tenant_id ≡ request.tenant_id)
        × (x.actor_id ≡ request.actor_id)
        × (x.incident_id ≡ incident_id)
        × (x.execution_digest ≡ digest (execution_material fl id now incident_id request))
  unfolding simulated
  simulate-eq-ok x done =
      let (free, command, same) = simulate-ok x done in
      let unbound = is_unbound-eq analysis.proposed_action.action_hash free in
      rw same (unbound, refl, command, refl, refl, refl, refl)
