-- ===== src/Service/Sandbox.antt =====
-- `CheckoutSandbox`, `DeterministicObservationProvider` and `evaluate_observation` of
-- src/recallops/sandbox.py.
pub mod Verdict
pub mod Executions
use recallops.Common.{
  String, Bool, List, leb, ◌&&◌, if◌then◌else◌, ltb, ◌*◌, ◌∷◌, [], is_empty, xnor, false, true,
}
use recallops.Memory.Record.{Floats}
use recallops.Incident.{PostcheckObservation, SandboxMetrics, PolicyVerdict}
use recallops.Workflow.Snapshot.{Time}
use recallops.Domain.{recovered, not_recovered}

abbrev pub sandbox_action_command : String
sandbox_action_command = "reduce worker concurrency to 24 and recycle saturated connections"

module _ {F : Type 0} (fl : Floats F) where
  abbrev pub baseline : SandboxMetrics F
  baseline = record {
    worker_concurrency = 64;
    saturated_connections = 40;
    latency_p95_ms = 1420;
    error_rate = fl.literal 31 3;
  }

  abbrev pub remedied : SandboxMetrics F
  remedied = record {
    worker_concurrency = 24;
    saturated_connections = 3;
    latency_p95_ms = 210;
    error_rate = fl.literal 4 3;
  }

  -- `evaluate_observation`'s checks. `before * 0.5` of a latency is exact, so the test is on twice
  -- the later latency.
  pub latency_check : PostcheckObservation F → Bool
  latency_check o =
      leb o.after.latency_p95_ms 300 && leb (o.after.latency_p95_ms * 2) o.before.latency_p95_ms

  pub error_check : PostcheckObservation F → Bool
  error_check o =
      fl.le o.after.error_rate (fl.literal 5 3)
      && fl.le o.after.error_rate (fl.half o.before.error_rate)

  pub saturation_check : PostcheckObservation F → Bool
  saturation_check o =
      leb o.after.saturated_connections 5
      && ltb o.after.saturated_connections o.before.saturated_connections

  pub checks : PostcheckObservation F → List (String × Bool)
  unfolding latency_check error_check saturation_check
  checks o =
      ("LATENCY_RECOVERY_THRESHOLD", latency_check o)
      ∷ ("ERROR_RATE_RECOVERY_THRESHOLD", error_check o)
      ∷ ("SATURATION_RECOVERY_THRESHOLD", saturation_check o)
      ∷ []

  -- The names of the checks with one result.
  named : Bool → List (String × Bool) → List String
  named result [] = []
  named result ((name, r) ∷ rest) =
      let names = named result rest in if xnor r result then name ∷ names else names

  unfoldable pub evaluate_observation : Time → PostcheckObservation F → PolicyVerdict
  unfolding checks named
  evaluate_observation now o = record {
    classification = if is_empty (named false (checks o)) then recovered else not_recovered;
    policy_version = "checkout-recovery-policy-v1";
    checks_passed = named true (checks o);
    checks_failed = named false (checks o);
    observation_digest = o.observation_digest;
    computed_at = now;
  }
