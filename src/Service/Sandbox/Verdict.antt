-- ===== src/Service/Sandbox/Verdict.antt =====
-- What a policy verdict says of the observation.
use recallops.Memory.Record.{Floats}
use recallops.Workflow.Snapshot.{Time}
use recallops.Incident.{PostcheckObservation}
use recallops.Common.{
  Bool, String, List, ◌∷◌, [], false, not, ◌≤◌, ◌*◌, ◌≡◌, true, arith, ◌<◌, ◌↔◌, ◌≢◌, refl,
}
use recallops.Service.Sandbox.{evaluate_observation, latency_check, error_check, saturation_check}
use recallops.Domain.{recovered, inconclusive}

-- A name that is listed only if its check came out so.
abbrev pub listed : Bool → String → List String → List String
listed true name names = name ∷ names
listed false name names = names

module _ {F : Type 0} (fl : Floats F) (now : Time) (o : PostcheckObservation F) where
  -- The recovery thresholds, written out.
  pub record Recovers : Type 0 where
    pub latency : o.after.latency_p95_ms ≤ 300
    pub latency_halved : o.after.latency_p95_ms * 2 ≤ o.before.latency_p95_ms
    pub errors : fl.le o.after.error_rate (fl.literal 5 3) ≡ true
    pub errors_halved : fl.le o.after.error_rate (fl.half o.before.error_rate) ≡ true
    pub saturation : o.after.saturated_connections ≤ 5
    pub saturation_fell : o.after.saturated_connections < o.before.saturated_connections

  -- The verdict is `RECOVERED` exactly if every threshold is met, and `NOT_RECOVERED` otherwise,
  -- never inconclusive; it is bound to the digest of the observation.
  pub evaluate_observation_iff :
      ((evaluate_observation fl now o).classification ≡ recovered ↔ Recovers)
      × ((evaluate_observation fl now o).classification ≢ inconclusive)
      × ((evaluate_observation fl now o).observation_digest ≡ o.observation_digest)
  unfolding evaluate_observation
  evaluate_observation_iff = ((ground arith, back), (λ e. ground arith), refl)
    where
      back : Recovers → (evaluate_observation fl now o).classification ≡ recovered
      back r =
          let latency = r.latency in
          let latency_halved = r.latency_halved in
          let errors = r.errors in
          let errors_halved = r.errors_halved in
          let saturation = r.saturation in let saturation_fell = r.saturation_fell in ground arith

  -- The checks that passed are, in their order, those whose thresholds are met: the latency, the errors and
  -- the saturation, each named by its own threshold; and the checks that failed are, in the same order, those
  -- whose thresholds are not met.
  pub evaluate_observation_partition :
      (latency errors saturation : Bool) × ((evaluate_observation fl now o).checks_passed
        ≡ listed latency "LATENCY_RECOVERY_THRESHOLD" (
            listed errors "ERROR_RATE_RECOVERY_THRESHOLD"
              (listed saturation "SATURATION_RECOVERY_THRESHOLD" [])))
      × ((evaluate_observation fl now o).checks_failed
          ≡ listed (not latency) "LATENCY_RECOVERY_THRESHOLD" (
              listed
                (not errors)
                "ERROR_RATE_RECOVERY_THRESHOLD"
                (listed (not saturation) "SATURATION_RECOVERY_THRESHOLD" [])))
      × (latency ≡ true
          ↔ (o.after.latency_p95_ms ≤ 300) × (o.after.latency_p95_ms * 2 ≤ o.before.latency_p95_ms))
      × (errors ≡ true
          ↔ (fl.le o.after.error_rate (fl.literal 5 3) ≡ true)
            × (fl.le o.after.error_rate (fl.half o.before.error_rate) ≡ true))
      × (saturation ≡ true
          ↔ (o.after.saturated_connections ≤ 5)
            × (o.after.saturated_connections < o.before.saturated_connections))
  unfolding evaluate_observation
  evaluate_observation_partition = (
    latency_check fl o,
    error_check fl o,
    saturation_check fl o,
    ground arith,
    ground arith,
    ((ground arith), (λ met. ground (arith, met.0, met.1))),
    ((ground arith), (λ met. ground (arith, met.0, met.1))),
    ((ground arith), (λ met. ground (arith, met.0, met.1))),
  )
