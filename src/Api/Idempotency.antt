-- ===== src/Api/Idempotency.antt =====
-- `idempotent_webmcp_mutation` of src/recallops/api.py over the in-memory table of results. The operation
-- may raise and may change the service's and the coordinator's state, and its encoded response is a
-- parameter's value; the lock is held throughout.
pub mod Replay
use recallops.Dict
use recallops.Common.{pair_eq, string_eq}
use recallops.Dict.{Dict}
use recallops.Workflow.Snapshot.{Uuid}
use recallops.Common.{
  has_length, Option, String, some, if◌then◌else◌, none, pair_eq, string_eq, ◌!=◌,
}
use recallops.Result.{Result, err, http_error, ok, workflow_conflict}

-- The key of a result: the run, the route and the client's key.
abbrev pub Key : Type 0
Key = (Uuid × String) × String

abbrev pub Results : Type 0 → Type 0
Results A = Dict Key (String × A)

module _ {W A : Type 0} where
  -- The result is stored, unless the operation raised.
  remember : Key → String → Result A × W → Results A → Result A × W × Results A
  remember key request_digest (err e, w) results = (err e, w, results)
  remember key request_digest (ok a, w) results =
      (ok a, w, Dict.put key (request_digest, a) results)

  replay :
      Key
      → String
      → (W → Result A × W)
      → Option (String × A)
      → W
      → Results A
      → Result A × W × Results A
  unfolding remember
  replay key request_digest operation none w results =
      remember key request_digest (operation w) results
  replay key request_digest operation (some (digest, a)) w results =
      if digest != request_digest
      then (err (workflow_conflict "idempotency key is bound to different input"), w, results)
      else (ok a, w, results)

  unfoldable pub idempotent_mutation :
      Uuid
      → String
      → String
      → String
      → (W → Result A × W)
      → W
      → Results A
      → Result A × W × Results A
  unfolding replay
  idempotent_mutation run_id route key request_digest operation w results =
      replay ((run_id, route), key) request_digest operation
        (Dict.get ((run_id, route), key) results) w results

-- `require_idempotency_key`
pub require_idempotency_key : Option String → Result String
unfolding has_length
require_idempotency_key none = err (http_error 428 "Idempotency-Key required")
require_idempotency_key (some value) =
    if has_length 16 200 value then ok value else err (http_error 428 "Idempotency-Key required")
