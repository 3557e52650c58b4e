-- ===== src/Api/Tests.antt =====
-- Runs of the endpoints.
mod Review
use recallops.Dict
use recallops.Common.{ℕ, ◌≡◌, if◌then◌else◌, ◌!=◌, ◌+◌, refl, String, string_eq, ◌∷◌, []}
use recallops.Api.Idempotency.{Results, idempotent_mutation}
use recallops.Result.{Result, ok, err, workflow_conflict}
use recallops.Api.Idempotency.Replay.{idempotent_mutation_once, Mutation, mutate_all, mutate}

-- An operation that counts its runs and answers with the count.
abbrev counting : ℕ → Result ℕ × ℕ
counting n = (ok (n + 1), n + 1)

abbrev no_results : Results ℕ
no_results = Dict.empty

first_mutation : (idempotent_mutation "r" "proposal" "key" "digest" counting 0 no_results).0 ≡ ok 1
unfolding idempotent_mutation Dict.get Dict.put Dict.empty
first_mutation = refl

abbrev first : Mutation ℕ ℕ
first = record {
  run_id = "r";
  route = "proposal";
  key = "key";
  request_digest = "digest";
  operation = counting;
}

-- Another client's mutation, on the same route.
abbrev other : Mutation ℕ ℕ
other = record first { key = "other" }

idempotent_mutation_once_example :
    idempotent_mutation "r" "proposal" "key" "digest" counting 7
      (mutate_all (other ∷ []) 1 (mutate first 0 no_results).2)
    ≡ (let results' = mutate_all (other ∷ []) 1 (mutate first 0 no_results).2 in
        if ◌!=◌ {A = String} "digest" "digest"
        then (err (workflow_conflict "idempotency key is bound to different input"), 7, results')
        else (ok 1, 7, results'))
idempotent_mutation_once_example =
    idempotent_mutation_once first (other ∷ []) counting "digest" 0 1 7 no_results 1 first_mutation
