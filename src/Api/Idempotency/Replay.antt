-- ===== src/Api/Idempotency/Replay.antt =====
-- A mutation is carried out once for its key.
use recallops.Dict
use recallops.Common.{
  pair_eq, string_eq, String, Option, ◌≡◌, if◌then◌else◌, some, ◌!=◌, none, refl, Bool-cases, ◌∙◌,
  ap, inl, arith, inr, eq_iff, List, ◌≢◌, sym, ◌∷◌, [],
}
use recallops.Workflow.Snapshot.{Uuid}
use recallops.Api.Idempotency.{idempotent_mutation, replay, Results, remember, Key}
use recallops.Result.{Result, ok, err, workflow_conflict, ok-injective}

none-ne_some : {A : Type 0} {a : A} → none ≢ some a
none-ne_some same = cc

module _ {W A : Type 0} (entry : Key) (request_digest : String) where
  remember-stored :
      (o : Result A) (w : W) (results : Results A) (a : A)
      → (remember entry request_digest (o, w) results).0 ≡ ok a
      → Dict.get entry (remember entry request_digest (o, w) results).2 ≡ some (request_digest, a)
  unfolding remember
  remember-stored (err e) w results a done = cc
  remember-stored (ok b) w results a done =
      Dict.get-put_self entry (request_digest, b) results
      ∙ ap (λ x. some (request_digest, x)) (ok-injective done)

  replay-stored :
      (operation : W → Result A × W) (o : Option (String × A)) (w : W) (results : Results A) (a : A)
      → Dict.get entry results ≡ o
      → (replay entry request_digest operation o w results).0 ≡ ok a
      → Dict.get entry (replay entry request_digest operation o w results).2
        ≡ some (request_digest, a)
  unfolding replay
  replay-stored operation none w results a found done =
      remember-stored (operation w).0 (operation w).1 results a done
  replay-stored operation (some (digest, b)) w results a found done =
      elim (Bool-cases (digest != request_digest)) [
        | inl differ ↦ absurd (ground arith)
        | inr alike ↦ rw alike (found ∙ ground (arith, eq_iff digest request_digest))
      ]

-- A mutation that a client asks for.
pub record Mutation (W A : Type 0) : Type 0 where
  pub run_id : Uuid
  pub route : String
  pub key : String
  pub request_digest : String
  pub operation : W → Result A × W

module _ {W A : Type 0} where
  abbrev pub mutate : Mutation W A → W → Results A → Result A × W × Results A
  mutate c = idempotent_mutation c.run_id c.route c.key c.request_digest c.operation

  -- One mutation after the other, each in the state and on the table that the one before left.
  abbrev pub mutate_all : List (Mutation W A) → W → Results A → Results A
  mutate_all [] w results = results
  mutate_all (c ∷ cs) w results =
      let (o, w', results') = mutate c w results in mutate_all cs w' results'

  module _ (entry : Key) (stored : String × A) where
    -- Another entry's result is stored beside it.
    remember-keeps :
        (other : Key) (request_digest : String) (o : Result A) (w : W) (results : Results A)
        → Dict.get other results ≡ none
        → Dict.get entry results ≡ some stored
        → Dict.get entry (remember other request_digest (o, w) results).2 ≡ some stored
    unfolding remember
    remember-keeps other request_digest (err e) w results free kept = kept
    remember-keeps other request_digest (ok a) w results free kept =
        Dict.get-put_ne other entry (request_digest, a) results differ ∙ kept
      where
        differ : other ≢ entry
        differ same = none-ne_some (sym free ∙ ap (λ k. Dict.get k results) same ∙ kept)

    replay-keeps :
        (other : Key) (request_digest : String) (operation : W → Result A × W)
        (o : Option (String × A)) (w : W) (results : Results A)
        → Dict.get other results ≡ o
        → Dict.get entry results ≡ some stored
        → Dict.get entry (replay other request_digest operation o w results).2 ≡ some stored
    unfolding replay
    replay-keeps other request_digest operation none w results free kept =
        remember-keeps other request_digest (operation w).0 (operation w).1 results free kept
    replay-keeps other request_digest operation (some (digest, b)) w results found kept =
        elim (Bool-cases (digest != request_digest)) [
          | inl differ ↦ rw differ kept
          | inr alike ↦ rw alike kept
        ]

    mutate_all-keeps :
        (cs : List (Mutation W A)) (w : W) (results : Results A)
        → Dict.get entry results ≡ some stored
        → Dict.get entry (mutate_all cs w results) ≡ some stored
    unfolding idempotent_mutation
    mutate_all-keeps [] w results kept = kept
    mutate_all-keeps (c ∷ cs) w results kept =
        let other : Key = ((c.run_id, c.route), c.key) in
        mutate_all-keeps cs (mutate c w results).1 (mutate c w results).2 (
          replay-keeps other c.request_digest c.operation (Dict.get other results) w results refl
            kept)

  -- A mutation that succeeded is carried out once: whatever mutations follow it, of any run, route and key,
  -- whatever the operation and whatever state the service is in by then, its key gets the first response
  -- for the same request, and a conflict for another one, and neither the state nor the table changes.
  pub idempotent_mutation_once :
      (c : Mutation W A) (between : List (Mutation W A)) (again : W → Result A × W)
      (digest : String) (w between_w w' : W) (results : Results A) (a : A)
      → (mutate c w results).0 ≡ ok a
      → idempotent_mutation c.run_id c.route c.key digest again w'
          (mutate_all between between_w (mutate c w results).2)
        ≡ (let results' = mutate_all between between_w (mutate c w results).2 in
            if c.request_digest != digest
            then (
              err (workflow_conflict "idempotency key is bound to different input"),
              w',
              results',
            )
            else (ok a, w', results'))
  unfolding idempotent_mutation replay
  idempotent_mutation_once c between again digest w between_w w' results a done =
      let entry : Key = ((c.run_id, c.route), c.key) in
      ap (λ o. replay entry digest again o w' (mutate_all between between_w (mutate c w results).2))
        (mutate_all-keeps entry (c.request_digest, a) between between_w (mutate c w results).2
          (replay-stored entry c.request_digest c.operation (Dict.get entry results) w results a
            refl done))
