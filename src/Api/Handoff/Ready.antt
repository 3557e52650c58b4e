-- ===== src/Api/Handoff/Ready.antt =====
-- When evidence is ready for a review: `review_target` of src/recallops/api.py.
use recallops.Dict
use recallops.Common.{
  String, Option, ◌≡◌, none, some, true, false, arith, eq_iff, refl, ◌≢◌, ◌<◌, ◌==◌, ◌&&◌,
  string_eq, Bool-cases, inl, inr, pair_eq, ◌!=◌,
}
use recallops.Workflow.InMemory.{Workflows, get}
use recallops.Workflow.States.{WorkflowState, state_beq_iff, state_eq}
use recallops.Domain.{MemoryState, memory_state_beq_iff, memory_state_eq}
use recallops.Workflow.Snapshot.{Time, WorkflowSnapshot}
use recallops.Api.Handoff.{review_target, reviewable, in_state, expected_states, lapsed, past}
use recallops.Memory.Store.{Store}
use recallops.Memory.Record.{Memory}
use recallops.Sessions.{JudgeRun}
use recallops.Result.{ok}

-- The workflow of the run's incident is active, and its state and that of the incident's memory are the
-- ones for the purpose; a memory whose reuse is to be revoked is still in use.
pub record Ready {F : Type 0} (now : Time) (run : JudgeRun) (purpose : String)
    (workflows : Workflows) (store : Store F) (m : Memory F) : Type 0 where
  pub snapshot : WorkflowSnapshot
  pub stored_workflow : get run.source_incident_id run.tenant_id workflows ≡ some snapshot
  pub active : snapshot.active ≡ true
  pub stored_memory :
      Dict.get (run.tenant_id, run.source_incident_id) store.outcome_memories ≡ some m
  pub initial :
      purpose ≡ "initial_review"
      → (snapshot.state ≡ WorkflowState.pending_review) × (m.state ≡ MemoryState.pending_review)
  pub later :
      purpose ≢ "initial_review"
      → (snapshot.state ≡ WorkflowState.reviewed) × (m.state ≡ MemoryState.active)
  pub in_use :
      purpose ≡ "revocation"
      → (m.valid ≡ true)
        × ((t : Time) → m.expires_at ≡ some t → now < t)
        × (m.superseded_at ≡ none)
        × (m.revoked_at ≡ none)

not_past : (now : Time) (o : Option Time) (t : Time) → past now o ≡ false → o ≡ some t → now < t
unfolding past
not_past now none t fresh is = cc
not_past now (some x) t fresh is = ground arith

in_state-found :
    (expected : WorkflowState) (o : Option WorkflowSnapshot)
    → in_state expected o ≡ true
    → (snapshot : WorkflowSnapshot) × (o ≡ some snapshot)
      × (snapshot.active ≡ true)
      × (snapshot.state ≡ expected)
unfolding in_state
in_state-found expected none held = cc
in_state-found expected (some x) held =
    (x, refl, ground arith, ground (arith, state_beq_iff x.state expected))

initial_states :
    (purpose : String)
    → purpose ≡ "initial_review"
    → expected_states purpose ≡ (WorkflowState.pending_review, MemoryState.pending_review)
unfolding expected_states
initial_states purpose is = ground (arith, eq_iff purpose "initial_review")

later_states :
    (purpose : String)
    → purpose ≢ "initial_review"
    → expected_states purpose ≡ (WorkflowState.reviewed, MemoryState.active)
unfolding expected_states
later_states purpose is = ground (arith, eq_iff purpose "initial_review")

module _ {F : Type 0} (now : Time) (purpose : String) where
  reviewable-ok :
      (o : Option (Memory F)) (m : Memory F)
      → reviewable now purpose o ≡ ok m
      → (o ≡ some m)
        × (m.state ≡ (expected_states purpose).1)
        × ((purpose == "revocation" && lapsed now m) ≡ false)
  unfolding reviewable
  reviewable-ok none m done = cc
  reviewable-ok (some x) m done = elim (Bool-cases (x.state != (expected_states purpose).1)) [
    | inl other ↦ absurd (ground arith)
    | inr exact ↦ elim (Bool-cases (purpose == "revocation" && lapsed now x)) [
      | inl over ↦ absurd (ground arith)
      | inr free ↦
          let same : x ≡ m = ground arith in
          rw (← same)
            ((refl, ground (arith, memory_state_beq_iff x.state (expected_states purpose).1), free))
    ]
  ]

  in_use-free :
      (m : Memory F)
      → (purpose == "revocation" && lapsed now m) ≡ false
      → purpose ≡ "revocation"
      → (m.valid ≡ true)
        × ((t : Time) → m.expires_at ≡ some t → now < t)
        × (m.superseded_at ≡ none)
        × (m.revoked_at ≡ none)
  unfolding lapsed
  in_use-free m free is =
      let revoking : (purpose == "revocation") ≡ true = (eq_iff purpose "revocation").1 is in
      (
        ground arith,
        (λ t expires. not_past now m.expires_at t (ground arith) expires),
        ground arith,
        ground arith,
      )

  pub review_target-Ready :
      (run : JudgeRun) (workflows : Workflows) (store : Store F) (m : Memory F)
      → review_target now run purpose workflows store ≡ ok m
      → Ready now run purpose workflows store m
  unfolding review_target
  review_target-Ready run workflows store m done =
      let o = get run.source_incident_id run.tenant_id workflows in
      elim (Bool-cases (in_state (expected_states purpose).0 o)) [
        | inr idle ↦ absurd (ground arith)
        | inl held ↦
            let (snapshot, found, on, state) = in_state-found (expected_states purpose).0 o held in
            let (stored, memory_state, free) =
              reviewable-ok
                (Dict.get (run.tenant_id, run.source_incident_id) store.outcome_memories) m
                (ground arith) in
            record {
              snapshot = snapshot;
              stored_workflow = found;
              active = on;
              stored_memory = stored;
              initial = λ is. (
                cc (state, initial_states purpose is),
                cc (memory_state, initial_states purpose is),
              );
              later = λ is.
                  (cc (state, later_states purpose is), cc (memory_state, later_states purpose is));
              in_use = in_use-free m free;
            }
      ]
