-- ===== src/Sessions/Handoffs.antt =====
-- A review handoff is used at most once, and only while its run is open.
use recallops.Dict
use recallops.Workflow.Snapshot.{Time, Uuid}
use recallops.Common.{
  String, ◌≡◌, arith, some, none, true, ◌<◌, string_eq, Option, Bool-cases, eq_iff, inl, refl, inr,
}
use recallops.Sessions.{
  Sessions, consume_handoff, get_run, JudgeRun, ReviewHandoff, is_active, active, consume_found,
  redeem, is_open, save_handoff, get_handoff,
}
use recallops.Dict.{get-put_self}
use recallops.Result.{ok}

module _ (now : Time) (run_id : Uuid) (s : Sessions) where
  -- Reading a run writes nothing but the run.
  pub get_run-keeps : ((get_run now run_id s).1.handoffs ≡ s.handoffs)
  unfolding get_run
  get_run-keeps = ground arith

  pub get_run-found :
      (run : JudgeRun)
      → (get_run now run_id s).0 ≡ some run
      → is_active run ≡ true
      → (Dict.get run_id s.runs ≡ some run) × (now < run.expires_at)
  unfolding get_run
  get_run-found run found on = ground arith

-- When a handoff may be redeemed: it is unconsumed, unrevoked and unexpired, and its run is stored,
-- active, unexpired and of its tenant.
pub record Redeems (now : Time) (s : Sessions) (before : ReviewHandoff) (run : JudgeRun)
    : Type 0 where
  pub unconsumed : before.consumed_at ≡ none
  pub unrevoked : before.revoked_at ≡ none
  pub unexpired : now < before.expires_at
  pub run_stored : Dict.get before.run_id s.runs ≡ some run
  pub run_active : run.status ≡ active
  pub run_unexpired : now < run.expires_at
  pub same_tenant : run.tenant_id ≡ before.tenant_id

module _ (now : Time) (code_hash : String) where
  redeem_sound :
      (before : ReviewHandoff) (o : Option JudgeRun) (s : Sessions) (h : ReviewHandoff)
      → (redeem now code_hash before o s).0 ≡ some h
      → (run : JudgeRun) × (o ≡ some run)
        × (is_active run ≡ true)
        × (run.tenant_id ≡ before.tenant_id)
        × (h ≡ record before { consumed_at = some now })
        × (Dict.get code_hash (redeem now code_hash before o s).1.handoffs ≡ some h)
  unfolding redeem
  redeem_sound before none s h done = cc
  redeem_sound before (some run) s h done = (
    run,
    refl,
    ground arith,
    ground (arith, eq_iff run.tenant_id before.tenant_id),
    ground arith,
    ground (arith, get-put_self code_hash (record before { consumed_at = some now }) s.handoffs),
  )

  consume_found_sound :
      (o : Option ReviewHandoff) (s : Sessions) (h : ReviewHandoff)
      → (consume_found now code_hash o s).0 ≡ some h
      → (before : ReviewHandoff) × (run : JudgeRun) × (o ≡ some before)
        × Redeems now s before run
        × (h ≡ record before { consumed_at = some now })
        × (Dict.get code_hash (consume_found now code_hash o s).1.handoffs ≡ some h)
  unfolding consume_found
  consume_found_sound none s h done = cc
  consume_found_sound (some before) s h done = elim (Bool-cases (is_open now before)) [
    | inl open_handoff ↦
        let found = get_run now before.run_id s in
        let (run, read, on, tenant, marked, kept) =
          redeem_sound before found.0 found.1 h (rw open_handoff at done) in
        let (stored, unexpired) = get_run-found now before.run_id s run read on in
        (
          before,
          run,
          refl,
          record {
            unconsumed = ground arith;
            unrevoked = ground arith;
            unexpired = ground arith;
            run_stored = stored;
            run_active = ground arith;
            run_unexpired = unexpired;
            same_tenant = tenant;
          },
          marked,
          rw open_handoff kept,
        )
    | inr closed ↦ absurd (ground arith)
  ]

  -- A consumed handoff was one that may be redeemed, and the stored handoff is then the returned
  -- one: what was stored, marked with the time.
  pub consume_handoff_sound :
      (s : Sessions) (h : ReviewHandoff)
      → (consume_handoff now code_hash s).0 ≡ some h
      → (before : ReviewHandoff) × (run : JudgeRun) × (Dict.get code_hash s.handoffs ≡ some before)
        × Redeems now s before run
        × (h ≡ record before { consumed_at = some now })
        × (Dict.get code_hash (consume_handoff now code_hash s).1.handoffs ≡ some h)
  unfolding consume_handoff
  consume_handoff_sound s h done = consume_found_sound (Dict.get code_hash s.handoffs) s h done

-- A handoff that is saved is new, and is found under its hash.
pub save_handoff-get :
    (h : ReviewHandoff) (s : Sessions) {u : Unit {0}}
    → (save_handoff h s).0 ≡ ok u
    → (get_handoff h.code_hash s ≡ none) × (get_handoff h.code_hash (save_handoff h s).1 ≡ some h)
unfolding save_handoff get_handoff Dict.contains
save_handoff-get h s done = (ground arith, ground (arith, get-put_self h.code_hash h s.handoffs))
