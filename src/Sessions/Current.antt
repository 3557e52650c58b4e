-- ===== src/Sessions/Current.antt =====
-- When a run is current: src/recallops/sessions.py.
use recallops.Dict
use recallops.Workflow.Snapshot.{Time, Uuid}
use recallops.Sessions.{
  is_open, Sessions, run_is_current, get_run, JudgeRun, active, is_active, get, save, JudgeSession,
  consume_found, consume_handoff, redeem, ReviewHandoff, get_handoff,
}
use recallops.Common.{
  String, ℕ, Option, ◌≡◌, some, true, ◌<◌, arith, ◌&&◌, eq_iff, leb, false, nat_eq, string_eq, none,
  refl, some-eq, ap, ◌∙◌, Bool-cases, inr, inl,
}
use recallops.Sessions.Handoffs.{get_run-found, Redeems, consume_handoff_sound}

module _ (now : Time) (s : Sessions) where
  -- A run that is current is stored, active, unexpired and as asked for.
  pub run_is_current-found :
      (run_id : Uuid) (tenant_id : String) (generation : ℕ) (o : Option JudgeRun)
      → (get_run now run_id s).0 ≡ o
      → (run_is_current now run_id tenant_id generation s).0 ≡ true
      → (run : JudgeRun) × (o ≡ some run)
        × (Dict.get run_id s.runs ≡ some run)
        × (run.status ≡ active)
        × (run.tenant_id ≡ tenant_id)
        × (run.generation ≡ generation)
        × (now < run.expires_at)
  unfolding run_is_current
  run_is_current-found run_id tenant_id generation none found current = ground arith
  run_is_current-found run_id tenant_id generation (some run) found current = (
    run,
    refl,
    (get_run-found now run_id s run found (ground arith)).0,
    ground arith,
    ground (arith, eq_iff run.tenant_id tenant_id),
    ground (arith, nat_eq.beq_iff run.generation generation),
    ground arith,
  )

  -- And the other way.
  pub run_is_current-holds :
      (run_id : Uuid) (tenant_id : String) (generation : ℕ) (run : JudgeRun)
      → Dict.get run_id s.runs ≡ some run
      → run.status ≡ active
      → run.tenant_id ≡ tenant_id
      → run.generation ≡ generation
      → now < run.expires_at
      → (run_is_current now run_id tenant_id generation s).0 ≡ true
  unfolding run_is_current get_run
  run_is_current-holds run_id tenant_id generation run stored on tenant numbered live =
      let open_run : (is_active run && leb run.expires_at now) ≡ false = ground arith in
      rw (run_is_current, get_run, stored)
        (rw open_run (
          ground (arith, eq_iff run.tenant_id tenant_id, nat_eq.beq_iff run.generation generation)))

-- A saved session is found under its hash, and saving it writes no run.
pub get-save :
    (session : JudgeSession) (s : Sessions)
    → (get session.session_hash (save session s) ≡ some session) × ((save session s).runs ≡ s.runs)
unfolding get save
get-save session s = (Dict.get-put_self session.session_hash session s.sessions, refl)

-- Reading a run writes no session.
pub get_run-get :
    (now : Time) (run_id : Uuid) (s : Sessions) (k : String)
    → get k (get_run now run_id s).1 ≡ get k s
unfolding get_run get
get_run-get now run_id s k = ground arith

module _ (now : Time) where
  redeem-runs :
      (c : String) (before : ReviewHandoff) (o : Option JudgeRun) (s : Sessions)
      → (redeem now c before o s).1.runs ≡ s.runs
  unfolding redeem
  redeem-runs c before none s = refl
  redeem-runs c before (some run) s = ground arith

  -- Reading an open run changes nothing.
  get_run-open :
      (run_id : Uuid) (run : JudgeRun) (s : Sessions)
      → Dict.get run_id s.runs ≡ some run
      → run.status ≡ active
      → now < run.expires_at
      → get_run now run_id s ≡ (some run, s)
  unfolding get_run
  get_run-open run_id run s stored on live =
      let open_run : (is_active run && leb run.expires_at now) ≡ false = ground arith in
      rw (get_run, stored) (rw open_run refl)

  consume_found-runs :
      (c : String) (o : Option ReviewHandoff) (before : ReviewHandoff) (run : JudgeRun)
      (s : Sessions)
      → o ≡ some before
      → Redeems now s before run
      → (consume_found now c o s).1.runs ≡ s.runs
  unfolding consume_found
  consume_found-runs c none before run s found redeems = refl
  consume_found-runs c (some h) before run s found redeems =
      let same = some-eq found in
      let read =
        get_run-open before.run_id run s redeems.run_stored redeems.run_active
          redeems.run_unexpired in
      let whole : get_run now h.run_id s ≡ (some run, s) =
        ap (λ (x : ReviewHandoff). get_run now x.run_id s) same ∙ read in
      elim (Bool-cases (is_open now h)) [
        | inr closed ↦ rw closed refl
        | inl on ↦ rw on (
            redeem-runs c h (get_run now h.run_id s).0 (get_run now h.run_id s).1
            ∙ ap (λ (o : Option JudgeRun × Sessions). o.1.runs) whole)
      ]

  -- What is redeemed leaves its run as it was, to be read again.
  pub consume_handoff-run :
      (c : String) (s : Sessions) (h : ReviewHandoff)
      → (consume_handoff now c s).0 ≡ some h
      → (before : ReviewHandoff) × (run : JudgeRun) × (get_handoff c s ≡ some before)
        × Redeems now s before run
        × (h ≡ record before { consumed_at = some now })
        × ((get_run now h.run_id (consume_handoff now c s).1).0 ≡ some run)
  unfolding consume_handoff get_handoff
  consume_handoff-run c s h done =
      let (before, run, stored, redeems, marked, kept) = consume_handoff_sound now c s h done in
      let after = (consume_found now c (Dict.get c s.handoffs) s).1 in
      let own : h.run_id ≡ before.run_id = ap (λ (x : ReviewHandoff). x.run_id) marked in
      let runs = consume_found-runs c (Dict.get c s.handoffs) before run s stored redeems in
      let there : Dict.get h.run_id after.runs ≡ some run = rw own (rw runs redeems.run_stored) in
      (
        before,
        run,
        stored,
        redeems,
        marked,
        ap (λ (o : Option JudgeRun × Sessions). o.0)
            (get_run-open h.run_id run after there redeems.run_active redeems.run_unexpired),
      )
