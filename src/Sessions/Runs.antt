-- ===== src/Sessions/Runs.antt =====
-- What a reset of a run leaves: src/recallops/sessions.py.
use recallops.Dict
use mathlib.Core.Option
use recallops.Workflow.Snapshot.{Time, Uuid}
use recallops.Common.{
  Option, String, ◌≡◌, is_none, some, true, false, arith, ℕ, eq_iff, some-eq, none, string_eq, refl,
  sym, ◌∙◌, subst, ap,
}
use recallops.Sessions.{
  JudgeSession, Sessions, reset_run, revoke_session, get, run_is_current, JudgeRun, get_run, reset,
  is_active,
}

-- A session of the run that `reset_run` has passed over is revoked.
revoke_session-revoked :
    (now : Time) (run_id : Uuid) (session : JudgeSession)
    → (revoke_session now run_id session).run_id ≡ run_id
    → is_none (revoke_session now run_id session).revoked_at ≡ false
revoke_session-revoked now run_id session own = ground (arith, eq_iff session.run_id run_id)

-- Option.map gives a value only of a value.
map-eq-some :
    {A B : Type 0} (f : A → B) (o : Option A) {b : B}
    → Option.map f o ≡ some b
    → (a : A) × (f a ≡ b)
map-eq-some f none h = cc
map-eq-some f (some a) h = (a, some-eq h)

module _ (now : Time) (run_id : Uuid) (s : Sessions) where
  -- What a reset leaves of the sessions and of the run.
  pub record Closed (s' : Sessions) : Type 0 where
    pub sessions_revoked :
        (session_hash : String) (session : JudgeSession)
        → get session_hash s' ≡ some session
        → session.run_id ≡ run_id
        → is_none session.revoked_at ≡ false
    pub not_current :
        (later : Time) (tenant_id : String) (generation : ℕ)
        → (run_is_current later run_id tenant_id generation s').0 ≡ false
    pub once : (later : Time) → reset_run later run_id s' ≡ (false, s')

  abbrev pub ended : JudgeRun → JudgeRun
  ended run = record run { status = reset; reset_at = some now; finalized_at = some now }

  -- The tables once the run is reset.
  pub closed : JudgeRun → Sessions
  closed run = record s {
    runs = Dict.put run_id (ended run) s.runs;
    sessions = Dict.map_values (revoke_session now run_id) s.sessions;
  }

  pub reset_run-closed :
      (o : Option JudgeRun)
      → Dict.get run_id s.runs ≡ o
      → (reset_run now run_id s).0 ≡ true
      → (run : JudgeRun) × (reset_run now run_id s ≡ (true, closed run))
  unfolding reset_run closed
  reset_run-closed none missing done = cc
  reset_run-closed (some run) found done =
      let active : is_active run ≡ true = ground arith in
      (run, rw (reset_run, found) (rw active refl))

  pub closed-run : (run : JudgeRun) → Dict.get run_id (closed run).runs ≡ some (ended run)
  unfolding closed
  closed-run run = Dict.get-put_self run_id (ended run) s.runs

  closed-not_current :
      (run : JudgeRun) (later : Time) (tenant_id : String) (generation : ℕ)
      → (run_is_current later run_id tenant_id generation (closed run)).0 ≡ false
  unfolding run_is_current get_run
  closed-not_current run later tenant_id generation =
      rw (run_is_current, get_run, closed-run run) (ground arith)

  closed-once :
      (run : JudgeRun) (later : Time) → reset_run later run_id (closed run) ≡ (false, closed run)
  unfolding reset_run
  closed-once run later = rw (reset_run, closed-run run) refl

  closed-sessions_revoked :
      (run : JudgeRun) (session_hash : String) (session : JudgeSession)
      → get session_hash (closed run) ≡ some session
      → session.run_id ≡ run_id
      → is_none session.revoked_at ≡ false
  unfolding closed get
  closed-sessions_revoked run session_hash session found own =
      let (before, same) =
        map-eq-some (revoke_session now run_id) (Dict.get session_hash s.sessions)
          (sym (Dict.get-map_values (revoke_session now run_id) session_hash s.sessions) ∙ found) in
      subst (λ x. is_none x.revoked_at ≡ false) same
        (revoke_session-revoked now run_id before (ap (λ x. x.run_id) same ∙ own))

  closed-Closed : (run : JudgeRun) → Closed (closed run)
  closed-Closed run = record {
    sessions_revoked = closed-sessions_revoked run;
    not_current = closed-not_current run;
    once = closed-once run;
  }

  -- In the tables that a reset leaves, every session of the run is revoked, the run is at no time, and for
  -- no tenant and generation, current, and a second reset changes nothing.
  pub reset_run-Closed : (reset_run now run_id s).0 ≡ true → Closed (reset_run now run_id s).1
  reset_run-Closed done =
      let (run, made) = reset_run-closed (Dict.get run_id s.runs) refl done in
      rw made (closed-Closed run)
