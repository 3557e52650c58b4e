-- ===== src/Sessions/Ended.antt =====
-- A run that has ended stays ended, whatever the repository is asked to do: src/recallops/sessions.py.
use recallops.Dict
use mathlib.Core.Option
use recallops.Workflow.Snapshot.{Time, Uuid}
use recallops.Common.{
  List, String, ℕ, ◌∷◌, ◌≡◌, ◌≢◌, [], arith, none, some, ◌∙◌, Option, refl, string_eq, Bool-cases,
  inl, inr, ap, some-eq, true, false, sym, All, is_none, leb, ◌&&◌, subst, Bool, ◌==◌,
  if◌then◌else◌,
}
use recallops.Sessions.{
  Sessions, count_active, save_run, JudgeRun, ReviewHandoff, consume_attempt, JudgeSession, save,
  get_run, revoke, consume_found, redeem, reset_run, run_is_current, active_run_count,
  consume_handoff, save_handoff, is_active, get, expired, revoke_session, reset, any_of,
}
use recallops.Sessions.SingleUse.{
  Call, run_call, run_calls, attempt, save_session, revoke_call, save_run_call, get_run_call,
  reset_run_call, current_call, count_call, save_handoff_call, consume_call,
}
use recallops.Sessions.Runs.{Closed, reset_run-Closed, reset_run-closed, ended, closed-run}
use recallops.Dict.{get-put_ne, get-put_self}

-- Option.map gives a value only of a value.
map-from :
    (f : JudgeSession → JudgeSession) (o : Option JudgeSession) {b : JudgeSession}
    → Option.map f o ≡ some b
    → (a : JudgeSession) × (o ≡ some a) × (f a ≡ b)
map-from f none h = cc
map-from f (some a) h = (a, refl, some-eq h)

module _ (run_id : Uuid) where
  -- The run is stored and not active.
  abbrev pub Stopped : Sessions → Type 0
  Stopped s = (run : JudgeRun) × (Dict.get run_id s.runs ≡ some run) × (is_active run ≡ false)

  -- Every session of the run is revoked.
  abbrev pub Revoked : Sessions → Type 0
  Revoked s =
      (k : String) (session : JudgeSession)
      → Dict.get k s.sessions ≡ some session
      → session.run_id ≡ run_id
      → is_none session.revoked_at ≡ false

  -- The call saves neither this run again nor a new session of it.
  abbrev pub Leaves : Call → Type 0
  Leaves (save_session session) = session.run_id ≢ run_id
  Leaves (save_run_call now run limit) = run.run_id ≢ run_id
  Leaves c = Unit

  put-Stopped :
      (other : Uuid) (run : JudgeRun) (s s' : Sessions)
      → other ≢ run_id
      → s'.runs ≡ Dict.put other run s.runs
      → Stopped s
      → Stopped s'
  put-Stopped other run s s' differ runs (ended, found, off) =
      (ended, ap (Dict.get run_id) runs ∙ get-put_ne other run_id run s.runs differ ∙ found, off)

  -- An active run is not this one.
  active-other :
      (other : Uuid) (run : JudgeRun) (s : Sessions)
      → Stopped s
      → Dict.get other s.runs ≡ some run
      → is_active run ≡ true
      → other ≢ run_id
  active-other other run s (ended, found, off) stored on same =
      let one : run ≡ ended = some-eq (sym stored ∙ ap (λ k. Dict.get k s.runs) same ∙ found) in
      cc (ap is_active one, on, off)

  get_run-Stopped :
      (now : Time) (other : Uuid) (s : Sessions) → Stopped s → Stopped (get_run now other s).1
  unfolding get_run
  get_run-Stopped now other s stopped = by_run (Dict.get other s.runs) refl
    where
      by_run : (o : Option JudgeRun) → Dict.get other s.runs ≡ o → Stopped (get_run now other s).1
      by_run none missing = rw (get_run, missing) stopped
      by_run (some run) found = elim (Bool-cases (is_active run && leb run.expires_at now)) [
        | inr kept ↦ rw (get_run, found) (rw kept stopped)
        | inl over ↦
            rw (get_run, found)
              (rw over (
                put-Stopped other (record run { status = expired; finalized_at = some now }) s
                  (record s {
                    runs =
                        Dict.put other (record run { status = expired; finalized_at = some now })
                          s.runs;
                  })
                  (active-other other run s stopped found (ground arith)) refl stopped))
      ]

  get_run-sessions :
      (now : Time) (other : Uuid) (s : Sessions) → (get_run now other s).1.sessions ≡ s.sessions
  unfolding get_run
  get_run-sessions now other s = ground arith

  -- The two together: what every call that leaves the run alone keeps.
  abbrev pub Over : Sessions → Type 0
  Over s = Stopped s × Revoked s

  same-Revoked : (s s' : Sessions) → s'.sessions ≡ s.sessions → Revoked s → Revoked s'
  same-Revoked s s' same revoked k session found =
      revoked k session (ap (Dict.get k) (sym same) ∙ found)

  get_run-Over : (now : Time) (other : Uuid) (s : Sessions) → Over s → Over (get_run now other s).1
  get_run-Over now other s (stopped, revoked) = (
    get_run-Stopped now other s stopped,
    same-Revoked s (get_run now other s).1 (get_run-sessions now other s) revoked,
  )

  count_active-Over :
      (now : Time) (ids : List Uuid) (s : Sessions) → Over s → Over (count_active now ids s).1
  unfolding count_active
  count_active-Over now [] s over = over
  count_active-Over now (other ∷ ids) s over =
      count_active-Over now ids (get_run now other s).1 (get_run-Over now other s over)

  put-Revoked :
      (key : String) (saved : JudgeSession) (s s' : Sessions)
      → s'.sessions ≡ Dict.put key saved s.sessions
      → (saved.run_id ≡ run_id → is_none saved.revoked_at ≡ false)
      → Revoked s
      → Revoked s'
  put-Revoked key saved s s' made fresh revoked k session found own =
      elim (Bool-cases (string_eq.beq key k)) [
        | inl here ↦
            let is : saved ≡ session = some-eq (
              sym (get-put_self key saved s.sessions)
              ∙ ap (λ x. Dict.get x (Dict.put key saved s.sessions))
                  ((string_eq.beq_iff key k).0 here)
              ∙ ap (Dict.get k) (sym made)
              ∙ found) in
            subst (λ (x : JudgeSession). is_none x.revoked_at ≡ false) is
              (fresh (ap (λ (x : JudgeSession). x.run_id) is ∙ own))
        | inr other ↦
            revoked k session
              (sym (
                  get-put_ne key k saved s.sessions
                    (λ e. cc (other, (string_eq.beq_iff key k).1 e)))
                ∙ ap (Dict.get k) (sym made)
                ∙ found)
              own
      ]

  revoke-Over : (now : Time) (key : String) (s : Sessions) → Over s → Over (revoke now key s)
  unfolding revoke
  revoke-Over now key s (stopped, revoked) = by_session (Dict.get key s.sessions) refl
    where
      by_session : (o : Option JudgeSession) → Dict.get key s.sessions ≡ o → Over (revoke now key s)
      by_session none missing = rw (revoke, missing) (stopped, revoked)
      by_session (some session) found =
          rw (revoke, found)
            (
              stopped,
              put-Revoked key (record session { revoked_at = some now }) s
                  (record s {
                    sessions = Dict.put key (record session { revoked_at = some now }) s.sessions;
                  })
                  refl (λ own. refl) revoked,
            )

  if-Over :
      {A : Type 0} (b : Bool) (x y : A × Sessions)
      → Over x.1
      → Over y.1
      → Over (if b then x else y).1
  if-Over true x y over_x over_y = over_x
  if-Over false x y over_x over_y = over_y

  save_run-Over :
      (now : Time) (run : JudgeRun) (limit : ℕ) (s : Sessions)
      → run.run_id ≢ run_id
      → Over s
      → Over (save_run now run limit s).1
  unfolding save_run active_run_count
  save_run-Over now run limit s differ over =
      let counted = count_active-Over now (Dict.keys s.runs) s over in
      let s' = (count_active now (Dict.keys s.runs) s).1 in
      let saved = record s' { runs = Dict.put run.run_id run s'.runs } in
      elim (Bool-cases (leb limit (count_active now (Dict.keys s.runs) s).0)) [
        | inl full ↦ rw full counted
        | inr room ↦
            elim (Bool-cases
              (any_of (λ item. item.tenant_id == run.tenant_id) (Dict.values s'.runs))) [
                | inl taken ↦ rw room (rw taken counted)
                | inr free ↦
                    rw room (
                      rw free
                        (put-Stopped run.run_id run s' saved differ refl counted.0, counted.1))
              ]
      ]

  -- A reset of a run revokes its sessions and leaves every other session as it was.
  reset_run-Over :
      (now : Time) (other : Uuid) (s : Sessions) → Over s → Over (reset_run now other s).1
  unfolding reset_run
  reset_run-Over now other s (stopped, revoked) = by_run (Dict.get other s.runs) refl
    where
      passed : JudgeSession → JudgeSession
      passed = revoke_session now other

      later :
          (x : JudgeSession) → is_none x.revoked_at ≡ false → is_none (passed x).revoked_at ≡ false
      later x off = ground arith

      same_run : (x : JudgeSession) → (passed x).run_id ≡ x.run_id
      same_run x = ground arith

      all_revoked : (s' : Sessions) → s'.sessions ≡ Dict.map_values passed s.sessions → Revoked s'
      all_revoked s' made k session found own =
          let (before, there, same) =
            map-from passed (Dict.get k s.sessions) (
              sym (Dict.get-map_values passed k s.sessions) ∙ ap (Dict.get k) (sym made) ∙ found) in
          subst (λ (x : JudgeSession). is_none x.revoked_at ≡ false) same
            (later before (
              revoked k before there
                (sym (same_run before) ∙ ap (λ (x : JudgeSession). x.run_id) same ∙ own)))

      by_run : (o : Option JudgeRun) → Dict.get other s.runs ≡ o → Over (reset_run now other s).1
      by_run none missing = rw (reset_run, missing) (stopped, revoked)
      by_run (some run) found = elim (Bool-cases (is_active run)) [
        | inr idle ↦ rw (reset_run, found) (rw idle (stopped, revoked))
        | inl on ↦
            let ended : JudgeRun = record run {
              status = reset;
              reset_at = some now;
              finalized_at = some now;
            } in
            let s' : Sessions = record s {
              runs = Dict.put other ended s.runs;
              sessions = Dict.map_values passed s.sessions;
            } in
            rw (reset_run, found)
              (rw on (
                put-Stopped other ended s s' (active-other other run s stopped found on) refl
                    stopped,
                all_revoked s' refl,
              ))
      ]

  redeem-Over :
      (now : Time) (c : String) (before : ReviewHandoff) (o : Option JudgeRun) (s : Sessions)
      → Over s
      → Over (redeem now c before o s).1
  unfolding redeem
  redeem-Over now c before none s over = over
  redeem-Over now c before (some run) s over = if-Over _ _ _ over over

  consume_found-Over :
      (now : Time) (c : String) (o : Option ReviewHandoff) (s : Sessions)
      → Over s
      → Over (consume_found now c o s).1
  unfolding consume_found
  consume_found-Over now c none s over = over
  consume_found-Over now c (some before) s over =
      let read = get_run now before.run_id s in
      if-Over _ _ _ (redeem-Over now c before read.0 read.1 (get_run-Over now before.run_id s over))
        over

  save_handoff-Over : (h : ReviewHandoff) (s : Sessions) → Over s → Over (save_handoff h s).1
  unfolding save_handoff
  save_handoff-Over h s over = if-Over _ _ _ over over

  call-Over : (c : Call) (s : Sessions) → Leaves c → Over s → Over (run_call c s)
  unfolding run_call
  call-Over (attempt now client limit window) s leaves over = unfold consume_attempt in over
  call-Over (save_session session) s leaves over =
      unfold save in
      (
        over.0,
        put-Revoked session.session_hash session s
            (record s { sessions = Dict.put session.session_hash session s.sessions }) refl
            (λ own. absurd (leaves own)) over.1,
      )
  call-Over (revoke_call now session_hash) s leaves over = revoke-Over now session_hash s over
  call-Over (save_run_call now run limit) s leaves over = save_run-Over now run limit s leaves over
  call-Over (get_run_call now other) s leaves over = get_run-Over now other s over
  call-Over (reset_run_call now other) s leaves over = reset_run-Over now other s over
  call-Over (current_call now other tenant generation) s leaves over =
      unfold run_is_current in get_run-Over now other s over
  call-Over (count_call now) s leaves over =
      unfold active_run_count in count_active-Over now (Dict.keys s.runs) s over
  call-Over (save_handoff_call handoff) s leaves over = save_handoff-Over handoff s over
  call-Over (consume_call now code_hash) s leaves over =
      unfold consume_handoff in
      consume_found-Over now code_hash (Dict.get code_hash s.handoffs) s over

  calls-Over : (cs : List Call) (s : Sessions) → All Leaves cs → Over s → Over (run_calls cs s)
  unfolding run_calls
  calls-Over [] s leaves over = over
  calls-Over (c ∷ cs) s leaves over =
      calls-Over cs (run_call c s) leaves.1 (call-Over c s leaves.0 over)

  Stopped-not_current :
      (s : Sessions)
      → Stopped s
      → (later : Time) (tenant_id : String) (generation : ℕ)
      → (run_is_current later run_id tenant_id generation s).0 ≡ false
  unfolding run_is_current get_run
  Stopped-not_current s (run, found, off) later tenant_id generation =
      rw (run_is_current, get_run, found) (rw off (ground (arith, off)))

  Stopped-once : (s : Sessions) → Stopped s → (later : Time) → reset_run later run_id s ≡ (false, s)
  unfolding reset_run
  Stopped-once s (run, found, off) later = rw (reset_run, found) (rw off refl)

  Over-Closed : (now : Time) (s0 s : Sessions) → Over s → Closed now run_id s0 s
  unfolding get
  Over-Closed now s0 s (stopped, revoked) = record {
    sessions_revoked = revoked;
    not_current = Stopped-not_current s stopped;
    once = Stopped-once s stopped;
  }

  reset_run-Stopped :
      (now : Time) (s : Sessions)
      → (reset_run now run_id s).0 ≡ true
      → Stopped (reset_run now run_id s).1
  reset_run-Stopped now s done =
      let (run, made) = reset_run-closed now run_id s (Dict.get run_id s.runs) refl done in
      rw made (ended now run_id s run, closed-run now run_id s run, refl)

  -- A reset that is carried out ends the run for good: after any further calls of the repository, at any
  -- times, that neither save a run under its id again nor a new session of it, every session of the run is
  -- revoked, it is current at no time and for no tenant and generation, and another reset changes nothing.
  pub reset_run_for_good :
      (now : Time) (s : Sessions) (cs : List Call)
      → (reset_run now run_id s).0 ≡ true
      → All Leaves cs
      → Closed now run_id s (run_calls cs (reset_run now run_id s).1)
  reset_run_for_good now s cs done leaves =
      Over-Closed now s (run_calls cs (reset_run now run_id s).1)
        (calls-Over cs (reset_run now run_id s).1 leaves (reset_run-Stopped now s done, revoked))
    where
      revoked : Revoked (reset_run now run_id s).1
      revoked = unfold get in (reset_run-Closed now run_id s done).sessions_revoked
