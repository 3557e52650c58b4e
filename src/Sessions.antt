-- ===== src/Sessions.antt =====
-- `InMemoryJudgeSessionRepository` of src/recallops/sessions.py: sessions, runs, review handoffs
-- and the limit on attempts. Each method holds the lock, and reads the clock once unless it calls
-- another method; the time of every read inside one call is the same `now`.
pub mod Tests
pub mod Runs
pub mod Current
pub mod Handoffs
pub mod Attempts
pub mod SingleUse
pub mod Ended
use recallops.Dict
use recallops.Common.{
  Bool, String, ◌≡◌, List, Option, if◌then◌else◌, is_none, none, some, true, ℕ, false, leb,
  string_eq, ◌!=◌, ◌&&◌, ◌==◌, ◌↔◌, ◌∷◌, arith, ltb, not, ◌+◌, ◌||◌, [], nat_eq, ◌*◌,
}
use recallops.Workflow.Snapshot.{Time, Uuid}
use recallops.Dict.{Dict}
use recallops.Result.{Result, err, capacity_error, value_error, ok}

pub record JudgeSession : Type 0 where
  pub session_hash : String
  pub csrf_hash : String
  pub tenant_id : String
  pub subject : String
  pub role : String
  pub run_id : Uuid
  pub session_generation : ℕ
  pub review_handoff_hash : Option String
  pub expires_at : Time
  pub revoked_at : Option Time

pub data RunStatus : Type 0 where
  active completed reset expired : RunStatus

abbrev pub status_beq : RunStatus → RunStatus → Bool
status_beq active active = true
status_beq completed completed = true
status_beq reset reset = true
status_beq expired expired = true
status_beq _ _ = false

status_beq_iff : (a b : RunStatus) → (status_beq a b ≡ true) ↔ (a ≡ b)
status_beq_iff a b = ground arith

pub record JudgeRun : Type 0 where
  pub run_id : Uuid
  pub tenant_id : String
  pub generation : ℕ
  pub scenario_version : String
  pub source_incident_id : Uuid
  pub status : RunStatus
  pub operator_subject : String
  pub build_sha : String
  pub capability_policy_version : String
  pub created_at : Time
  pub expires_at : Time
  pub finalized_at : Option Time
  pub reset_at : Option Time

pub record ReviewHandoff : Type 0 where
  pub code_hash : String
  pub run_id : Uuid
  pub tenant_id : String
  pub workflow_id : Uuid
  pub memory_id : Uuid
  pub memory_digest : String
  pub purpose : String
  pub issued_by_subject : String
  pub expires_at : Time
  pub consumed_at : Option Time
  pub revoked_at : Option Time

pub record Sessions : Type 0 where
  pub sessions : Dict String JudgeSession
  pub attempts : Dict String (Time × ℕ)
  pub runs : Dict Uuid JudgeRun
  pub handoffs : Dict String ReviewHandoff

abbrev pub is_active : JudgeRun → Bool
is_active run = status_beq run.status active

-- The window and the count of a client, started anew once the window is over. A window ends at
-- `started + window` seconds; the source compares `now - started` with the window, which is the same for
-- any `now`, also before `started`.
counted : Time → ℕ → Option (Time × ℕ) → Time × ℕ
counted now window none = (now, 1)
counted now window (some (started, count)) =
    if leb (started + window * 1000000) now then (now, 1) else (started, count + 1)

unfoldable pub consume_attempt : Time → String → ℕ → ℕ → Sessions → Bool × Sessions
unfolding counted
consume_attempt now client_hash limit window s =
    let entry = counted now window (Dict.get client_hash s.attempts) in
    (leb entry.1 limit, record s { attempts = Dict.put client_hash entry s.attempts })

unfoldable pub save : JudgeSession → Sessions → Sessions
save session s = record s { sessions = Dict.put session.session_hash session s.sessions }

unfoldable pub get : String → Sessions → Option JudgeSession
get session_hash s = Dict.get session_hash s.sessions

pub revoke : Time → String → Sessions → Sessions
revoke now session_hash s = elim (Dict.get session_hash s.sessions) [
  | none ↦ s
  | some session ↦ record s {
    sessions = Dict.put session_hash (record session { revoked_at = some now }) s.sessions;
  }
]

-- A run as `get_run` returns and stores it: an active one past its end is expired.
refreshed : Time → JudgeRun → JudgeRun
refreshed now run =
    if is_active run && leb run.expires_at now
    then record run { status = expired; finalized_at = some now }
    else run

unfoldable pub get_run : Time → Uuid → Sessions → Option JudgeRun × Sessions
unfolding refreshed
get_run now run_id s = elim (Dict.get run_id s.runs) [
  | none ↦ (none, s)
  | some run ↦
      if is_active run && leb run.expires_at now
      then (
        some (refreshed now run),
        record s { runs = Dict.put run_id (refreshed now run) s.runs },
      )
      else (some run, s)
]

-- The loop of `active_run_count`, over the run ids that the table had when it began.
count_active : Time → List Uuid → Sessions → ℕ × Sessions
count_active now [] s = (0, s)
count_active now (run_id ∷ ids) s =
    let (found, s') = get_run now run_id s in
    let (rest, s'') = count_active now ids s' in
    (elim found [ none ↦ rest | some run ↦ if is_active run then rest + 1 else rest ], s'')

pub active_run_count : Time → Sessions → ℕ × Sessions
unfolding count_active
active_run_count now s = count_active now (Dict.keys s.runs) s

abbrev pub any_of : (JudgeRun → Bool) → List JudgeRun → Bool
any_of p [] = false
any_of p (x ∷ xs) = p x || any_of p xs

pub save_run : Time → JudgeRun → ℕ → Sessions → Result (Unit {0}) × Sessions
unfolding active_run_count
save_run now run active_limit s =
    let (count, s') = active_run_count now s in
    if leb active_limit count
    then (err (capacity_error "judge scenario capacity reached"), s')
    else if any_of (λ item. item.tenant_id == run.tenant_id) (Dict.values s'.runs)
    then (err (value_error "judge run tenant already exists"), s')
    else (ok tt, record s' { runs = Dict.put run.run_id run s'.runs })

-- The loop of `reset_run` over the sessions.
abbrev pub revoke_session : Time → Uuid → JudgeSession → JudgeSession
revoke_session now run_id session =
    if session.run_id == run_id && is_none session.revoked_at
    then record session { revoked_at = some now }
    else session

unfoldable pub reset_run : Time → Uuid → Sessions → Bool × Sessions
reset_run now run_id s = elim (Dict.get run_id s.runs) [
  | none ↦ (false, s)
  | some run ↦ if not (is_active run) then (false, s) else (
    true,
    record s {
      runs =
          Dict.put run_id
            (record run { status = reset; reset_at = some now; finalized_at = some now }) s.runs;
      sessions = Dict.map_values (revoke_session now run_id) s.sessions;
    },
  )
]

unfoldable pub run_is_current : Time → Uuid → String → ℕ → Sessions → Bool × Sessions
run_is_current now run_id tenant_id generation s =
    let (found, s') = get_run now run_id s in
    (
      elim found [
        | none ↦ false
        | some run ↦
            run.tenant_id == tenant_id
            && run.generation == generation
            && is_active run
            && ltb now run.expires_at
      ],
      s',
    )

unfoldable pub save_handoff : ReviewHandoff → Sessions → Result (Unit {0}) × Sessions
save_handoff handoff s =
    if Dict.contains handoff.code_hash s.handoffs
    then (err (value_error "review handoff already exists"), s)
    else (ok tt, record s { handoffs = Dict.put handoff.code_hash handoff s.handoffs })

unfoldable pub get_handoff : String → Sessions → Option ReviewHandoff
get_handoff code_hash s = Dict.get code_hash s.handoffs

-- The tests on the handoff itself, which come before the run is read.
abbrev is_open : Time → ReviewHandoff → Bool
is_open now handoff =
    is_none handoff.consumed_at && is_none handoff.revoked_at && ltb now handoff.expires_at

-- The rest of `consume_handoff`, once the run has been read.
redeem :
    Time → String → ReviewHandoff → Option JudgeRun → Sessions → Option ReviewHandoff × Sessions
redeem now code_hash handoff none s = (none, s)
redeem now code_hash handoff (some run) s =
    if run.tenant_id != handoff.tenant_id || not (is_active run) then (none, s) else (
      some (record handoff { consumed_at = some now }),
      record s {
        handoffs = Dict.put code_hash (record handoff { consumed_at = some now }) s.handoffs;
      },
    )

consume_found : Time → String → Option ReviewHandoff → Sessions → Option ReviewHandoff × Sessions
unfolding redeem
consume_found now code_hash none s = (none, s)
consume_found now code_hash (some handoff) s =
    if is_open now handoff
    then (let (run, s') = get_run now handoff.run_id s in redeem now code_hash handoff run s')
    else (none, s)

unfoldable pub consume_handoff : Time → String → Sessions → Option ReviewHandoff × Sessions
unfolding consume_found
consume_handoff now code_hash s = consume_found now code_hash (Dict.get code_hash s.handoffs) s
