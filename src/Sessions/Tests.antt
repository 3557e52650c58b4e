-- ===== src/Sessions/Tests.antt =====
-- Runs of the session repository.
use recallops.Dict
use recallops.Sessions.{
  JudgeRun, JudgeSession, ReviewHandoff, Sessions, active_run_count, consume_handoff, get,
  get_handoff, reset_run, run_is_current, save_handoff, save_run, active, consume_attempt, get_run,
  revoke, save,
}
use recallops.Sessions.Runs.{Closed}
use recallops.Sessions.Ended.{Leaves, reset_run_for_good}
use recallops.Common.{
  ◌≡◌, none, some, string_eq, true, ◌∷◌, [], refl, ◌≤◌, ◌-◌, arith, All, List, eq_iff,
}
use recallops.Sessions.Attempts.{allowed, allowed-le}
use recallops.Sessions.SingleUse.{
  run_calls, reset_run_call, save_handoff_call, consume_handoff_once, Call, get_run_call,
  save_run_call, count_call,
}
use recallops.Result.{err, value_error}
use recallops.Sessions.Handoffs.{Redeems, consume_handoff_sound}

abbrev run : JudgeRun
run = record {
  run_id = "r";
  tenant_id = "t";
  generation = 1;
  scenario_version = "v1";
  source_incident_id = "i";
  status = active;
  operator_subject = "alice";
  build_sha = "sha";
  capability_policy_version = "p1";
  created_at = 0;
  expires_at = 1000;
  finalized_at = none;
  reset_at = none;
}

abbrev handoff : ReviewHandoff
handoff = record {
  code_hash = "c";
  run_id = "r";
  tenant_id = "t";
  workflow_id = "w";
  memory_id = "m";
  memory_digest = "d";
  purpose = "review";
  issued_by_subject = "alice";
  expires_at = 500;
  consumed_at = none;
  revoked_at = none;
}

abbrev session : JudgeSession
session = record {
  session_hash = "s";
  csrf_hash = "x";
  tenant_id = "t";
  subject = "bob";
  role = "reviewer";
  run_id = "r";
  session_generation = 1;
  review_handoff_hash = none;
  expires_at = 900;
  revoked_at = none;
}

abbrev tables : Sessions
tables = record {
  sessions = Dict.put "s" session Dict.empty;
  attempts = Dict.put "ip" (100, 2) Dict.empty;
  runs = Dict.put "r" run Dict.empty;
  handoffs = Dict.put "c" handoff Dict.empty;
}

abbrev consumed : ReviewHandoff
consumed = record handoff { consumed_at = some 200 }

first_use : (consume_handoff 200 "c" tables).0 ≡ some consumed
unfolding consume_handoff get_run Dict.get Dict.put Dict.empty
first_use = refl

expired_handoff : (consume_handoff 500 "c" tables).0 ≡ none
unfolding consume_handoff get_run Dict.get Dict.put Dict.empty
expired_handoff = refl

consume_handoff_once_example :
    (consume_handoff 300 "c" (
      run_calls
        (reset_run_call 250 "r" ∷ save_handoff_call handoff ∷ [])
        (consume_handoff 200 "c" tables).1)).0
    ≡ none
consume_handoff_once_example =
    consume_handoff_once 200 300 "c" tables consumed
      (reset_run_call 250 "r" ∷ save_handoff_call handoff ∷ []) first_use

consume_handoff_sound_example :
    (before : ReviewHandoff) × (owner : JudgeRun) × (Dict.get "c" tables.handoffs ≡ some before)
    × Redeems 200 tables before owner
    × (consumed ≡ record before { consumed_at = some 200 })
    × (Dict.get "c" (consume_handoff 200 "c" tables).1.handoffs ≡ some consumed)
consume_handoff_sound_example = consume_handoff_sound 200 "c" tables consumed first_use

reset_done : (reset_run 300 "r" tables).0 ≡ true
unfolding reset_run Dict.get Dict.put Dict.empty
reset_done = refl

-- Calls after the reset, one of which saves another run.
abbrev after_reset : List Call
after_reset =
    get_run_call 310 "r"
    ∷ save_run_call 320 (record run { run_id = "other"; tenant_id = "t2" }) 10
    ∷ reset_run_call 330 "r"
    ∷ count_call 340
    ∷ []

leave_alone : All (Leaves "r") after_reset
leave_alone = (tt, ((λ same. cc ((eq_iff "other" "r").1 same)), (tt, (tt, tt))))

reset_run_for_good_example :
    Closed 300 "r" tables (run_calls after_reset (reset_run 300 "r" tables).1)
reset_run_for_good_example = reset_run_for_good "r" 300 tables after_reset reset_done leave_alone

counted_twice : Dict.get "ip" tables.attempts ≡ some (100, 2)
unfolding Dict.get Dict.put Dict.empty
counted_twice = refl

allowed-le_example : allowed "ip" 3 60 (200 ∷ 300 ∷ []) tables ≤ 3 - 2
allowed-le_example =
    allowed-le "ip" 3 60 100 (200 ∷ 300 ∷ []) 2 tables counted_twice
      (omega arith, (omega arith, tt))

-- Of three attempts inside the window the first is the last that the limit allows.
one_left : allowed "ip" 3 60 (200 ∷ 300 ∷ 400 ∷ []) tables ≡ 1
unfolding allowed consume_attempt Dict.get Dict.put Dict.empty
one_left = refl

one_active : (active_run_count 200 tables).0 ≡ 1
unfolding active_run_count get_run Dict.keys Dict.get Dict.put Dict.empty
one_active = refl

stored_run : (save_run 200 run 5 tables).0 ≡ err (value_error "judge run tenant already exists")
unfolding save_run get_run Dict.values Dict.keys Dict.get Dict.put Dict.empty
stored_run = refl

revoked_session : get "s" (revoke 700 "s" tables) ≡ some (record session { revoked_at = some 700 })
unfolding get revoke Dict.get Dict.put Dict.empty
revoked_session = refl

saved_session : get "s" (save session tables) ≡ some session
unfolding get save Dict.get Dict.put Dict.empty
saved_session = refl

current_run : (run_is_current 200 "r" "t" 1 tables).0 ≡ true
unfolding run_is_current get_run Dict.get Dict.put Dict.empty
current_run = refl

known_handoff : get_handoff "c" tables ≡ some handoff
unfolding get_handoff Dict.get Dict.put Dict.empty
known_handoff = refl

second_code : (save_handoff handoff tables).0 ≡ err (value_error "review handoff already exists")
unfolding save_handoff Dict.contains Dict.get Dict.put Dict.empty
second_code = refl
