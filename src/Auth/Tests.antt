-- ===== src/Auth/Tests.antt =====
-- Runs of the authenticator, with a digest that marks its text.
use recallops.Sessions
use recallops.Dict
use recallops.Auth.{
  Authenticator, Principal, SessionRequest, authenticate, create_session, principal_of, session_of,
  validate_csrf,
}
use recallops.Sessions.{
  JudgeRun, JudgeSession, Sessions, reset_run, RunStatus, save, run_is_current, get_run,
}
use recallops.Common.{◌≡◌, ◌≢◌, concat, none, some, string_eq, refl, ◌∷◌, [], eq_iff, arith, true}
use recallops.Dict.{get}
use recallops.Auth.Identity.{
  Backed, authenticate_sound, reset_run-authenticate, create_session-authenticate,
}
use recallops.Result.{ok}

abbrev judges : Authenticator
judges = record {
  ttl = 1;
  attempt_limit = 5;
  attempt_window = 60;
  digest = λ s. concat ("#" ∷ s ∷ []);
  keyed = λ purpose address. concat (purpose ∷ address ∷ []);
}

abbrev active_run : JudgeRun
active_run = record {
  run_id = "r";
  tenant_id = "t";
  generation = 1;
  scenario_version = "v1";
  source_incident_id = "i";
  status = RunStatus.active;
  operator_subject = "alice";
  build_sha = "sha";
  capability_policy_version = "p1";
  created_at = 0;
  expires_at = 5000000;
  finalized_at = none;
  reset_at = none;
}

abbrev tables : Sessions
tables = record {
  sessions = Dict.empty;
  attempts = Dict.empty;
  runs = Dict.put "r" active_run Dict.empty;
  handoffs = Dict.empty;
}

abbrev asked : SessionRequest
asked = record {
  role = "operator";
  run_id = "r";
  tenant_id = "t";
  generation = 1;
  subject = "alice";
  review_handoff_hash = none;
}

abbrev alice : Principal
alice = principal_of (session_of judges 0 asked "token" "csrf")

abbrev with_session : Sessions
with_session = record tables {
  sessions = Dict.put "#token" (session_of judges 0 asked "token" "csrf") Dict.empty;
}

created : create_session judges 0 asked "token" "csrf" tables ≡ (ok alice, with_session)
unfolding create_session save
created = refl

let_in : (authenticate judges 10 (some "token") with_session).0 ≡ ok alice
unfolding authenticate Sessions.get run_is_current get_run session_of Dict.get Dict.put Dict.empty
let_in = refl

authenticate_sound_example :
    (session : JudgeSession) × (run : JudgeRun) × Backed judges 10 "token" with_session session run
    × (alice ≡ principal_of session)
authenticate_sound_example = authenticate_sound judges 10 "token" with_session alice let_in

run_there : Dict.get "r" with_session.runs ≡ some active_run
unfolding Dict.get Dict.put Dict.empty
run_there = refl

create_session-authenticate_example :
    ((authenticate judges 10 (some "token") with_session).0 ≡ ok alice)
    × (validate_csrf judges alice (some "csrf") ≡ ok tt)
create_session-authenticate_example =
    create_session-authenticate judges 0 10 asked "token" "csrf" tables with_session alice
      active_run created (λ same. cc ((eq_iff "token" "").1 same)) (omega arith) run_there refl refl
      refl (omega arith)

abbrev other_run : JudgeRun
other_run = record active_run { run_id = "q" }

-- The other run is reset, and the session of the first goes on.
abbrev two_runs : Sessions
two_runs = record with_session { runs = Dict.put "q" other_run with_session.runs }

other_reset : (reset_run 5 "q" two_runs).0 ≡ true
unfolding reset_run Dict.get Dict.put Dict.empty
other_reset = refl

still_in : (authenticate judges 10 (some "token") (reset_run 5 "q" two_runs).1).0 ≡ ok alice
unfolding authenticate Sessions.get run_is_current get_run reset_run session_of Dict.get Dict.put
    Dict.empty Dict.map_values
still_in = refl

reset_run-authenticate_example : alice.run_id ≢ some "q"
reset_run-authenticate_example =
    reset_run-authenticate judges 5 10 "q" "token" two_runs alice other_reset still_in
