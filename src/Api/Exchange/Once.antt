-- ===== src/Api/Exchange/Once.antt =====
-- A handoff is exchanged once: src/recallops/api.py.
use recallops.Sessions
use recallops.Sessions.SingleUse.{
  Call, run_calls, run_call, run_calls-append, consume_handoff_once, get_run_call, save_session,
  attempt,
}
use recallops.Auth.{consume_handoff_attempt, session_of}
use recallops.Api.Exchange.{
  exchange_code, exchange_reviewer_handoff, limited, redeemed, Draws, Exchanged, reviewer_request,
  valid_code,
}
use recallops.Api.{Settings, Request, address_of, require_origin, require_json}
use recallops.Workflow.Snapshot.{Time}
use recallops.Common.{String, Bool, ◌≡◌, List, none, some, false, true, refl, ◌∷◌, ◌++◌, [], subst}
use recallops.Result.{Result, ok, IsErr, err, ◌>>◌}
use recallops.Sessions.{Sessions, ReviewHandoff, consume_handoff, JudgeRun, get_run}
use recallops.Api.Exchange.Review.{attempted, consuming, exchange-Went, subject, guards-code}

refused-redeemed :
    (st : Settings) (now : Time) (d : Draws) (code : String) (allowed : Bool) (s : Sessions)
    → (consume_handoff now (st.authenticator.digest code) s).0 ≡ none
    → IsErr (limited st now d code (allowed, s)).0
unfolding limited redeemed
refused-redeemed st now d code false s used = tt
refused-redeemed st now d code true s used = rw used tt

refused-code :
    (st : Settings) (now : Time) (d : Draws) (r : Request) (code : String) (o : Result String)
    (s : Sessions)
    → ((c : String) → o ≡ ok c → c ≡ code)
    → (consume_handoff now (st.authenticator.digest code) (attempted st now d r s)).0 ≡ none
    → IsErr (exchange_code st now d r o s).0
unfolding exchange_code
refused-code st now d r code (err e) s same used = tt
refused-code st now d r code (ok c) s same used =
    let attempt = consume_handoff_attempt st.authenticator now (address_of r) s in
    refused-redeemed st now d c attempt.0 attempt.1 (rw (same c refl) used)

-- No state that follows the redemption redeems the code again.
used :
    (st : Settings) (now later : Time) (d : Draws) (r r' : Request) (code : String) (s : Sessions)
    (handoff : ReviewHandoff) (run : JudgeRun) (cs : List Call)
    → (consuming st now d code (attempted st now d r s)).0 ≡ some handoff
    → (consume_handoff later (st.authenticator.digest code) (
        attempted st later d r' (
          run_calls cs (
            Sessions.save
              (session_of st.authenticator now
                (reviewer_request handoff run (subject st now d))
                d.token
                d.csrf)
              (get_run now run.run_id
                (get_run now handoff.run_id
                  (consuming st now d code (attempted st now d r s)).1).1).1)))).0
      ≡ none
unfolding run_calls run_call consume_handoff_attempt
used st now later d r r' code s handoff run cs consumed =
    let a = st.authenticator in
    let c =
      attempt later (a.keyed "review-handoff" (address_of r')) a.attempt_limit a.attempt_window in
    let session =
      session_of a now (reviewer_request handoff run (subject st now d)) d.token d.csrf in
    let calls =
      get_run_call now handoff.run_id
      ∷ get_run_call now run.run_id
      ∷ save_session session
      ∷ (cs ++ c ∷ []) in
    let reached =
      Sessions.save session
        (get_run now run.run_id
          (get_run now handoff.run_id (consuming st now d code (attempted st now d r s)).1).1).1 in
    subst (λ t. (consume_handoff later (a.digest code) t).0 ≡ none) (run_calls-append cs c reached)
      (consume_handoff_once now later (a.digest code) (attempted st now d r s) handoff calls
        consumed)

-- A code that was exchanged is refused ever after: whatever calls of the repository come in between, in
-- whatever order and at whatever times, the next exchange of the code raises.
pub exchange_once :
    (st : Settings) (now later : Time) (d d' : Draws) (r r' : Request) (code : String)
    (s : Sessions) (x : Exchanged) (cs : List Call)
    → (exchange_reviewer_handoff st now d r (some code) s).0 ≡ ok x
    → IsErr
        (exchange_reviewer_handoff st later d' r'
          (some code)
          (run_calls cs (exchange_reviewer_handoff st now d r (some code) s).1)).0
unfolding exchange_reviewer_handoff
exchange_once st now later d d' r r' code s x cs done =
    let (handoff, run, consumed, read, opens) = exchange-Went st now d r code s x done in
    refused-code st later d' r' code
      (do require_origin st r'; require_json st r'; valid_code (some code))
      (run_calls cs (exchange_reviewer_handoff st now d r (some code) s).1)
      (λ c. guards-code st later d' r' code c)
      (rw opens.saved (used st now later d r r' code s handoff run cs consumed))
