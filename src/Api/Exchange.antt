-- ===== src/Api/Exchange.antt =====
-- `exchange_reviewer_handoff` and the handoff part of `create_reviewer_handoff` of src/recallops/api.py.
-- The random tokens and the random part of the reviewer's subject are arguments.
pub mod Review
pub mod Once
use recallops.Sessions
use recallops.Auth
use recallops.Common.{
  String, has_length, Option, concat, Bool, ◌∷◌, [], if◌then◌else◌, some, none, not, ◌==◌, ◌||◌,
  string_eq,
}
use recallops.Result.{Error, http_error, Result, err, ◌>>◌, ok}
use recallops.Sessions.{ReviewHandoff, JudgeRun, Sessions, is_active}
use recallops.Api.{Settings, Request, address_of, require_origin, require_json}
use recallops.Auth.{Principal, SessionRequest, consume_handoff_attempt}
use recallops.Workflow.Snapshot.{Time, Uuid}

-- What the response tells, and the session's token, which goes into the cookie.
pub record Exchanged : Type 0 where
  pub token : String
  pub csrf_token : String
  pub identity : Principal
  pub workflow_id : Uuid
  pub memory_id : Uuid
  pub memory_digest : String
  pub purpose : String

-- The random values that one exchange draws.
pub record Draws : Type 0 where
  pub subject_hex : String
  pub token : String
  pub csrf : String

invalid_handoff : Error
invalid_handoff = http_error 401 "review handoff is invalid or expired"

-- `isinstance(code, str) and 32 <= len(code) <= 128`
unfoldable pub valid_code : Option String → Result String
unfolding invalid_handoff has_length
valid_code none = err invalid_handoff
valid_code (some code) = if has_length 32 128 code then ok code else err invalid_handoff

pub reviewer_subject_of : String → String
reviewer_subject_of subject_hex = concat ("reviewer_" ∷ subject_hex ∷ [])

unfoldable pub reviewer_request : ReviewHandoff → JudgeRun → String → SessionRequest
reviewer_request handoff run subject = record {
  role = "reviewer";
  run_id = run.run_id;
  tenant_id = run.tenant_id;
  generation = run.generation;
  subject = subject;
  review_handoff_hash = some handoff.code_hash;
}

module _ (st : Settings) (now : Time) (d : Draws) where
  -- The response for the session that was created.
  answer : ReviewHandoff → Result Principal × Sessions → Result Exchanged × Sessions
  answer handoff (err e, s) = (err e, s)
  answer handoff (ok identity, s) = (
    ok (record {
      token = d.token;
      csrf_token = d.csrf;
      identity = identity;
      workflow_id = handoff.workflow_id;
      memory_id = handoff.memory_id;
      memory_digest = handoff.memory_digest;
      purpose = handoff.purpose;
    }),
    s,
  )

  open_review : ReviewHandoff → Option JudgeRun → Sessions → Result Exchanged × Sessions
  unfolding invalid_handoff reviewer_subject_of reviewer_request answer
  open_review handoff none s = (err invalid_handoff, s)
  open_review handoff (some run) s =
      let subject = reviewer_subject_of d.subject_hex in
      if not (is_active run)
      then (err invalid_handoff, s)
      else if subject == run.operator_subject || subject == handoff.issued_by_subject
      then (err (http_error 503 "review identity unavailable"), s)
      else answer handoff (
          Auth.create_session st.authenticator now (reviewer_request handoff run subject) d.token
            d.csrf s)

  redeemed : Option ReviewHandoff → Sessions → Result Exchanged × Sessions
  unfolding invalid_handoff open_review
  redeemed none s = (err invalid_handoff, s)
  redeemed (some handoff) s =
      let (run, s') = Sessions.get_run now handoff.run_id s in open_review handoff run s'

  limited : String → Bool × Sessions → Result Exchanged × Sessions
  unfolding redeemed
  limited code (allowed, s) =
      if not allowed
      then (err (http_error 429 "review handoff exchange rate limit exceeded"), s)
      else (let (handoff, s') = Sessions.consume_handoff now (st.authenticator.digest code) s in
          redeemed handoff s')

  exchange_code : Request → Result String → Sessions → Result Exchanged × Sessions
  unfolding limited address_of
  exchange_code r (err e) s = (err e, s)
  exchange_code r (ok code) s =
      limited code (consume_handoff_attempt st.authenticator now (address_of r) s)

  -- The endpoint; `code` is the text under "code" of a body that is an object; a
  -- body that is not JSON is not modelled.
  unfoldable pub exchange_reviewer_handoff :
      Request → Option String → Sessions → Result Exchanged × Sessions
  unfolding exchange_code valid_code
  exchange_reviewer_handoff r code s =
      exchange_code r (do require_origin st r; require_json st r; valid_code code) s
