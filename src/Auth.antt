-- ===== src/Auth.antt =====
-- `Principal` and `JudgeSessionAuthenticator` of src/recallops/auth.py, over the repository of Sessions.
-- The text of pydantic's errors is not modelled.
-- SHA-256 and the keyed hash of a client's address are parameters, and so are the random tokens; the
-- lifetimes and limits are the settings'. A read of the clock inside one call is always the same `now`,
-- and the texts that `compare_digest` compares are taken to be ASCII, as it demands.
pub mod Tests
pub mod Identity
use recallops.Sessions
use recallops.Common.{
  Option, String, ℕ, Bool, List, if◌then◌else◌, ◌+◌, false, not, some, true, ◌*◌, ◌==◌, is_none,
  none, ◌!=◌, ◌||◌, ◌∷◌, [], string_eq, ◌&&◌, ltb, nat_eq, concat, has_length, leb, all_codes,
  codes,
}
use recallops.Sessions.{JudgeSession, JudgeRun, Sessions}
use recallops.Workflow.Snapshot.{Time, Uuid}
use recallops.Result.{
  Error, Result, authentication_error, err, raise_if, authorization_error, ok, ◌>>◌,
  validation_error,
}

pub record Principal : Type 0 where
  pub subject : String
  pub tenant_id : String
  pub roles : List String
  pub auth_method : String
  pub session_hash : Option String
  pub csrf_hash : Option String
  pub run_id : Option Uuid
  pub session_generation : Option ℕ
  pub review_handoff_hash : Option String

abbrev pub has_role : String → List String → Bool
has_role role [] = false
has_role role (r ∷ rs) = r == role || has_role role rs

unfoldable pub require : String → Principal → Result (Unit {0})
require role p =
    raise_if (not (has_role role p.roles))
      (authorization_error (concat ("role required: " ∷ role ∷ [])))

-- The settings and the hash functions of an authenticator.
pub record Authenticator : Type 0 where
  pub ttl : ℕ
  pub attempt_limit : ℕ
  pub attempt_window : ℕ
  pub digest : String → String
  -- of the purpose and the client's address, with the rate-limit key
  pub keyed : String → String → String

-- one character of `[a-zA-Z0-9_-]`
abbrev is_identifier : ℕ → Bool
is_identifier c =
    (leb b'a' c && leb c b'z')
    || (leb b'A' c && leb c b'Z')
    || (leb b'0' c && leb c b'9')
    || c == b'_'
    || c == b'-'

-- The field constraints of `Principal`.
unfoldable pub valid_identity : String → String → Bool
unfolding has_length
valid_identity subject tenant_id =
    has_length 1 200 subject
    && has_length 1 80 tenant_id
    && all_codes is_identifier (codes tenant_id)

-- `_principal`, once the fields are valid
unfoldable pub principal_of : JudgeSession → Principal
principal_of session = record {
  subject = session.subject;
  tenant_id = session.tenant_id;
  roles = if session.role == "operator" then session.role ∷ "agent" ∷ [] else session.role ∷ [];
  auth_method = "judge_session";
  session_hash = some session.session_hash;
  csrf_hash = some session.csrf_hash;
  run_id = some session.run_id;
  session_generation = some session.session_generation;
  review_handoff_hash = session.review_handoff_hash;
}

unfoldable pub principal : JudgeSession → Result Principal
unfolding valid_identity principal_of
principal session = do
  raise_if (not (valid_identity session.subject session.tenant_id))
      (validation_error "principal identity is invalid")
  ok (principal_of session)

-- `if run is None or run.tenant_id != tenant_id or run.generation != generation`
run_mismatch : Option JudgeRun → String → ℕ → Bool
run_mismatch none tenant_id generation = true
run_mismatch (some run) tenant_id generation =
    run.tenant_id != tenant_id || run.generation != generation

operates : Option JudgeRun → String → Bool
operates none subject = false
operates (some run) subject = run.operator_subject == subject

-- The checks of a new session's role, with the run that the repository returned for a reviewer.
pub check_role : String → Option JudgeRun → String → ℕ → String → Option String → Result (Unit {0})
unfolding run_mismatch operates
check_role role found tenant_id generation subject handoff_hash =
    if role == "reviewer"
    then (do
      raise_if (run_mismatch found tenant_id generation)
          (authentication_error "judge run is invalid or expired")
      raise_if (operates found subject)
          (authentication_error "reviewer subject must be independent")
      raise_if (is_none handoff_hash)
          (authentication_error "reviewer session requires a consumed handoff"))
    else raise_if (not (is_none handoff_hash))
        (authentication_error "operator session cannot carry reviewer authority")

-- What `create_session` is asked for.
pub record SessionRequest : Type 0 where
  pub role : String
  pub run_id : Uuid
  pub tenant_id : String
  pub generation : ℕ
  pub subject : String
  pub review_handoff_hash : Option String

module _ (a : Authenticator) where
  unfoldable pub session_of : Time → SessionRequest → String → String → JudgeSession
  session_of now q token csrf = record {
    session_hash = a.digest token;
    csrf_hash = a.digest csrf;
    tenant_id = q.tenant_id;
    subject = q.subject;
    role = q.role;
    run_id = q.run_id;
    session_generation = q.generation;
    review_handoff_hash = q.review_handoff_hash;
    expires_at = now + a.ttl * 1000000;
    revoked_at = none;
  }

  -- The session is saved once the role's checks have passed.
  pub opened :
      Time
      → SessionRequest
      → String
      → String
      → Result (Unit {0})
      → Sessions
      → Result Principal × Sessions
  unfolding session_of principal
  opened now q token csrf (err e) s = (err e, s)
  opened now q token csrf (ok _) s =
      (principal (session_of now q token csrf), Sessions.save (session_of now q token csrf) s)

  -- `create_session`, with the two random tokens that it returns.
  unfoldable pub create_session :
      Time → SessionRequest → String → String → Sessions → Result Principal × Sessions
  unfolding opened check_role
  create_session now q token csrf s =
      if not (q.role == "operator" || q.role == "reviewer")
      then (err (authentication_error "invalid judge session role"), s)
      else (let (found, s') =
            if q.role == "reviewer" then Sessions.get_run now q.run_id s else (none, s) in
          opened now q token csrf
            (check_role q.role found q.tenant_id q.generation q.subject q.review_handoff_hash) s')

  pub consume_launch : Time → String → ℕ → Sessions → Bool × Sessions
  consume_launch now client_address limit s =
      Sessions.consume_attempt now (a.keyed "judge-run-launch" client_address) limit
        a.attempt_window s

  unfoldable pub consume_handoff_attempt : Time → String → Sessions → Bool × Sessions
  consume_handoff_attempt now client_address s =
      Sessions.consume_attempt now (a.keyed "review-handoff" client_address) a.attempt_limit
        a.attempt_window s

  -- `session is None or session.revoked_at is not None or session.expires_at <= now`
  pub usable : Time → Option JudgeSession → Bool
  usable now none = false
  usable now (some session) = is_none session.revoked_at && ltb now session.expires_at

  invalid_session : Error
  invalid_session = authentication_error "judge session is invalid or expired"

  -- The session's own tests come before its run is read.
  pub admit : Time → Option JudgeSession → Sessions → Result Principal × Sessions
  unfolding principal usable invalid_session
  admit now none s = (err invalid_session, s)
  admit now (some session) s =
      if not (usable now (some session))
      then (err invalid_session, s)
      else (let (current, s') =
            Sessions.run_is_current now session.run_id session.tenant_id session.session_generation
              s in
          ((if current then principal session else err invalid_session), s'))

  pub authenticate : Time → Option String → Sessions → Result Principal × Sessions
  unfolding admit
  authenticate now none s = (err (authentication_error "judge session cookie required"), s)
  authenticate now (some cookie) s =
      if cookie == ""
      then (err (authentication_error "judge session cookie required"), s)
      else admit now (Sessions.get (a.digest cookie) s) s

  csrf_matches : Option String → Option String → Bool
  csrf_matches (some csrf_hash) (some token) = csrf_hash == a.digest token
  csrf_matches (some csrf_hash) none = false
  csrf_matches none token = false

  unfoldable pub validate_csrf : Principal → Option String → Result (Unit {0})
  unfolding csrf_matches
  validate_csrf p token =
      raise_if (not (csrf_matches p.csrf_hash token))
        (authorization_error "valid CSRF token required")

  revoke_hash : Time → Option String → Sessions → Sessions
  revoke_hash now none s = s
  revoke_hash now (some session_hash) s = Sessions.revoke now session_hash s

  pub revoke : Time → Principal → Sessions → Sessions
  unfolding revoke_hash
  revoke now p s = revoke_hash now p.session_hash s
