-- ===== src/Api.antt =====
-- The guards of the endpoints in src/recallops/api.py, for `auth_mode == "judge"`: the authenticator is
-- then a `JudgeSessionAuthenticator`, so its `isinstance` tests pass. A response's headers and cookies
-- are not modelled. The clock inside one request shows one time.
pub mod Tests
pub mod Exchange
pub mod Handoff
pub mod Idempotency
pub mod Scope
use recallops.Sessions
use recallops.Auth
use recallops.Common.{
  Option, String, Bool, if◌then◌else◌, some, ℕ, before_code, false, none, ◌!=◌, option_eq,
  string_eq, ◌==◌, ◌&&◌, nat_eq,
}
use recallops.Result.{
  Error, Result, authentication_error, authorization_error, err, http_error, raise_if, ◌>>◌, ok,
}
use recallops.Auth.{Principal, require, Authenticator, validate_csrf}
use recallops.Workflow.Snapshot.{Time, Uuid}
use recallops.Sessions.{JudgeRun, Sessions, is_active}

-- What the guards read of a request: two headers, the path, and the cookies of the two roles.
pub record Request : Type 0 where
  pub origin : Option String
  pub content_type : String
  pub reviewer_path : Bool
  pub operator_cookie : Option String
  pub reviewer_cookie : Option String
  pub client_host : Option String

-- What the application is configured with.
pub record Settings : Type 0 where
  pub public_origin : String
  pub handoff_ttl_seconds : ℕ
  pub authenticator : Authenticator

-- `request.client.host if request.client is not None else "unknown"`
pub address_of : Request → String
address_of r = elim r.client_host [ some host ↦ host | none ↦ "unknown" ]

-- The cookie is chosen by the route alone.
pub role_cookie : Request → Option String
role_cookie r = if r.reviewer_path then r.reviewer_cookie else r.operator_cookie

-- `except AuthenticationError as error: raise HTTPException(401, str(error))`
unauthenticated : Error → Error
unauthenticated (authentication_error text) = http_error 401 text
unauthenticated e = e

as_unauthenticated : Result Principal → Result Principal
unfolding unauthenticated
as_unauthenticated (err e) = err (unauthenticated e)
as_unauthenticated (ok p) = ok p

-- `except AuthorizationError as error: raise HTTPException(403, str(error))`
forbidden : Error → Error
forbidden (authorization_error text) = http_error 403 text
forbidden e = e

as_forbidden : Result (Unit {0}) → Result (Unit {0})
unfolding forbidden
as_forbidden (err e) = err (forbidden e)
as_forbidden (ok u) = ok u

unfoldable pub require_role : Principal → String → Result (Unit {0})
unfolding as_forbidden
require_role identity role = as_forbidden (require role identity)

module _ (st : Settings) where
  pub identify : Time → Request → Sessions → Result Principal × Sessions
  unfolding as_unauthenticated role_cookie
  identify now r s =
      let (o, s') = Auth.authenticate st.authenticator now (role_cookie r) s in
      (as_unauthenticated o, s')

  unfoldable pub require_origin : Request → Result (Unit {0})
  require_origin r =
      raise_if (r.origin != some st.public_origin) (http_error 403 "trusted Origin required")

  unfoldable pub require_json : Request → Result (Unit {0})
  require_json r =
      raise_if (before_code b';' r.content_type != "application/json")
        (http_error 415 "JSON required")

  pub require_protected_request : Request → Principal → Option String → Result (Unit {0})
  unfolding as_forbidden require_origin
  require_protected_request r identity csrf_token = do
    require_origin r
    as_forbidden (validate_csrf st.authenticator identity csrf_token)

  -- `logout_judge_session`, behind the authenticated principal
  pub logout_judge_session :
      Time → Request → Principal → Option String → Sessions → Result (Unit {0}) × Sessions
  unfolding require_protected_request
  logout_judge_session now r identity csrf_token s =
      elim (require_protected_request r identity csrf_token) [
        | err e ↦ (err e, s)
        | ok _ ↦ (ok tt, Auth.revoke st.authenticator now identity s)
      ]

-- `run is None or run.tenant_id != … or run.generation != … or run.status != "active"`
pub serves : Principal → Option JudgeRun → Bool
serves identity none = false
serves identity (some run) =
    run.tenant_id == identity.tenant_id
    && some run.generation == identity.session_generation
    && is_active run

inactive_run : Error
inactive_run = http_error 409 "judge run is no longer active"

still_current : Principal → Option JudgeRun → Result JudgeRun
unfolding serves inactive_run
still_current identity none = err inactive_run
still_current identity (some run) = if serves identity (some run) then ok run else err inactive_run

current_of : Time → Principal → Option Uuid → Sessions → Result JudgeRun × Sessions
unfolding still_current
current_of now identity none s = (err (http_error 409 "session is not bound to a judge run"), s)
current_of now identity (some run_id) s =
    let (found, s') = Sessions.get_run now run_id s in (still_current identity found, s')

pub current_run : Time → Principal → Sessions → Result JudgeRun × Sessions
unfolding current_of
current_run now identity s = current_of now identity identity.run_id s
