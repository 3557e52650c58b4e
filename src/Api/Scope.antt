-- ===== src/Api/Scope.antt =====
-- `reviewer_scope` of
-- src/recallops/api.py, over the in-memory store and workflow repository. A handoff's purpose is the
-- value of `HandoffPurpose`.
pub mod Independence
use recallops.Sessions
use recallops.Result.{Error, Result, http_error, err, ◌>>◌, ok, raise_if, ◌>>=◌}
use recallops.Common.{
  Option, String, Bool, false, ◌==◌, some, ◌||◌, if◌then◌else◌, none, string_eq, ◌!=◌, is_none,
  option_eq, not, leb,
}
use recallops.Workflow.Snapshot.{Time}
use recallops.Sessions.{ReviewHandoff, JudgeRun, Sessions}
use recallops.Auth.{Principal}
use recallops.Memory.Record.{Memory}
use recallops.Memory.Store.{Store, get_memory}
use recallops.Api.{require_role, current_run}

invalid_scope : Error
invalid_scope = http_error 403 "reviewer handoff is no longer valid"

not_found : Error
not_found = http_error 404 "review evidence not found"

-- `expected_purpose is not None and handoff.purpose != expected_purpose.value`
other_purpose : Option String → String → Bool
other_purpose none purpose = false
other_purpose (some expected) purpose = purpose != expected

-- The tests on the handoff that the session carries.
valid_handoff : Time → Option String → Option ReviewHandoff → Result ReviewHandoff
unfolding invalid_scope other_purpose
valid_handoff now expected none = err invalid_scope
valid_handoff now expected (some h) =
    if is_none h.consumed_at
      || not (is_none h.revoked_at)
      || leb h.expires_at now
      || other_purpose expected h.purpose
    then err invalid_scope
    else ok h

carried : Option String → Result String
carried none = err (http_error 403 "reviewer handoff authority required")
carried (some hash) = ok hash

module _ {F : Type 0} where
  -- The tests on the memory that the handoff names.
  evidence_of : ReviewHandoff → Option (Memory F) → Result (Memory F)
  unfolding not_found
  evidence_of h none = err not_found
  evidence_of h (some m) =
      if m.source_incident_id != some h.workflow_id || m.memory_digest != some h.memory_digest
      then err not_found
      else ok m

  -- `identity.subject in {run.operator_subject, handoff.issued_by_subject, memory.observed_by}`
  involved : String → JudgeRun → ReviewHandoff → Memory F → Bool
  involved subject run h m =
      subject == run.operator_subject
      || subject == h.issued_by_subject
      || some subject == m.observed_by

  -- The tests after the run has been read.
  scope_of :
      Principal → ReviewHandoff → Store F → JudgeRun → Result (JudgeRun × ReviewHandoff × Memory F)
  unfolding not_found evidence_of involved
  scope_of identity h store run = do
    raise_if (h.run_id != run.run_id || h.tenant_id != run.tenant_id) not_found
    m ← evidence_of h (get_memory h.memory_id run.tenant_id store)
    raise_if (involved identity.subject run h m) (http_error 403 "independent reviewer required")
    ok (run, h, m)

  in_run :
      Principal
      → ReviewHandoff
      → Store F
      → Result JudgeRun × Sessions
      → Result (JudgeRun × ReviewHandoff × Memory F) × Sessions
  unfolding scope_of
  in_run identity h store (err e, s) = (err e, s)
  in_run identity h store (ok run, s) = (scope_of identity h store run, s)

  with_handoff :
      Time
      → Principal
      → Store F
      → Result ReviewHandoff
      → Sessions
      → Result (JudgeRun × ReviewHandoff × Memory F) × Sessions
  unfolding in_run
  with_handoff now identity store (err e) s = (err e, s)
  with_handoff now identity store (ok h) s = in_run identity h store (current_run now identity s)

  -- The handoff is read from the table before the run, which may expire when it is read.
  unfoldable pub reviewer_scope :
      Time
      → Principal
      → Option String
      → Store F
      → Sessions
      → Result (JudgeRun × ReviewHandoff × Memory F) × Sessions
  unfolding with_handoff valid_handoff carried
  reviewer_scope now identity expected store s =
      with_handoff now identity store
        (do
          require_role identity "reviewer"
          hash ← carried identity.review_handoff_hash
          valid_handoff now expected (Sessions.get_handoff hash s))
        s
