-- ===== src/Api/Scope/Independence.antt =====
-- Who may review: src/recallops/api.py.
use recallops.Dict
use recallops.Sessions
use recallops.Sessions.Handoffs.{get_run-found}
use recallops.Workflow.Snapshot.{Time, Uuid}
use recallops.Auth.{Principal, has_role, require}
use recallops.Common.{
  Option, String, ◌≡◌, some, ◌≢◌, none, true, ◌<◌, is_none, ◌||◌, not, leb, false, Bool-cases,
  arith, eq_iff, inl, inr, ap, Bool, ◌!=◌, option_beq, option_eq, nat_eq, string_eq, sym, refl,
}
use recallops.Api.Scope.{
  valid_handoff, other_purpose, evidence_of, involved, carried, in_run, reviewer_scope, scope_of,
  with_handoff,
}
use recallops.Memory.Store.{Store, get_memory}
use recallops.Sessions.{ReviewHandoff, Sessions, JudgeRun, RunStatus}
use recallops.Result.{ok, Result, raise_if->>-eq-ok, >>=-eq-ok, err, ok-injective}
use recallops.Memory.Record.{Memory}
use recallops.Api.{as_forbidden, current_of, still_current, serves, require_role, current_run}

-- The run is the one that the session is bound to: stored, active, unexpired, and of the session's
-- tenant and generation.
pub record OfSession (now : Time) (identity : Principal) (s : Sessions) (run : JudgeRun)
    : Type 0 where
  pub bound :
      (run_id : Uuid) × (identity.run_id ≡ some run_id) × (Dict.get run_id s.runs ≡ some run)
  pub active : run.status ≡ RunStatus.active
  pub unexpired : now < run.expires_at
  pub tenant : run.tenant_id ≡ identity.tenant_id
  pub generation : some run.generation ≡ identity.session_generation

-- What the scope of a review guarantees.
pub record Scoped {F : Type 0} (now : Time) (identity : Principal) (expected : Option String)
    (store : Store F) (s : Sessions) (run : JudgeRun) (h : ReviewHandoff) (m : Memory F)
    : Type 0 where
  pub reviewer : has_role "reviewer" identity.roles ≡ true
  pub carried_handoff :
      (hash : String) × (identity.review_handoff_hash ≡ some hash)
      × (Sessions.get_handoff hash s ≡ some h)
  pub consumed : h.consumed_at ≢ none
  pub unrevoked : h.revoked_at ≡ none
  pub unexpired : now < h.expires_at
  pub as_expected : (purpose : String) → expected ≡ some purpose → h.purpose ≡ purpose
  pub own_run : (h.run_id ≡ run.run_id) × (h.tenant_id ≡ run.tenant_id)
  pub run_of_session : OfSession now identity s run
  pub found : get_memory h.memory_id run.tenant_id store ≡ some m
  pub exact : (m.source_incident_id ≡ some h.workflow_id) × (m.memory_digest ≡ some h.memory_digest)
  pub not_operator : identity.subject ≢ run.operator_subject
  pub not_issuer : identity.subject ≢ h.issued_by_subject
  pub not_observer : m.observed_by ≢ some identity.subject

module _ (now : Time) (identity : Principal) where
  states :
      (expected : Option String) (stated purpose : String)
      → other_purpose expected stated ≡ false
      → expected ≡ some purpose
      → stated ≡ purpose
  unfolding other_purpose
  states none stated purpose agrees is = cc
  states (some p) stated purpose agrees is = ground (arith, eq_iff stated p)

  valid_handoff-ok :
      (expected : Option String) (o : Option ReviewHandoff) (h : ReviewHandoff)
      → valid_handoff now expected o ≡ ok h
      → (o ≡ some h)
        × (h.consumed_at ≢ none)
        × (h.revoked_at ≡ none)
        × (now < h.expires_at)
        × ((purpose : String) → expected ≡ some purpose → h.purpose ≡ purpose)
  unfolding valid_handoff other_purpose
  valid_handoff-ok expected none h done = cc
  valid_handoff-ok expected (some x) h done =
      elim (Bool-cases (
        is_none x.consumed_at
        || not (is_none x.revoked_at)
        || leb x.expires_at now
        || other_purpose expected x.purpose)) [
          | inl failed ↦ absurd (ground arith)
          | inr passed ↦
              let same : x ≡ h = ground arith in
              (
                ap (λ y. some y) same,
                rw (← same) (λ missing. ground (arith, missing)),
                rw (← same) (ground arith),
                rw (← same) (ground arith),
                rw (← same) (λ purpose is. states expected x.purpose purpose (ground arith) is),
              )
        ]

  pub require_role-ok :
      (role : String) {u : Unit {0}}
      → require_role identity role ≡ ok u
      → has_role role identity.roles ≡ true
  unfolding require_role as_forbidden require
  require_role-ok role done = ground arith

  still_current-ok :
      (o : Option JudgeRun) (run : JudgeRun)
      → still_current identity o ≡ ok run
      → (o ≡ some run)
        × (run.status ≡ RunStatus.active)
        × (run.tenant_id ≡ identity.tenant_id)
        × (some run.generation ≡ identity.session_generation)
  unfolding still_current serves
  still_current-ok none run done = cc
  still_current-ok (some x) run done = elim (Bool-cases (serves identity (some x))) [
    | inr fails ↦ absurd (ground arith)
    | inl held ↦
        let same : x ≡ run = ground arith in
        rw (← same) (
          (
            refl,
            ground arith,
            ground (arith, eq_iff x.tenant_id identity.tenant_id),
            (option_eq.beq_iff (some x.generation) identity.session_generation).0 (ground arith),
          ))
  ]

  current_of-ok :
      (o : Option Uuid) (s : Sessions) (run : JudgeRun)
      → (current_of now identity o s).0 ≡ ok run
      → (run_id : Uuid) × (o ≡ some run_id)
        × (still_current identity (Sessions.get_run now run_id s).0 ≡ ok run)
  unfolding current_of
  current_of-ok none s run done = cc
  current_of-ok (some run_id) s run done = (run_id, refl, done)

  pub current_run-ok :
      (s : Sessions) (run : JudgeRun)
      → (current_run now identity s).0 ≡ ok run
      → OfSession now identity s run
  unfolding current_run
  current_run-ok s run done =
      let (run_id, bound, read) = current_of-ok identity.run_id s run done in
      let (found, on, tenant, generation) =
        still_current-ok (Sessions.get_run now run_id s).0 run read in
      let (stored, unexpired) = get_run-found now run_id s run found (ground arith) in
      record {
        bound = (run_id, bound, stored);
        active = on;
        unexpired = unexpired;
        tenant = tenant;
        generation = generation;
      }

carried-ok : (o : Option String) (hash : String) → carried o ≡ ok hash → o ≡ some hash
unfolding carried
carried-ok none hash done = cc
carried-ok (some x) hash done = cc

module _ {F : Type 0} where
  evidence_of-ok :
      (h : ReviewHandoff) (o : Option (Memory F)) (m : Memory F)
      → evidence_of h o ≡ ok m
      → (o ≡ some m)
        × (m.source_incident_id ≡ some h.workflow_id)
        × (m.memory_digest ≡ some h.memory_digest)
  unfolding evidence_of
  evidence_of-ok h none m done = cc
  evidence_of-ok h (some x) m done =
      elim (Bool-cases
        (x.source_incident_id != some h.workflow_id || x.memory_digest != some h.memory_digest)) [
          | inl other ↦ absurd (ground arith)
          | inr exact ↦
              let same : x ≡ m = ground arith in
              rw (← same) (
                (
                  refl,
                  (option_eq.beq_iff x.source_incident_id (some h.workflow_id)).0 (ground arith),
                  (option_eq.beq_iff x.memory_digest (some h.memory_digest)).0 (ground arith),
                ))
        ]

  involved-no :
      (subject : String) (run : JudgeRun) (h : ReviewHandoff) (m : Memory F)
      → involved subject run h m ≡ false
      → (subject ≢ run.operator_subject)
        × (subject ≢ h.issued_by_subject)
        × (m.observed_by ≢ some subject)
  unfolding involved
  involved-no subject run h m free = (
    (λ same. ground (arith, eq_iff subject run.operator_subject, same)),
    (λ same. ground (arith, eq_iff subject h.issued_by_subject, same)),
    (λ same. cc (
      observed (option_beq (some subject) m.observed_by) refl,
      (option_eq.beq_iff (some subject) m.observed_by).1 (sym same),
    )),
  )
    where
      observed : (b : Bool) → option_beq (some subject) m.observed_by ≡ b → b ≡ false
      observed b is = ground arith

  -- The tests that follow the run.
  scope_of-ok :
      (identity : Principal) (h : ReviewHandoff) (store : Store F) (current run : JudgeRun)
      (h' : ReviewHandoff) (m : Memory F)
      → scope_of identity h store current ≡ ok (run, h', m)
      → (current ≡ run)
        × (h ≡ h')
        × (h.run_id ≡ current.run_id)
        × (h.tenant_id ≡ current.tenant_id)
        × (evidence_of h (get_memory h.memory_id current.tenant_id store) ≡ ok m)
        × (involved identity.subject current h m ≡ false)
  unfolding scope_of
  scope_of-ok identity h store current run h' m done =
      let (owned, after) =
        raise_if->>-eq-ok (h.run_id != current.run_id || h.tenant_id != current.tenant_id) _ _
          done in
      let (x, found, next) =
        >>=-eq-ok (evidence_of h (get_memory h.memory_id current.tenant_id store)) _ after in
      let (free, made) = raise_if->>-eq-ok (involved identity.subject current h x) _ _ next in
      let triple = ok-injective made in
      let same : x ≡ m = ap (λ (t : JudgeRun × ReviewHandoff × Memory F). t.2) triple in
      (
        ap (λ (t : JudgeRun × ReviewHandoff × Memory F). t.0) triple,
        ap (λ (t : JudgeRun × ReviewHandoff × Memory F). t.1) triple,
        ground (arith, eq_iff h.run_id current.run_id),
        ground (arith, eq_iff h.tenant_id current.tenant_id),
        rw (← same) found,
        rw (← same) free,
      )

  in_run-ok :
      (identity : Principal) (h : ReviewHandoff) (store : Store F) (o : Result JudgeRun)
      (s : Sessions) (t : JudgeRun × ReviewHandoff × Memory F)
      → (in_run identity h store (o, s)).0 ≡ ok t
      → (current : JudgeRun) × (o ≡ ok current) × (scope_of identity h store current ≡ ok t)
  unfolding in_run
  in_run-ok identity h store (err e) s t done = cc
  in_run-ok identity h store (ok current) s t done = (current, refl, done)

  with_handoff-ok :
      (now : Time) (identity : Principal) (store : Store F) (o : Result ReviewHandoff)
      (s : Sessions) (t : JudgeRun × ReviewHandoff × Memory F)
      → (with_handoff now identity store o s).0 ≡ ok t
      → (h : ReviewHandoff) × (current : JudgeRun) × (o ≡ ok h)
        × ((current_run now identity s).0 ≡ ok current)
        × (scope_of identity h store current ≡ ok t)
  unfolding with_handoff
  with_handoff-ok now identity store (err e) s t done = cc
  with_handoff-ok now identity store (ok h) s t done =
      let found =
        in_run-ok identity h store (current_run now identity s).0 (current_run now identity s).1 t
          done in
      (h, found.0, refl, found.1, found.2)

  -- The scope of a review is given only to a reviewer whose session carries a stored handoff
  -- that is consumed, unrevoked, unexpired and for the purpose asked for; the run is the one that the
  -- session is bound to, stored, active, unexpired and of the session's tenant and generation, and it is
  -- the handoff's run; the memory is the exact one that the handoff names, by its incident
  -- and its digest; and the reviewer is neither the run's operator, nor who issued the handoff, nor who
  -- observed the memory.
  pub reviewer_scope_sound :
      (now : Time) (identity : Principal) (expected : Option String) (store : Store F)
      (s : Sessions) (run : JudgeRun) (h : ReviewHandoff) (m : Memory F)
      → (reviewer_scope now identity expected store s).0 ≡ ok (run, h, m)
      → Scoped now identity expected store s run h m
  unfolding reviewer_scope
  reviewer_scope_sound now identity expected store s run h m done =
      let (h0, current, checked, read, scoped) =
        with_handoff-ok now identity store _ s (run, h, m) done in
      let (u, allowed, after) = >>=-eq-ok (require_role identity "reviewer") _ checked in
      let (hash, carrying, valid) = >>=-eq-ok (carried identity.review_handoff_hash) _ after in
      let (stored, consumed, unrevoked, unexpired, stated) =
        valid_handoff-ok now identity expected (Sessions.get_handoff hash s) h0 valid in
      let (same_run, same_handoff, own, own_tenant, evidence, free) =
        scope_of-ok identity h0 store current run h m scoped in
      let (found, source, digest) =
        evidence_of-ok h0 (get_memory h0.memory_id current.tenant_id store) m evidence in
      let (not_operator, not_issuer, not_observer) =
        involved-no identity.subject current h0 m free in
      rw (← same_run) (
        rw (← same_handoff) (record {
          reviewer = require_role-ok now identity "reviewer" allowed;
          carried_handoff = (hash, carried-ok identity.review_handoff_hash hash carrying, stored);
          consumed = consumed;
          unrevoked = unrevoked;
          unexpired = unexpired;
          as_expected = stated;
          own_run = (own, own_tenant);
          run_of_session = current_run-ok now identity s current read;
          found = found;
          exact = (source, digest);
          not_operator = not_operator;
          not_issuer = not_issuer;
          not_observer = not_observer;
        }))
