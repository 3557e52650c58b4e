-- ===== src/Api/Handoff/Issue.antt =====
-- What stands behind an issued handoff: src/recallops/api.py.
use recallops.Sessions
use recallops.Api.{Settings, current_run, Request, require_protected_request, require_role}
use recallops.Workflow.Snapshot.{Time}
use recallops.Auth.{Principal, has_role}
use recallops.Common.{
  ◌+◌, ◌*◌, String, Option, ◌≡◌, none, some, true, arith, eq_iff, refl, sym, ◌∙◌, ap, subst,
}
use recallops.Workflow.InMemory.{Workflows}
use recallops.Api.Handoff.{
  checked_target, issue, same_digest, stored_handoff, handoff_of, review_target,
  create_reviewer_handoff, in_run, permitted,
}
use recallops.Memory.Store.{Store}
use recallops.Sessions.{JudgeRun, ReviewHandoff, Sessions}
use recallops.Result.{Result, ok, err, >>=-eq-ok, ok-injective, ◌>>◌}
use recallops.Memory.Record.{Memory}
use recallops.Sessions.Handoffs.{save_handoff-get}
use recallops.Api.Scope.Independence.{require_role-ok, OfSession, current_run-ok}
use recallops.Api.Handoff.Ready.{Ready, review_target-Ready}

-- The handoff is open, and made for this evidence by this operator.
pub record Names {F : Type 0} (st : Settings) (now : Time) (identity : Principal)
    (purpose digest code : String) (run : JudgeRun) (m : Memory F) (h : ReviewHandoff)
    : Type 0 where
  pub named : h.code_hash ≡ st.authenticator.digest code
  pub own_run : (h.run_id ≡ run.run_id) × (h.tenant_id ≡ run.tenant_id)
  pub own_incident : h.workflow_id ≡ run.source_incident_id
  pub own_memory : (h.memory_id ≡ m.id) × (h.memory_digest ≡ digest)
  pub purposed : h.purpose ≡ purpose
  pub issuer : h.issued_by_subject ≡ identity.subject
  pub expiring : h.expires_at ≡ now + st.handoff_ttl_seconds * 1000000
  pub unused : (h.consumed_at ≡ none) × (h.revoked_at ≡ none)

-- The handoff is new, stored under its code's digest, and made for evidence that is ready.
pub record Issued {F : Type 0} (st : Settings) (now : Time) (identity : Principal)
    (purpose digest code : String) (workflows : Workflows) (store : Store F) (s s' : Sessions)
    (h : ReviewHandoff) (run : JudgeRun) (m : Memory F) : Type 0 where
  pub operator : has_role "operator" identity.roles ≡ true
  pub current : OfSession now identity s run
  pub target : Ready now run purpose workflows store m
  pub exact : m.memory_digest ≡ some digest
  pub handoff : Names st now identity purpose digest code run m h
  pub fresh :
      Sessions.get_handoff (st.authenticator.digest code) (current_run now identity s).1 ≡ none
  pub stored : Sessions.get_handoff (st.authenticator.digest code) s' ≡ some h

stored_handoff-ok :
    (h x : ReviewHandoff) (o : Result (Unit {0})) (s : Sessions)
    → (stored_handoff h (o, s)).0 ≡ ok x
    → (o ≡ ok tt) × (h ≡ x) × ((stored_handoff h (o, s)).1 ≡ s)
unfolding stored_handoff
stored_handoff-ok h x (err e) s done = cc
stored_handoff-ok h x (ok _) s done = (refl, ok-injective done, refl)

same_digest-ok :
    (digest : String) (o : Option String) {u : Unit {0}}
    → same_digest digest o ≡ ok u
    → o ≡ some digest
unfolding same_digest
same_digest-ok digest none done = cc
same_digest-ok digest (some d) done = ground (arith, eq_iff digest d)

module _ {F : Type 0} (st : Settings) (now : Time) (identity : Principal)
    (purpose digest code : String) where
  issue-ok :
      (run : JudgeRun) (o : Result (Memory F)) (s : Sessions) (h : ReviewHandoff)
      → (issue st now identity run purpose digest code o s).0 ≡ ok h
      → (m : Memory F) × (o ≡ ok m)
        × (h ≡ handoff_of st now identity run purpose digest m code)
        × (Sessions.get_handoff (st.authenticator.digest code) s ≡ none)
        × (Sessions.get_handoff
              (st.authenticator.digest code)
              (issue st now identity run purpose digest code o s).1
            ≡ some h)
  unfolding issue handoff_of
  issue-ok run (err e) s h done = cc
  issue-ok run (ok m) s h done =
      let made = handoff_of st now identity run purpose digest m code in
      let (saved, same, state) =
        stored_handoff-ok made h (Sessions.save_handoff made s).0 (Sessions.save_handoff made s).1
          done in
      let (fresh, found) = save_handoff-get made s saved in
      (m, refl, sym same, fresh, rw state (found ∙ ap (λ y. some y) same))

  checked_target-ok :
      (run : JudgeRun) (workflows : Workflows) (store : Store F) (m : Memory F)
      → checked_target st now run purpose digest workflows store ≡ ok m
      → (review_target now run purpose workflows store ≡ ok m) × (m.memory_digest ≡ some digest)
  unfolding checked_target
  checked_target-ok run workflows store m done =
      let (x, target, after) = >>=-eq-ok (review_target now run purpose workflows store) _ done in
      let (u, same, made) = >>=-eq-ok (same_digest digest x.memory_digest) _ after in
      let is : x ≡ m = ok-injective made in
      rw (← is) ((target, same_digest-ok digest x.memory_digest same))

  in_run-ok :
      (workflows : Workflows) (store : Store F) (o : Result JudgeRun) (s : Sessions)
      (h : ReviewHandoff)
      → (in_run st now identity purpose digest code workflows store (o, s)).0 ≡ ok h
      → (run : JudgeRun) × (o ≡ ok run)
        × (in_run st now identity purpose digest code workflows store (o, s)
            ≡ issue st now identity run purpose digest code
                (checked_target st now run purpose digest workflows store)
                s)
  unfolding in_run
  in_run-ok workflows store (err e) s h done = cc
  in_run-ok workflows store (ok run) s h done = (run, refl, refl)

  permitted-ok :
      (workflows : Workflows) (store : Store F) (o : Result (Unit {0})) (s : Sessions)
      (h : ReviewHandoff)
      → (permitted st now identity purpose digest code workflows store o s).0 ≡ ok h
      → (o ≡ ok tt)
        × (permitted st now identity purpose digest code workflows store o s
            ≡ in_run st now identity purpose digest code workflows store
                (current_run now identity s))
  unfolding permitted
  permitted-ok workflows store (err e) s h done = cc
  permitted-ok workflows store (ok _) s h done = (refl, refl)

  handoff_of-Names :
      (run : JudgeRun) (m : Memory F)
      → Names st now identity purpose digest code run m
          (handoff_of st now identity run purpose digest m code)
  unfolding handoff_of
  handoff_of-Names run m = record {
    named = refl;
    own_run = (refl, refl);
    own_incident = refl;
    own_memory = (refl, refl);
    purposed = refl;
    issuer = refl;
    expiring = refl;
    unused = (refl, refl);
  }

  -- A handoff is issued only to an operator, in the run of the session, which is stored, active and
  -- unexpired, for the stored memory of the run's incident, whose digest the operator named. The incident's
  -- workflow is active; both are pending review for an initial review, and otherwise the workflow is
  -- reviewed and the memory active; for a revocation the memory is valid, unexpired, not superseded and not
  -- revoked. The handoff's code was new; it is stored under the digest of its code, unconsumed and
  -- unrevoked, for the configured time, and names the run, tenant, incident, memory, digest, purpose and
  -- issuer.
  pub create_reviewer_handoff_sound :
      (r : Request) (csrf_token : Option String) (workflows : Workflows) (store : Store F)
      (s : Sessions) (h : ReviewHandoff)
      → (create_reviewer_handoff st now r identity csrf_token purpose digest code workflows store
          s).0
        ≡ ok h
      → (run : JudgeRun) × (m : Memory F) × Issued st now identity purpose digest code workflows
          store s
          (create_reviewer_handoff st now r identity csrf_token purpose digest code workflows store
            s).1
          h
          run
          m
  unfolding create_reviewer_handoff
  create_reviewer_handoff_sound r csrf_token workflows store s h done =
      let guards : Result (Unit {0}) = (do
        require_protected_request st r identity csrf_token
        require_role identity "operator") in
      let (passed, first) = permitted-ok workflows store guards s h done in
      let after = current_run now identity s in
      let inner : (in_run st now identity purpose digest code workflows store after).0 ≡ ok h =
        ap (λ (o : Result ReviewHandoff × Sessions). o.0) (sym first) ∙ done in
      let (run, read, second) = in_run-ok workflows store after.0 after.1 h inner in
      let whole = first ∙ second in
      let (m, checked, made, fresh, stored) =
        issue-ok run (checked_target st now run purpose digest workflows store) after.1 h
          (ap (λ (o : Result ReviewHandoff × Sessions). o.0) (sym whole) ∙ done) in
      let (target, exact) = checked_target-ok run workflows store m checked in
      let (u, protected, allowed) =
        >>=-eq-ok (require_protected_request st r identity csrf_token) _ passed in
      let kept =
        subst (λ (t : Sessions). Sessions.get_handoff (st.authenticator.digest code) t ≡ some h)
          (ap (λ (o : Result ReviewHandoff × Sessions). o.1) (sym whole)) stored in
      (
        run,
        m,
        record {
          operator = require_role-ok now identity "operator" allowed;
          current = current_run-ok now identity s run read;
          target = review_target-Ready now purpose run workflows store m target;
          exact = exact;
          handoff =
              subst (Names st now identity purpose digest code run m) (sym made)
                (handoff_of-Names run m);
          fresh = fresh;
          stored = kept;
        },
      )
