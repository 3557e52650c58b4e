-- ===== src/Auth/Identity.antt =====
-- Who is let in: src/recallops/auth.py.
use recallops.Sessions
use recallops.Dict
use recallops.Auth.{
  Authenticator, SessionRequest, admit, authenticate, principal, Principal, usable, principal_of,
  check_role, create_session, opened, run_mismatch, session_of, operates, validate_csrf,
  csrf_matches,
}
use recallops.Workflow.Snapshot.{Time, Uuid}
use recallops.Common.{
  String, ◌≡◌, Option, some, ◌⊎◌, none, Bool-cases, arith, ◌<◌, true, ◌==◌, ◌≢◌, inl, refl, inr,
  string_eq, if◌then◌else◌, ℕ, ◌||◌, ap, eq_iff, subst, nat_eq, ltb, sym, ◌+◌, ◌*◌, ◌∙◌, some-eq,
  ==_refl, ==_ne,
}
use recallops.Sessions.{
  Sessions, JudgeSession, run_is_current, JudgeRun, get_run, RunStatus, reset_run,
}
use recallops.Result.{ok, Result, err}
use recallops.Sessions.Current.{run_is_current-found, get-save, run_is_current-holds}
use recallops.Sessions.Runs.{reset_run-Closed}

-- What stands behind an accepted cookie.
pub record Backed (a : Authenticator) (now : Time) (cookie : String) (s : Sessions)
    (session : JudgeSession) (run : JudgeRun) : Type 0 where
  pub stored : Sessions.get (a.digest cookie) s ≡ some session
  pub unrevoked : session.revoked_at ≡ none
  pub unexpired : now < session.expires_at
  pub run_stored : Dict.get session.run_id s.runs ≡ some run
  pub run_active : run.status ≡ RunStatus.active
  pub run_unexpired : now < run.expires_at
  pub same_tenant : run.tenant_id ≡ session.tenant_id
  pub same_generation : run.generation ≡ session.session_generation

module _ (a : Authenticator) (now : Time) where
  pub principal-ok :
      (session : JudgeSession) (p : Principal) → principal session ≡ ok p → p ≡ principal_of session
  unfolding principal
  principal-ok session p made = ground arith

  admit-ok :
      (o : Option JudgeSession) (s : Sessions) (p : Principal)
      → (admit a now o s).0 ≡ ok p
      → (session : JudgeSession) × (o ≡ some session)
        × (session.revoked_at ≡ none)
        × (now < session.expires_at)
        × ((run_is_current now session.run_id session.tenant_id session.session_generation s).0
            ≡ true)
        × (principal session ≡ ok p)
  unfolding admit usable
  admit-ok none s p done = cc
  admit-ok (some session) s p done =
      (session, refl, ground arith, ground arith, ground arith, ground arith)

  -- A cookie is accepted only with a stored session that is neither revoked nor expired and whose run is
  -- stored, active and unexpired and of the session's tenant and generation; the principal is then the
  -- session's: it has the session's role, and an operator has the agent's as well.
  pub authenticate_sound :
      (cookie : String) (s : Sessions) (p : Principal)
      → (authenticate a now (some cookie) s).0 ≡ ok p
      → (session : JudgeSession) × (run : JudgeRun) × Backed a now cookie s session run
        × (p ≡ principal_of session)
  unfolding authenticate
  authenticate_sound cookie s p done = elim (Bool-cases (cookie == "")) [
    | inl empty ↦ absurd (ground arith)
    | inr given ↦
        let (session, found, unrevoked, unexpired, current, made) =
          admit-ok (Sessions.get (a.digest cookie) s) s p (rw given at done) in
        let (run, _, stored, on, tenant, generation, live) =
          run_is_current-found now s session.run_id session.tenant_id session.session_generation
            (get_run now session.run_id s).0 refl current in
        (
          session,
          run,
          record {
            stored = found;
            unrevoked = unrevoked;
            unexpired = unexpired;
            run_stored = stored;
            run_active = ground arith;
            run_unexpired = live;
            same_tenant = tenant;
            same_generation = generation;
          },
          principal-ok session p made,
        )
  ]

  -- What a new session stands for.
  pub record Grants (q : SessionRequest) (s : Sessions) : Type 0 where
    pub role_known : (q.role ≡ "operator") ⊎ (q.role ≡ "reviewer")
    pub operator_plain : q.role ≡ "operator" → q.review_handoff_hash ≡ none
    pub reviewer_bound :
        q.role ≡ "reviewer"
        → (run : JudgeRun) × ((get_run now q.run_id s).0 ≡ some run)
          × (run.tenant_id ≡ q.tenant_id)
          × (run.generation ≡ q.generation)
          × (run.operator_subject ≢ q.subject)
          × (q.review_handoff_hash ≢ none)

  abbrev found_run : SessionRequest → Sessions → Option JudgeRun × Sessions
  found_run q s = if q.role == "reviewer" then Sessions.get_run now q.run_id s else (none, s)

  opened-ok :
      (q : SessionRequest) (token csrf : String) (checks : Result (Unit {0})) (s : Sessions)
      (p : Principal)
      → (opened a now q token csrf checks s).0 ≡ ok p
      → (checks ≡ ok tt)
        × (opened a now q token csrf checks s
            ≡ (ok p, Sessions.save (session_of a now q token csrf) s))
        × (principal (session_of a now q token csrf) ≡ ok p)
  unfolding opened
  opened-ok q token csrf (err e) s p done = cc
  opened-ok q token csrf (ok _) s p done =
      (refl, ap (λ o. (o, Sessions.save (session_of a now q token csrf) s)) done, done)

  check_role-reviewer :
      (found : Option JudgeRun) (tenant_id : String) (generation : ℕ) (subject : String)
      (handoff_hash : Option String) {u : Unit {0}}
      → check_role "reviewer" found tenant_id generation subject handoff_hash ≡ ok u
      → (run : JudgeRun) × (found ≡ some run)
        × (run.tenant_id ≡ tenant_id)
        × (run.generation ≡ generation)
        × (run.operator_subject ≢ subject)
        × (handoff_hash ≢ none)
  unfolding check_role run_mismatch operates
  check_role-reviewer none tenant_id generation subject handoff_hash done = cc
  check_role-reviewer (some run) tenant_id generation subject handoff_hash done = (
    run,
    refl,
    ground (arith, eq_iff run.tenant_id tenant_id),
    ground (arith, nat_eq.beq_iff run.generation generation),
    (λ same. ground (arith, eq_iff run.operator_subject subject, same)),
    (λ missing. ground (arith, missing)),
  )

  check_role-operator :
      (found : Option JudgeRun) (tenant_id : String) (generation : ℕ) (subject : String)
      (handoff_hash : Option String) {u : Unit {0}}
      → check_role "operator" found tenant_id generation subject handoff_hash ≡ ok u
      → handoff_hash ≡ none
  unfolding check_role
  check_role-operator found tenant_id generation subject none done = refl
  check_role-operator found tenant_id generation subject (some h) done = cc

  known_role :
      (role : String)
      → (role == "operator" || role == "reviewer") ≡ true
      → (role ≡ "operator") ⊎ (role ≡ "reviewer")
  known_role role known = elim (Bool-cases (role == "operator")) [
    | inl operator ↦ inl ((eq_iff role "operator").0 operator)
    | inr other ↦ inr (ground (arith, eq_iff role "reviewer"))
  ]

  found_run-reviewer :
      (q : SessionRequest) (s : Sessions)
      → q.role ≡ "reviewer"
      → found_run q s ≡ Sessions.get_run now q.run_id s
  found_run-reviewer q s is = rw ((eq_iff q.role "reviewer").1 is) refl

  -- A session is created only for an operator without a handoff, or for a reviewer with the hash of one
  -- whose subject is not the operator of the run, which is stored with the tenant and generation asked
  -- for; the session is then stored under the digest of its token, and its principal is returned.
  pub create_session_sound :
      (q : SessionRequest) (token csrf : String) (s : Sessions) (p : Principal)
      → (create_session a now q token csrf s).0 ≡ ok p
      → Grants q s
        × (principal (session_of a now q token csrf) ≡ ok p)
        × (create_session a now q token csrf s
            ≡ (ok p, Sessions.save (session_of a now q token csrf) (found_run q s).1))
  unfolding create_session
  create_session_sound q token csrf s p done =
      elim (Bool-cases (q.role == "operator" || q.role == "reviewer")) [
        | inr other ↦ absurd (ground arith)
        | inl known ↦
            let checks =
              check_role q.role (found_run q s).0 q.tenant_id q.generation q.subject
                q.review_handoff_hash in
            let (passed, made, whose) =
              opened-ok q token csrf checks (found_run q s).1 p (rw known at done) in
            (
              record {
                role_known = known_role q.role known;
                operator_plain = λ is.
                    check_role-operator (found_run q s).0 q.tenant_id q.generation q.subject
                      q.review_handoff_hash
                      (subst
                        (λ r.
                          check_role r (found_run q s).0 q.tenant_id q.generation q.subject
                            q.review_handoff_hash
                          ≡ ok tt)
                        is passed);
                reviewer_bound = λ is.
                    let (run, found, tenant, generation, differ, handed) =
                      check_role-reviewer (found_run q s).0 q.tenant_id q.generation q.subject
                        q.review_handoff_hash
                        (subst
                          (λ r.
                            check_role r (found_run q s).0 q.tenant_id q.generation q.subject
                              q.review_handoff_hash
                            ≡ ok tt)
                          is passed) in
                    (
                      run,
                      ap (λ (o : Option JudgeRun × Sessions). o.0) (sym (found_run-reviewer q s is))
                          ∙ found,
                      tenant,
                      generation,
                      differ,
                      handed,
                    );
              },
              whose,
              rw known made,
            )
      ]

-- The session that a cookie stands for lets it in while its run is current.
admit-lets_in :
    (a : Authenticator) (now : Time) (session : JudgeSession) (s : Sessions) (p : Principal)
    → session.revoked_at ≡ none
    → now < session.expires_at
    → (run_is_current now session.run_id session.tenant_id session.session_generation s).0 ≡ true
    → principal session ≡ ok p
    → (admit a now (some session) s).0 ≡ ok p
unfolding admit usable
admit-lets_in a now session s p unrevoked unexpired current made =
    rw unrevoked
      (let live : ltb now session.expires_at ≡ true = ground arith in rw live (rw current made))

csrf-accepted :
    (a : Authenticator) (session : JudgeSession) (p : Principal) (csrf : String)
    → session.csrf_hash ≡ a.digest csrf
    → p ≡ principal_of session
    → validate_csrf a p (some csrf) ≡ ok tt
unfolding validate_csrf csrf_matches principal_of
csrf-accepted a session p csrf same whose = rw whose (rw same (rw (==_refl (a.digest csrf)) refl))

-- In the tables that the creation of a session leaves, its token is let in, as the principal that was
-- returned, at any time before its lifetime is over, if the run there is active, unexpired and of its
-- tenant and generation; and its second token passes the check against forged requests. The first token is
-- not empty.
pub create_session-authenticate :
    (a : Authenticator) (now later : Time) (q : SessionRequest) (token csrf : String)
    (s s' : Sessions) (p : Principal) (run : JudgeRun)
    → create_session a now q token csrf s ≡ (ok p, s')
    → token ≢ ""
    → later < now + a.ttl * 1000000
    → Dict.get q.run_id s'.runs ≡ some run
    → run.status ≡ RunStatus.active
    → run.tenant_id ≡ q.tenant_id
    → run.generation ≡ q.generation
    → later < run.expires_at
    → ((authenticate a later (some token) s').0 ≡ ok p) × (validate_csrf a p (some csrf) ≡ ok tt)
unfolding authenticate session_of
create_session-authenticate a now later q token csrf s s' p run done nonempty early stored on tenant
      generation live =
    let (grants, whose, made) =
      create_session_sound a now q token csrf s p
        (ap (λ (o : Result Principal × Sessions). o.0) done) in
    let session = session_of a now q token csrf in
    let (filed, runs) = get-save session (found_run a now q s).1 in
    let state : s' ≡ Sessions.save session (found_run a now q s).1 =
      ap (λ (o : Result Principal × Sessions). o.1) (sym done ∙ made) in
    let found : Sessions.get (a.digest token) s' ≡ some session = rw state filed in
    let current =
      run_is_current-holds later s' q.run_id q.tenant_id q.generation run stored on tenant
        generation live in
    (
      rw (==_ne token "" nonempty)
          (rw found (admit-lets_in a later session s' p refl early current whose)),
      csrf-accepted a session p csrf refl (principal-ok a now session p whose),
    )

-- In the tables that a reset of a run leaves, no cookie is let in for that run, at any later time:
-- whoever is let in is in another run.
pub reset_run-authenticate :
    (a : Authenticator) (now later : Time) (run_id : Uuid) (cookie : String) (s : Sessions)
    (p : Principal)
    → (reset_run now run_id s).0 ≡ true
    → (authenticate a later (some cookie) (reset_run now run_id s).1).0 ≡ ok p
    → p.run_id ≢ some run_id
unfolding principal_of
reset_run-authenticate a now later run_id cookie s p done accepted same =
    let closed = reset_run-Closed now run_id s done in
    let (session, run, backed, whose) =
      authenticate_sound a later cookie (reset_run now run_id s).1 p accepted in
    let own : session.run_id ≡ run_id =
      some-eq (sym (ap (λ (x : Principal). x.run_id) whose) ∙ same) in
    let revoked = closed.sessions_revoked (a.digest cookie) session backed.stored own in
    cc (revoked, backed.unrevoked)
