-- ===== src/Api/Exchange/Review.antt =====
-- What an exchanged handoff gives, and that it is exchanged once.
use recallops.Sessions
use recallops.Auth
use recallops.Api.{Settings, Request, address_of, require_origin, require_json}
use recallops.Workflow.Snapshot.{Time}
use recallops.Api.Exchange.{
  Draws, answer, open_review, reviewer_subject_of, Exchanged, reviewer_request, limited, redeemed,
  exchange_reviewer_handoff, valid_code, exchange_code,
}
use recallops.Common.{
  String, Option, ◌≡◌, true, some, ◌≢◌, Bool-cases, ap, inr, arith, refl, inl, ◌==◌, ◌||◌, none,
  string_eq, false, Bool, eq_iff, ◌∙◌, subst, ◌∷◌, [], sym, some-eq,
}
use recallops.Sessions.{ReviewHandoff, JudgeRun, Sessions, is_active, consume_handoff, get_run}
use recallops.Result.{Result, ok, err, ok-injective, ◌>>◌}
use recallops.Auth.{Principal, principal, session_of, consume_handoff_attempt, principal_of}
use recallops.Auth.Identity.{Grants, create_session_sound, principal-ok}
use recallops.Sessions.Handoffs.{Redeems}
use recallops.Sessions.Current.{consume_handoff-run}

module _ (st : Settings) (now : Time) (d : Draws) where
  answer-ok :
      (handoff : ReviewHandoff) (o : Result Principal) (s : Sessions) (x : Exchanged)
      → (answer st now d handoff (o, s)).0 ≡ ok x
      → (o ≡ ok x.identity) × ((answer st now d handoff (o, s)).1 ≡ s)
  unfolding answer
  answer-ok handoff (err e) s x done = cc
  answer-ok handoff (ok identity) s x done =
      (ap (λ (y : Exchanged). ok y.identity) (ok-injective done), refl)

  abbrev pub subject : String
  subject = reviewer_subject_of d.subject_hex

  -- A session was created for a reviewer who is neither the operator nor the issuer.
  pub record Opens (handoff : ReviewHandoff) (run : JudgeRun) (s s' : Sessions) (x : Exchanged)
      : Type 0 where
    pub run_active : is_active run ≡ true
    pub not_operator : subject ≢ run.operator_subject
    pub not_issuer : subject ≢ handoff.issued_by_subject
    pub granted : Grants st.authenticator now (reviewer_request handoff run subject) s
    pub whose :
        principal
          (session_of st.authenticator now (reviewer_request handoff run subject) d.token d.csrf)
        ≡ ok x.identity
    pub saved :
        s'
        ≡ Sessions.save
            (session_of st.authenticator now (reviewer_request handoff run subject) d.token d.csrf)
            (Sessions.get_run now run.run_id s).1

  abbrev creating : ReviewHandoff → JudgeRun → Sessions → Result Principal × Sessions
  creating handoff run s =
      Auth.create_session st.authenticator now (reviewer_request handoff run subject) d.token d.csrf
        s

  created-Opens :
      (handoff : ReviewHandoff) (run : JudgeRun) (s : Sessions) (x : Exchanged)
      → is_active run ≡ true
      → (subject == run.operator_subject || subject == handoff.issued_by_subject) ≡ false
      → (answer st now d handoff (creating handoff run s)).0 ≡ ok x
      → Opens handoff run s (answer st now d handoff (creating handoff run s)).1 x
  unfolding reviewer_request
  created-Opens handoff run s x on differ done =
      let (made, kept) =
        answer-ok handoff (creating handoff run s).0 (creating handoff run s).1 x done in
      let (granted, whose, state) =
        create_session_sound st.authenticator now (reviewer_request handoff run subject) d.token
          d.csrf s x.identity made in
      record {
        run_active = on;
        not_operator = λ same. ground (arith, eq_iff subject run.operator_subject, same);
        not_issuer = λ same. ground (arith, eq_iff subject handoff.issued_by_subject, same);
        granted = granted;
        whose = whose;
        saved = kept ∙ ap (λ (o : Result Principal × Sessions). o.1) state;
      }

  open_review-Opens :
      (handoff : ReviewHandoff) (o : Option JudgeRun) (s : Sessions) (x : Exchanged)
      → (open_review st now d handoff o s).0 ≡ ok x
      → (run : JudgeRun) × (o ≡ some run)
        × Opens handoff run s (open_review st now d handoff o s).1 x
  unfolding open_review
  open_review-Opens handoff none s x done = cc
  open_review-Opens handoff (some run) s x done = elim (Bool-cases (is_active run)) [
    | inr ended ↦ absurd (ground arith)
    | inl on ↦
        elim (Bool-cases
          (subject == run.operator_subject || subject == handoff.issued_by_subject)) [
            | inl same ↦ absurd (ground arith)
            | inr differ ↦ (
              run,
              refl,
              rw on (
                  rw differ
                    (created-Opens handoff run s x on differ (rw differ at (rw on at done)))),
            )
          ]
  ]

  -- The exchange went through a consumed handoff and its run; `s'` is what it left.
  abbrev pub Went : Option ReviewHandoff → Sessions → Sessions → Exchanged → Type 0
  Went o s s' x =
      (handoff : ReviewHandoff) × (run : JudgeRun) × (o ≡ some handoff)
      × ((get_run now handoff.run_id s).0 ≡ some run)
      × Opens handoff run (get_run now handoff.run_id s).1 s' x

  redeemed-run :
      (handoff : ReviewHandoff) (s : Sessions) (x : Exchanged)
      → (redeemed st now d (some handoff) s).0 ≡ ok x
      → (run : JudgeRun) × ((get_run now handoff.run_id s).0 ≡ some run)
        × Opens handoff run
            (get_run now handoff.run_id s).1
            (redeemed st now d (some handoff) s).1
            x
  unfolding redeemed
  redeemed-run handoff s x =
      open_review-Opens handoff (get_run now handoff.run_id s).0 (get_run now handoff.run_id s).1 x

  redeemed-some :
      (o : Option ReviewHandoff) (s : Sessions) (x : Exchanged)
      → (redeemed st now d o s).0 ≡ ok x
      → (handoff : ReviewHandoff) × (o ≡ some handoff)
  unfolding redeemed
  redeemed-some none s x done = cc
  redeemed-some (some handoff) s x done = (handoff, refl)

  redeemed-Went :
      (o : Option ReviewHandoff) (s : Sessions) (x : Exchanged)
      → (redeemed st now d o s).0 ≡ ok x
      → Went o s (redeemed st now d o s).1 x
  redeemed-Went o s x done =
      let (handoff, is) = redeemed-some o s x done in
      let (run, read, opens) =
        redeemed-run handoff s x (subst (λ p. (redeemed st now d p s).0 ≡ ok x) is done) in
      subst (λ p. Went p s (redeemed st now d p s).1 x) (sym is) (handoff, run, refl, read, opens)

  abbrev pub consuming : String → Sessions → Option ReviewHandoff × Sessions
  consuming code s = consume_handoff now (st.authenticator.digest code) s

  limited-redeemed :
      (code : String) (allowed : Bool) (s : Sessions) (x : Exchanged)
      → (limited st now d code (allowed, s)).0 ≡ ok x
      → limited st now d code (allowed, s)
        ≡ redeemed st now d (consuming code s).0 (consuming code s).1
  unfolding limited
  limited-redeemed code false s x done = cc
  limited-redeemed code true s x done = refl

  -- The tables once the attempt is counted.
  abbrev pub attempted : Request → Sessions → Sessions
  attempted r s = (consume_handoff_attempt st.authenticator now (address_of r) s).1

  pub guards-code :
      (r : Request) (code c : String)
      → (do require_origin st r; require_json st r; valid_code (some code)) ≡ ok c
      → c ≡ code
  unfolding valid_code
  guards-code r code c done = ground arith

  exchange_code-limited :
      (r : Request) (code : String) (o : Result String) (s : Sessions) (x : Exchanged)
      → ((c : String) → o ≡ ok c → c ≡ code)
      → (exchange_code st now d r o s).0 ≡ ok x
      → exchange_code st now d r o s
        ≡ limited st now d code (consume_handoff_attempt st.authenticator now (address_of r) s)
  unfolding exchange_code
  exchange_code-limited r code (err e) s x same done = cc
  exchange_code-limited r code (ok c) s x same done =
      ap (λ k. limited st now d k (consume_handoff_attempt st.authenticator now (address_of r) s))
        (same c refl)

  -- An exchange that succeeds comes to the redemption of the code.
  exchange-redeemed :
      (r : Request) (code : String) (s : Sessions) (x : Exchanged)
      → (exchange_reviewer_handoff st now d r (some code) s).0 ≡ ok x
      → exchange_reviewer_handoff st now d r (some code) s
        ≡ redeemed st now d (consuming code (attempted r s)).0 (consuming code (attempted r s)).1
  unfolding exchange_reviewer_handoff
  exchange-redeemed r code s x done =
      let attempt = consume_handoff_attempt st.authenticator now (address_of r) s in
      let first =
        exchange_code-limited r code
          (do require_origin st r; require_json st r; valid_code (some code)) s x
          (λ c. guards-code r code c) done in
      first
      ∙ limited-redeemed code attempt.0 attempt.1 x
          (ap (λ (o : Result Exchanged × Sessions). o.0) (sym first) ∙ done)

  pub exchange-Went :
      (r : Request) (code : String) (s : Sessions) (x : Exchanged)
      → (exchange_reviewer_handoff st now d r (some code) s).0 ≡ ok x
      → Went
          (consuming code (attempted r s)).0
          (consuming code (attempted r s)).1
          (exchange_reviewer_handoff st now d r (some code) s).1
          x
  exchange-Went r code s x done =
      let same = exchange-redeemed r code s x done in
      subst (λ t. Went (consuming code (attempted r s)).0 (consuming code (attempted r s)).1 t x)
        (ap (λ (o : Result Exchanged × Sessions). o.1) (sym same))
        (redeemed-Went (consuming code (attempted r s)).0 (consuming code (attempted r s)).1 x
          (ap (λ (o : Result Exchanged × Sessions). o.0) (sym same) ∙ done))

-- Once the attempt is counted, an exchanged code names a stored handoff, which was open: unconsumed,
-- unrevoked and unexpired, with its run stored, active, unexpired and of its tenant. Who is let in is a reviewer of that run, bound to the consumed handoff,
-- and neither the run's operator nor the one who issued the handoff.
pub exchange_sound :
    (st : Settings) (now : Time) (d : Draws) (r : Request) (code : String) (s : Sessions)
    (x : Exchanged)
    → (exchange_reviewer_handoff st now d r (some code) s).0 ≡ ok x
    → (before : ReviewHandoff) × (run : JudgeRun) × (Sessions.get_handoff
          (st.authenticator.digest code)
          (attempted st now d r s)
        ≡ some before)
      × Redeems now (attempted st now d r s) before run
      × (x.identity.roles ≡ "reviewer" ∷ [])
      × (x.identity.run_id ≡ some run.run_id)
      × (x.identity.review_handoff_hash ≡ some before.code_hash)
      × (x.identity.subject ≢ run.operator_subject)
      × (x.identity.subject ≢ before.issued_by_subject)
unfolding principal_of session_of reviewer_request
exchange_sound st now d r code s x done =
    let (handoff, run, consumed, read, opens) = exchange-Went st now d r code s x done in
    let (before, run0, there, redeems, marked, again) =
      consume_handoff-run now (st.authenticator.digest code) (attempted st now d r s) handoff
        consumed in
    let same : run0 ≡ run = some-eq (sym again ∙ read) in
    let whose =
      principal-ok st.authenticator now
        (session_of st.authenticator now (reviewer_request handoff run (subject st now d)) d.token
          d.csrf)
        x.identity opens.whose in
    let named : x.identity.subject ≡ subject st now d = ap (λ (p : Principal). p.subject) whose in
    (
      before,
      run,
      there,
      subst (λ z. Redeems now (attempted st now d r s) before z) same redeems,
      ap (λ (p : Principal). p.roles) whose,
      ap (λ (p : Principal). p.run_id) whose,
      ap (λ (p : Principal). p.review_handoff_hash) whose
          ∙ ap (λ (h : ReviewHandoff). some h.code_hash) marked,
      (λ e. opens.not_operator (sym named ∙ e)),
      (λ e.
          opens.not_issuer
            (sym named ∙ e ∙ sym (ap (λ (h : ReviewHandoff). h.issued_by_subject) marked))),
    )
