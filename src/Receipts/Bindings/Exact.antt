-- ===== src/Receipts/Bindings/Exact.antt =====
-- What verified bindings say of the events.
use recallops.Common.{
  is_digest, codes, subst, sym, ap, ◌∙◌, ◌++◌, ◌∷◌, [], Option, not, arith, true, find_first-passes,
  refl, eq_iff, option_beq_iff, none, string_eq,
}
use recallops.Common.{List, String, find_first, ◌≡◌, All, some}
use recallops.Receipts.Bindings.{
  check_bindings, enters, binds, verify_causal_bindings, ReceiptDigestBindings, required_bindings,
  transition_binding_digest, disposition_digest, binding_material, all_digests,
}
use recallops.Ledger.Event.{AuthorityEvent, Hashing, Payload, text}
use recallops.Result.{ok, raise_if->>-eq-ok, >>=-eq-ok, ok-injective}

-- The event that first enters a state names exactly this object.
abbrev pub Binds : List AuthorityEvent → String × String × String → Type 0
Binds events (state, object_type, object_digest) =
    (e : AuthorityEvent) × (find_first (enters state) events ≡ some e)
    × (e.state_after ≡ state)
    × (e.object_type ≡ some object_type)
    × (e.object_digest ≡ some object_digest)

binds-Binds :
    (events : List AuthorityEvent) (state object_type object_digest : String)
    (o : Option AuthorityEvent)
    → find_first (enters state) events ≡ o
    → binds object_type object_digest o ≡ true
    → Binds events (state, object_type, object_digest)
unfolding binds enters
binds-Binds events state object_type object_digest none found held = cc
binds-Binds events state object_type object_digest (some e) found held =
    let there : enters state e ≡ true = find_first-passes (enters state) events e found in
    (
      e,
      found,
      ground (arith, there, eq_iff e.state_after state),
      ground (arith, option_beq_iff e.object_type (some object_type)),
      ground (arith, option_beq_iff e.object_digest (some object_digest)),
    )

check_bindings-Binds :
    (events : List AuthorityEvent) (required : List (String × String × String)) {u : Unit {0}}
    → check_bindings events required ≡ ok u
    → All (Binds events) required
unfolding check_bindings
check_bindings-Binds events [] done = tt
check_bindings-Binds events ((state, object_type, object_digest) ∷ required) done =
    let (held, rest) =
      raise_if->>-eq-ok (not (binds object_type object_digest (find_first (enters state) events))) _
        (check_bindings events required) done in
    (
      binds-Binds events state object_type object_digest (find_first (enters state) events) refl
          (ground arith),
      check_bindings-Binds events required rest,
    )

-- SHA-256 of a domain's label, a zero byte and the canonical JSON of what is bound.
abbrev pub bound : Hashing → String → Payload → String
bound h label payload = h.sha256 (codes label ++ (0 ∷ h.canonical_bytes payload))

-- The digests that a receipt must find in the events, written out.
pub record Bound (h : Hashing) (events : List AuthorityEvent) (d : ReceiptDigestBindings)
    (final_disposition : String) : Type 0 where
  pub digests :
      All
        (λ (s : String). is_digest s ≡ true)
        (d.execution ∷ d.proposal ∷ d.observation ∷ d.policy_verdict ∷ d.assessment ∷ d.memory
          ∷ d.review ∷ [])
  pub awaiting_approval : Binds events ("AWAITING_OPERATOR_APPROVAL", "proposal", d.proposal)
  pub awaiting_execution : Binds events ("APPROVED_AWAITING_EXECUTION", "proposal", d.proposal)
  pub observing : Binds events (
    "OBSERVING_POSTCHECK",
    "execution_binding",
    bound h "recallops-execution-binding-v1"
        (("execution", text d.execution) ∷ ("proposal", text d.proposal) ∷ []),
  )
  pub postcheck_ready : Binds events (
    "POSTCHECK_READY",
    "observation_binding",
    bound h "recallops-observation-binding-v1" (
        ("execution", text d.execution)
        ∷ ("observation", text d.observation)
        ∷ ("policy_verdict", text d.policy_verdict)
        ∷ []),
  )
  pub pending_review : Binds events (
    "PENDING_REVIEW",
    "outcome_binding",
    bound h "recallops-outcome-binding-v1" (
        ("assessment", text d.assessment)
        ∷ ("memory", text d.memory)
        ∷ ("observation", text d.observation)
        ∷ ("policy_verdict", text d.policy_verdict)
        ∷ []),
  )
  pub reviewed : Binds events (
    "REVIEWED",
    "review_binding",
    bound h "recallops-review-binding-v1" (
        ("disposition", text (h.sha256 (codes final_disposition)))
        ∷ ("memory", text d.memory)
        ∷ ("review", text d.review)
        ∷ []),
  )

module _ (h : Hashing) where
  transition_binding_digest-ok :
      (domain : String) (bindings : List (String × String)) (v : String)
      → transition_binding_digest h domain bindings ≡ ok v
      → (v ≡ h.sha256 (binding_material h domain bindings)) × (all_digests bindings ≡ true)
  unfolding transition_binding_digest
  transition_binding_digest-ok domain bindings v done = ground arith

  disposition_digest-ok :
      (disposition v : String)
      → disposition_digest h disposition ≡ ok v
      → v ≡ h.sha256 (codes disposition)
  unfolding disposition_digest
  disposition_digest-ok disposition v done = ground arith

  module _ (events : List AuthorityEvent) (d : ReceiptDigestBindings)
      (final_disposition : String) where
    -- The six entries, once each digest is known.
    entries-Bound :
        (execution observation outcome disposition review : String)
        → transition_binding_digest h "execution"
            (("execution", d.execution) ∷ ("proposal", d.proposal) ∷ [])
          ≡ ok execution
        → transition_binding_digest h "observation" (
            ("execution", d.execution)
            ∷ ("observation", d.observation)
            ∷ ("policy_verdict", d.policy_verdict)
            ∷ [])
          ≡ ok observation
        → transition_binding_digest h "outcome" (
            ("assessment", d.assessment)
            ∷ ("memory", d.memory)
            ∷ ("observation", d.observation)
            ∷ ("policy_verdict", d.policy_verdict)
            ∷ [])
          ≡ ok outcome
        → disposition_digest h final_disposition ≡ ok disposition
        → transition_binding_digest h "review"
            (("disposition", disposition) ∷ ("memory", d.memory) ∷ ("review", d.review) ∷ [])
          ≡ ok review
        → All (Binds events) (
            ("AWAITING_OPERATOR_APPROVAL", "proposal", d.proposal)
            ∷ ("APPROVED_AWAITING_EXECUTION", "proposal", d.proposal)
            ∷ ("OBSERVING_POSTCHECK", "execution_binding", execution)
            ∷ ("POSTCHECK_READY", "observation_binding", observation)
            ∷ ("PENDING_REVIEW", "outcome_binding", outcome)
            ∷ ("REVIEWED", "review_binding", review)
            ∷ [])
        → Bound h events d final_disposition
    unfolding binding_material
    entries-Bound execution observation outcome disposition review e1 e2 e3 e4 e5 all =
        let (s1, d1) = transition_binding_digest-ok "execution" _ execution e1 in
        let (s2, d2) = transition_binding_digest-ok "observation" _ observation e2 in
        let (s3, d3) = transition_binding_digest-ok "outcome" _ outcome e3 in
        let s4 = disposition_digest-ok final_disposition disposition e4 in
        let (s5, d5) = transition_binding_digest-ok "review" _ review e5 in
        record {
          digests = (
            ground arith,
            (
              ground arith,
              (ground arith, (ground arith, (ground arith, (ground arith, (ground arith, tt))))),
            ),
          );
          awaiting_approval = all.0;
          awaiting_execution = all.1.0;
          observing =
              subst (λ x. Binds events ("OBSERVING_POSTCHECK", "execution_binding", x)) s1
                all.1.1.0;
          postcheck_ready =
              subst (λ x. Binds events ("POSTCHECK_READY", "observation_binding", x)) s2
                all.1.1.1.0;
          pending_review =
              subst (λ x. Binds events ("PENDING_REVIEW", "outcome_binding", x)) s3 all.1.1.1.1.0;
          reviewed =
              subst (λ x. Binds events ("REVIEWED", "review_binding", x))
                (s5
                  ∙ ap
                      (λ z. bound h "recallops-review-binding-v1" (
                        ("disposition", text z)
                        ∷ ("memory", text d.memory)
                        ∷ ("review", text d.review)
                        ∷ []))
                      s4)
                all.1.1.1.1.1.0;
        }

    required_bindings-Bound :
        (required : List (String × String × String))
        → required_bindings h d final_disposition ≡ ok required
        → All (Binds events) required
        → Bound h events d final_disposition
    unfolding required_bindings
    required_bindings-Bound required done all =
        let (execution, e1, r1) = >>=-eq-ok (transition_binding_digest h "execution" _) _ done in
        let (observation, e2, r2) = >>=-eq-ok (transition_binding_digest h "observation" _) _ r1 in
        let (outcome, e3, r3) = >>=-eq-ok (transition_binding_digest h "outcome" _) _ r2 in
        let (disposition, e4, r4) = >>=-eq-ok (disposition_digest h final_disposition) _ r3 in
        let (review, e5, r5) = >>=-eq-ok (transition_binding_digest h "review" _) _ r4 in
        entries-Bound execution observation outcome disposition review e1 e2 e3 e4 e5
          (subst (All (Binds events)) (sym (ok-injective r5)) all)

-- Where the bindings of a run are verified, every bound digest is a lowercase SHA-256 digest, and the first
-- event that enters each of the six states names exactly its type of object and its digest: the proposal on
-- the way to approval and to execution, and the domain-separated digests of execution and proposal, of
-- execution, observation and verdict, of assessment, memory, observation and verdict, and of disposition,
-- memory and review, where the postcheck is observed, ready, pending review and reviewed.
pub verify_causal_bindings-Binds :
    (h : Hashing) (events : List AuthorityEvent) (d : ReceiptDigestBindings)
    (final_disposition : String) {u : Unit {0}}
    → verify_causal_bindings h events d final_disposition ≡ ok u
    → Bound h events d final_disposition
unfolding verify_causal_bindings
verify_causal_bindings-Binds h events d final_disposition done =
    let (required, computed, checked) =
      >>=-eq-ok (required_bindings h d final_disposition) (check_bindings events) done in
    required_bindings-Bound h events d final_disposition required computed
      (check_bindings-Binds events required checked)
