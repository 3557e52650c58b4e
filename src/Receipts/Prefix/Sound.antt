-- ===== src/Receipts/Prefix/Sound.antt =====
-- What a verified prefix guarantees.
use recallops.Common.{
  Option, String, List, some, ◌≡◌, All, ℕ, ◌+◌, ◌∷◌, ◌≤◌, Bool, [], none, false, true, arith,
  eq_iff, list_beq_iff, string_eq, ◌!=◌, not, suc, refl, ◌≢◌, length,
}
use recallops.Ledger.Event.{AuthorityEvent, Hashing, verify_event, zero_event_hash}
use recallops.Receipts.Prefix.{
  check_link, event_checks, predecessor_checks, expected_channel, check_links, Subjects, unverified,
  add_actor, VerifiedLedgerPrefix, separated_subjects, prefix_of, is_genesis, last_of,
  verify_ledger_prefix,
}
use recallops.Result.{
  ok, Error, check_all, >>=-eq-ok, check_all-eq-ok, raise_if->>-eq-ok, raise_if-eq-ok, ok-injective,
}
use recallops.Workflow.States.{channel_eq, channel_beq_iff}
use recallops.Ledger.InMemory.Chain.{Chain}
use recallops.Receipts.Prefix.Actors.{
  ActsAs, collect, separated_subjects-ok, Acted, one_actor, collect-operators, collect-reviewers,
  acted, operators-collect, reviewers-collect,
}

-- How an event stands to the one before it.
abbrev pub Follows : Option AuthorityEvent → AuthorityEvent → Type 0
Follows none e = Unit
Follows (some p) e =
    (e.epoch_before ≡ p.epoch_after)
    × (e.state_before ≡ p.state_after)
    × (e.capabilities_before ≡ p.capabilities_after)
    × (p.recorded_at ≤ e.recorded_at)

-- An event of the run of `first`, that was accepted and steps the epoch by one.
pub record Belongs (first e : AuthorityEvent) : Type 0 where
  pub accepted : e.outcome ≡ "accepted"
  pub same_run : e.run_id ≡ first.run_id
  pub same_tenant : e.tenant_id ≡ first.tenant_id
  pub same_workflow : e.workflow_id ≡ first.workflow_id
  pub same_policy : e.policy_version ≡ first.policy_version
  pub same_build : e.build_sha ≡ first.build_sha
  pub next_epoch : e.epoch_after ≡ e.epoch_before + 1

abbrev pub Linked : Option AuthorityEvent → List AuthorityEvent → Type 0
Linked predecessor [] = Unit
Linked predecessor (e ∷ es) = Follows predecessor e × Linked (some e) es

module _ (h : Hashing) (first : AuthorityEvent) where
  event_checks-Belongs :
      (n : ℕ) (e : AuthorityEvent)
      → All (λ (c : Bool × Error). c.0 ≡ false) (event_checks first n e)
      → Belongs first e × (e.sequence ≡ n)
  unfolding event_checks
  event_checks-Belongs n e passed = ground (
    arith,
    eq_iff e.outcome "accepted",
    eq_iff e.run_id first.run_id,
    eq_iff e.tenant_id first.tenant_id,
    eq_iff e.workflow_id first.workflow_id,
    eq_iff e.policy_version first.policy_version,
    eq_iff e.build_sha first.build_sha,
  )

  predecessor_checks-Follows :
      (p : Option AuthorityEvent) (e : AuthorityEvent)
      → All (λ (c : Bool × Error). c.0 ≡ false) (predecessor_checks p e)
      → Follows p e
  unfolding predecessor_checks
  predecessor_checks-Follows none e passed = tt
  predecessor_checks-Follows (some p) e passed = ground (
    arith,
    eq_iff e.state_before p.state_after,
    list_beq_iff e.capabilities_before p.capabilities_after,
  )

  check_link-ok :
      (n : ℕ) (p : Option AuthorityEvent) (previous : String) (e : AuthorityEvent) {u : Unit {0}}
      → check_link h first n p previous e ≡ ok u
      → Belongs first e
        × (e.sequence ≡ n)
        × Follows p e
        × (verify_event h e previous ≡ ok true)
        × (expected_channel e.actor_role ≡ ok e.channel)
  unfolding check_link
  check_link-ok n p previous e {u} done =
      let links = check_all (predecessor_checks p e) (ok tt) in
      let (_, checked, after) = >>=-eq-ok (check_all (event_checks first n e) (ok tt)) _ done in
      let (belongs, numbered) =
        event_checks-Belongs n e (check_all-eq-ok (event_checks first n e) (ok tt) checked).0 in
      let (_, linked, next) = >>=-eq-ok links _ after in
      let follows =
        predecessor_checks-Follows p e
          (check_all-eq-ok (predecessor_checks p e) (ok tt) linked).0 in
      let (channel, expected, rest) = >>=-eq-ok (expected_channel e.actor_role) _ next in
      let (same, verify) = raise_if->>-eq-ok (e.channel != channel) _ _ rest in
      let (verified, computed, held) = >>=-eq-ok (verify_event h e previous) _ verify in
      let verdict : verified ≡ true = ground (
        arith,
        raise_if-eq-ok (not verified) (unverified "authority ledger hash chain verification failed")
            {u = u} held,
      ) in
      let chosen : e.channel ≡ channel = ground (arith, channel_beq_iff e.channel channel) in
      (belongs, numbered, follows, rw (← verdict) computed, rw chosen expected)

  -- What the whole loop says of the events, numbered from `n` behind `previous`.
  check_links-ok :
      (n : ℕ) (p : Option AuthorityEvent) (previous : String) (es : List AuthorityEvent)
      (s : Subjects) (t : Subjects)
      → check_links h first n p previous es s ≡ ok t
      → Chain h previous n es
        × Linked p es
        × All (Belongs first) es
        × All (λ (e : AuthorityEvent). expected_channel e.actor_role ≡ ok e.channel) es
        × (t ≡ collect es s)
  unfolding check_links collect
  check_links-ok n p previous [] s t done = (tt, tt, tt, tt, cc)
  check_links-ok n p previous (e ∷ es) s t done =
      let (_, checked, rest) =
        >>=-eq-ok (check_link h first n p previous e)
          (λ _. check_links h first (suc n) (some e) e.event_hash es (add_actor e s)) done in
      let (belongs, numbered, follows, verified, chosen) = check_link-ok n p previous e checked in
      let (chain, linked, all, channels, collected) =
        check_links-ok (suc n) (some e) e.event_hash es (add_actor e s) t rest in
      (
        (verified, numbered, chain),
        (follows, linked),
        (belongs, all),
        (chosen, channels),
        collected,
      )

-- Each event adds one to the epoch.
last_of-epoch :
    (first p : AuthorityEvent) (es : List AuthorityEvent)
    → Linked (some p) es
    → All (Belongs first) es
    → (last_of p es).epoch_after ≡ p.epoch_after + length es
unfolding last_of
last_of-epoch first p [] linked all = omega arith
last_of-epoch first p (e ∷ es) linked all =
    omega (arith, last_of-epoch first e es linked.1 all.1, linked.0.0, all.0.next_epoch)

-- What a verified prefix says of the events that it was made from.
pub record Proves (h : Hashing) (first : AuthorityEvent) (rest : List AuthorityEvent)
    (v : VerifiedLedgerPrefix) : Type 0 where
  pub genesis :
      (first.event_type ≡ "RUN_GENESIS")
      × (first.state_before ≡ "ABSENT")
      × (first.epoch_before ≡ 0)
  pub chain : Chain h zero_event_hash 1 (first ∷ rest)
  pub linked : Linked none (first ∷ rest)
  pub one_run : All (Belongs first) (first ∷ rest)
  pub channels :
      All (λ (e : AuthorityEvent). expected_channel e.actor_role ≡ ok e.channel) (first ∷ rest)
  pub operator : All (ActsAs "operator" v.operator_subject) (first ∷ rest)
  pub reviewer : All (ActsAs "reviewer" v.reviewer_subject) (first ∷ rest)
  pub operator_acted : Acted "operator" v.operator_subject (first ∷ rest)
  pub reviewer_acted : Acted "reviewer" v.reviewer_subject (first ∷ rest)
  pub independent : v.operator_subject ≢ v.reviewer_subject
  pub epochs : (v.first_epoch ≡ 0) × (v.last_epoch ≡ v.event_count)
  pub described : v ≡ prefix_of first rest (v.operator_subject, v.reviewer_subject)

module _ (h : Hashing) (first : AuthorityEvent) (rest : List AuthorityEvent) where
  abbrev no_subjects : Subjects
  no_subjects = record { operators = []; reviewers = [] }

  proved :
      (s : Subjects) (operator reviewer : String)
      → is_genesis first ≡ true
      → check_links h first 1 none zero_event_hash (first ∷ rest) no_subjects ≡ ok s
      → separated_subjects s ≡ ok (operator, reviewer)
      → Proves h first rest (prefix_of first rest (operator, reviewer))
  unfolding prefix_of
  proved s operator reviewer genesis linked separated =
      let (chain, follows, all, channels, collected) =
        check_links-ok h first 1 none zero_event_hash (first ∷ rest) no_subjects s linked in
      let (operators, reviewers, differ) = separated_subjects-ok s operator reviewer separated in
      let zero_epoch : first.epoch_before ≡ 0 = ground arith in
      record {
        genesis =
            ground
              (arith, eq_iff first.event_type "RUN_GENESIS", eq_iff first.state_before "ABSENT");
        chain = chain;
        linked = follows;
        one_run = all;
        channels = channels;
        operator =
            one_actor "operator" operator (collect (first ∷ rest) no_subjects).operators
              (first ∷ rest) (rw (← collected) operators)
              (collect-operators (first ∷ rest) no_subjects);
        reviewer =
            one_actor "reviewer" reviewer (collect (first ∷ rest) no_subjects).reviewers
              (first ∷ rest) (rw (← collected) reviewers)
              (collect-reviewers (first ∷ rest) no_subjects);
        operator_acted =
            acted operator "operator" (collect (first ∷ rest) no_subjects).operators (first ∷ rest)
              (rw (← collected) operators) (operators-collect operator (first ∷ rest) no_subjects);
        reviewer_acted =
            acted reviewer "reviewer" (collect (first ∷ rest) no_subjects).reviewers (first ∷ rest)
              (rw (← collected) reviewers) (reviewers-collect reviewer (first ∷ rest) no_subjects);
        independent = differ;
        epochs = (
          ground arith,
          omega
              (arith, last_of-epoch first first rest follows.1 all.1, all.0.next_epoch, zero_epoch),
        );
        described = refl;
      }

-- A prefix that is verified is the whole list: a verified hash chain from the zero hash, numbered from
-- one, which begins at the run's genesis with epoch zero and stays in one run, tenant, workflow, policy
-- and build; each event is accepted, on its role's channel, and takes up the epoch, state, capabilities
-- and time of the one before; some event is the operator's and some event the reviewer's, every operator
-- event is by that operator and every reviewer event by that reviewer, who are different; and the last epoch is the number of events.
pub verify_ledger_prefix-Proves :
    (h : Hashing) (events : List AuthorityEvent) (v : VerifiedLedgerPrefix)
    → verify_ledger_prefix h events ≡ ok v
    → (first : AuthorityEvent) × (rest : List AuthorityEvent) × (events ≡ first ∷ rest)
      × Proves h first rest v
unfolding verify_ledger_prefix
verify_ledger_prefix-Proves h [] v done = cc
verify_ledger_prefix-Proves h (first ∷ rest) v done =
    let links =
      check_links h first 1 none zero_event_hash (first ∷ rest) (no_subjects h first rest) in
    let (genesis, after) = raise_if->>-eq-ok (not (is_genesis first)) _ _ done in
    let (subjects, linked, next) = >>=-eq-ok links _ after in
    let ((operator, reviewer), separated, made) = >>=-eq-ok (separated_subjects subjects) _ next in
    (
      first,
      rest,
      refl,
      rw (← ok-injective made)
          (proved h first rest subjects operator reviewer (ground arith) linked separated),
    )
