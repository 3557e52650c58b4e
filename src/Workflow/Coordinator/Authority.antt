-- ===== src/Workflow/Coordinator/Authority.antt =====
-- Who may move a workflow out of which state.
use recallops.Workflow.States.{
  WorkflowState, RequestChannel, pending_review, webmcp, ui, system, investigating,
  observing_postcheck, postcheck_ready, state_beq, state_beq_iff,
}
use recallops.Workflow.Coordinator.{Move, required_role, check_row, is_subject, validate_transition}
use recallops.Common.{
  arith, String, Bool, ◌≡◌, ◌≢◌, ◌⊎◌, eq_iff, some, true, Option, ◌==◌, string_eq, ◌&&◌, false, ◌↔◌,
  none, ◌!=◌, refl, Bool-cases, inl, subst, inr, sym, concat, ◌∷◌, [], !=_refl, ◌∙◌,
}
use recallops.Workflow.Snapshot.{WorkflowSnapshot}
use recallops.Workflow.Repository.{Current, WorkflowRepository}
use recallops.Result.{ok, >>=-eq-ok, raise_if->>-eq-ok, raise_if-false->>, workflow_conflict}

-- The authority table, written out: the channel and the role that may move a workflow out of a
-- state; the legacy form of the proposal is the operator's, and only where it is allowed.
abbrev pub MayMove : WorkflowState → RequestChannel → String → Bool → Type 0
MayMove investigating ch role legacy =
    ((ch ≡ webmcp) × (role ≡ "agent")) ⊎ ((legacy ≡ true) × (ch ≡ ui) × (role ≡ "operator"))
MayMove observing_postcheck ch role legacy = (ch ≡ system) × (role ≡ "system")
MayMove postcheck_ready ch role legacy = (ch ≡ webmcp) × (role ≡ "agent")
MayMove pending_review ch role legacy = (ch ≡ ui) × (role ≡ "reviewer")
MayMove _ ch role legacy = (ch ≡ ui) × (role ≡ "operator")

-- The row is current, and a reviewer is not the operator of the same workflow.
pub record Admits (m : Move) (c : WorkflowSnapshot) : Type 0 where
  pub current : Current m.expected_epoch m.expected_state c
  pub independent : m.expected_state ≡ pending_review → c.operator_subject ≢ some m.actor_subject

module _ (s : WorkflowState) (ch : RequestChannel) (role : String) (legacy : Bool) where
  -- A move that passes both tests on its role stands in the table, and the required role is the
  -- reviewer's exactly in `PENDING_REVIEW`.
  role-MayMove :
      (required : String)
      → required_role s ch role legacy ≡ ok required
      → (role == required) ≡ true
      → MayMove s ch role legacy
  unfolding required_role
  role-MayMove required granted same = ground (
    arith,
    eq_iff role "agent",
    eq_iff role "operator",
    eq_iff role "system",
    eq_iff role "reviewer",
    eq_iff role required,
  )

  required-reviewer :
      (required : String)
      → required_role s ch role legacy ≡ ok required
      → s ≡ pending_review
      → (required == "reviewer") ≡ true
  unfolding required_role
  required-reviewer required granted pending = ground (arith, eq_iff required "reviewer")

  -- Outside `PENDING_REVIEW` the role in the table is another one.
  other_role :
      MayMove s ch role legacy
      → s ≢ pending_review
      → (role ≡ "agent") ⊎ (role ≡ "operator") ⊎ (role ≡ "system")
  other_role may h = ground arith

  MayMove-role : MayMove s ch role legacy → required_role s ch role legacy ≡ ok role
  unfolding required_role
  MayMove-role may = ground (
    arith,
    eq_iff role "agent",
    eq_iff role "operator",
    eq_iff role "system",
    eq_iff role "reviewer",
  )

module _ (m : Move) (required : String) where
  check_row-ok :
      (o : Option WorkflowSnapshot) (c : WorkflowSnapshot)
      → check_row m required o ≡ ok c
      → (o ≡ some c)
        × Current m.expected_epoch m.expected_state c
        × (((required == "reviewer") && is_subject c.operator_subject m.actor_subject) ≡ false)
  unfolding check_row
  check_row-ok none c h = cc
  check_row-ok (some d) c h = ground (arith, state_beq_iff d.state m.expected_state)

  check_row-passes :
      (c : WorkflowSnapshot)
      → Current m.expected_epoch m.expected_state c
      → ((required == "reviewer") && is_subject c.operator_subject m.actor_subject) ≡ false
      → check_row m required (some c) ≡ ok c
  unfolding check_row
  check_row-passes c current apart = ground (arith, state_beq_iff c.state m.expected_state)

and_false : (b : Bool) → (b && false) ≡ false
and_false true = refl
and_false false = refl

-- The independence test, read as a statement.
not-subject : (o : Option String) (actor : String) → (is_subject o actor ≡ false) ↔ (o ≢ some actor)
not-subject none actor = ((λ _ e. cc), (λ _. refl))
not-subject (some s) actor = ground (arith, eq_iff s actor)

-- A role of the table outside `PENDING_REVIEW` is not the reviewer's.
role-ne-reviewer :
    (role : String)
    → (role ≡ "agent") ⊎ (role ≡ "operator") ⊎ (role ≡ "system")
    → (role == "reviewer") ≡ false
role-ne-reviewer role (inl e) = subst (λ (x : String). (x == "reviewer") ≡ false) (sym e) refl
role-ne-reviewer role (inr (inl e)) = subst (λ (x : String). (x == "reviewer") ≡ false) (sym e) refl
role-ne-reviewer role (inr (inr e)) = subst (λ (x : String). (x == "reviewer") ≡ false) (sym e) refl

module _ (m : Move) (c : WorkflowSnapshot) where
  -- The independence test passes on a row that the move is admitted to.
  apart-Admits :
      MayMove m.expected_state m.channel m.role m.allow_legacy_ui
      → Admits m c
      → ((m.role == "reviewer") && is_subject c.operator_subject m.actor_subject) ≡ false
  apart-Admits may a = elim (Bool-cases (state_beq m.expected_state pending_review)) [
    | inl pending ↦
        rw
          ((not-subject c.operator_subject m.actor_subject).1
            (a.independent ((state_beq_iff m.expected_state pending_review).0 pending)))
          (and_false (m.role == "reviewer"))
    | inr other ↦
        rw
          (role-ne-reviewer m.role (
            other_role m.expected_state m.channel m.role m.allow_legacy_ui may
              (λ e. cc (other, (state_beq_iff m.expected_state pending_review).1 e))))
          refl
  ]

module _ {R : Type 0} (ops : WorkflowRepository R) (m : Move) (r : R) (c : WorkflowSnapshot) where
  -- A validated move is in the authority table, at the row's epoch and state, and by a reviewer
  -- who is not the workflow's operator.
  pub validate_transition_sound :
      validate_transition ops m r ≡ ok c
      → (ops.get m.workflow_id m.tenant_id r ≡ some c)
        × MayMove m.expected_state m.channel m.role m.allow_legacy_ui
        × Admits m c
  unfolding validate_transition
  validate_transition_sound valid =
      let (required, granted, rest) =
        >>=-eq-ok (required_role m.expected_state m.channel m.role m.allow_legacy_ui) _ valid in
      let (same, checked) =
        raise_if->>-eq-ok (m.role != required) _
          (check_row m required (ops.get m.workflow_id m.tenant_id r)) rest in
      let (found, current, apart) =
        check_row-ok m required (ops.get m.workflow_id m.tenant_id r) c checked in
      (
        found,
        role-MayMove m.expected_state m.channel m.role m.allow_legacy_ui required granted
            (ground arith),
        record {
          current = current;
          independent = λ pending. (not-subject c.operator_subject m.actor_subject).0 (
              subst (λ b. (b && is_subject c.operator_subject m.actor_subject) ≡ false)
                (required-reviewer m.expected_state m.channel m.role m.allow_legacy_ui required
                  granted pending)
                apart);
        },
      )

  -- A current row admits every move of the authority table, save the operator's own review.
  pub validate_transition_complete :
      ops.get m.workflow_id m.tenant_id r ≡ some c
      → MayMove m.expected_state m.channel m.role m.allow_legacy_ui
      → Admits m c
      → validate_transition ops m r ≡ ok c
  unfolding validate_transition
  validate_transition_complete found may a =
      rw (MayMove-role m.expected_state m.channel m.role m.allow_legacy_ui may) (
        raise_if-false->> (m.role != m.role)
          (workflow_conflict (concat (m.role ∷ " role required for workflow transition" ∷ [])))
          (check_row m m.role (ops.get m.workflow_id m.tenant_id r)) (!=_refl m.role)
        ∙ rw found (check_row-passes m m.role c a.current (apart-Admits m c may a)))

  -- The validation returns a row exactly if that row is stored, the authority table lets the role move
  -- workflows out of the expected state on the channel, the row is active with the expected epoch and
  -- state, and the actor of a review is not the operator of the row. The target state is not tested: with
  -- any other target the validation answers the same; and out of `REVIEWED`, as out of every state that the
  -- table does not name, it is the operator on the UI who passes.
  pub validate_transition_iff :
      ((validate_transition ops m r ≡ ok c) ↔ (
        (ops.get m.workflow_id m.tenant_id r ≡ some c)
        × MayMove m.expected_state m.channel m.role m.allow_legacy_ui
        × Admits m c))
      × ((target : WorkflowState)
          → validate_transition ops (record m { target_state = target }) r
            ≡ validate_transition ops m r)
  unfolding validate_transition check_row
  validate_transition_iff =
      ((validate_transition_sound, λ h. validate_transition_complete h.0 h.1 h.2), λ target. refl)
