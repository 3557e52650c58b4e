-- ===== src/Receipts/Prefix/Actors.antt =====
-- Who has acted in the events of a prefix: `operators` and `reviewers` of src/recallops/receipts.py.
use recallops.Common.{
  String, List, ◌≡◌, All, ◌∷◌, [], ◌⊎◌, arith, eq_iff, string_eq, inl, refl, inr, ◌≢◌, subst,
  Bool-cases, sym, ◌==◌,
}
use recallops.Ledger.Event.{AuthorityEvent}
use recallops.Receipts.Prefix.{Subjects, add_actor, add_subject, separated_subjects}
use recallops.Result.{ok}
use recallops.Workflow.States.{channel_eq}

-- A text among others.
abbrev pub Among : String → List String → Type 0
Among s [] = ⊥
Among s (t ∷ ts) = (s ≡ t) ⊎ Among s ts

-- The subjects of all the events.
unfoldable pub collect : List AuthorityEvent → Subjects → Subjects
collect [] s = s
collect (e ∷ es) s = collect es (add_actor e s)

-- The actors of a role.
abbrev pub ActsAs : String → String → AuthorityEvent → Type 0
ActsAs role subject e = e.actor_role ≡ role → e.actor_subject ≡ subject

Among-add_subject_self : (x : String) (xs : List String) → Among x (add_subject x xs)
unfolding add_subject
Among-add_subject_self x [] = inl refl
Among-add_subject_self x (t ∷ ts) = ground (arith, eq_iff x t, Among-add_subject_self x ts)

Among-add_subject : (x y : String) (xs : List String) → Among x xs → Among x (add_subject y xs)
unfolding add_subject
Among-add_subject x y [] among = elim among [ ]
Among-add_subject x y (t ∷ ts) among = elim among [
  | inl here ↦ ground (arith, eq_iff y t)
  | inr later ↦ ground (arith, eq_iff y t, Among-add_subject x y ts later)
]

module _ (x : String) where
  add_actor-operators :
      (e : AuthorityEvent) (s : Subjects) → Among x s.operators → Among x (add_actor e s).operators
  unfolding add_actor
  add_actor-operators e s among = ground (arith, Among-add_subject x e.actor_subject s.operators)

  Among-collect_operators :
      (es : List AuthorityEvent) (s : Subjects)
      → Among x s.operators
      → Among x (collect es s).operators
  unfolding collect
  Among-collect_operators [] s among = among
  Among-collect_operators (e ∷ es) s among =
      Among-collect_operators es (add_actor e s) (add_actor-operators e s among)

add_actor-operator :
    (e : AuthorityEvent) (s : Subjects)
    → e.actor_role ≡ "operator"
    → Among e.actor_subject (add_actor e s).operators
unfolding add_actor
add_actor-operator e s role = rw role (Among-add_subject_self e.actor_subject s.operators)

pub collect-operators :
    (es : List AuthorityEvent) (s : Subjects)
    → All
        (λ (e : AuthorityEvent).
          e.actor_role ≡ "operator" → Among e.actor_subject (collect es s).operators)
        es
unfolding collect
collect-operators [] s = tt
collect-operators (e ∷ es) s = (
  (λ role.
      Among-collect_operators e.actor_subject es (add_actor e s) (add_actor-operator e s role)),
  collect-operators es (add_actor e s),
)

module _ (x : String) where
  add_actor-reviewers :
      (e : AuthorityEvent) (s : Subjects) → Among x s.reviewers → Among x (add_actor e s).reviewers
  unfolding add_actor
  add_actor-reviewers e s among = ground (arith, Among-add_subject x e.actor_subject s.reviewers)

  Among-collect_reviewers :
      (es : List AuthorityEvent) (s : Subjects)
      → Among x s.reviewers
      → Among x (collect es s).reviewers
  unfolding collect
  Among-collect_reviewers [] s among = among
  Among-collect_reviewers (e ∷ es) s among =
      Among-collect_reviewers es (add_actor e s) (add_actor-reviewers e s among)

add_actor-reviewer :
    (e : AuthorityEvent) (s : Subjects)
    → e.actor_role ≡ "reviewer"
    → Among e.actor_subject (add_actor e s).reviewers
unfolding add_actor
add_actor-reviewer e s role = rw role (Among-add_subject_self e.actor_subject s.reviewers)

pub collect-reviewers :
    (es : List AuthorityEvent) (s : Subjects)
    → All
        (λ (e : AuthorityEvent).
          e.actor_role ≡ "reviewer" → Among e.actor_subject (collect es s).reviewers)
        es
unfolding collect
collect-reviewers [] s = tt
collect-reviewers (e ∷ es) s = (
  (λ role.
      Among-collect_reviewers e.actor_subject es (add_actor e s) (add_actor-reviewer e s role)),
  collect-reviewers es (add_actor e s),
)

-- Some event is by this subject in this role.
abbrev pub Acted : String → String → List AuthorityEvent → Type 0
Acted role subject [] = ⊥
Acted role subject (e ∷ es) =
    ((e.actor_role ≡ role) × (e.actor_subject ≡ subject)) ⊎ Acted role subject es

add_subject-Among :
    (x y : String) (xs : List String) → Among x (add_subject y xs) → (x ≡ y) ⊎ Among x xs
unfolding add_subject
add_subject-Among x y [] among = elim among [ inl here ↦ inl here | inr never ↦ elim never [ ] ]
add_subject-Among x y (t ∷ ts) among = ground (arith, eq_iff y t, add_subject-Among x y ts)

module _ (x : String) where
  operators-add_actor :
      (e : AuthorityEvent) (s : Subjects)
      → Among x (add_actor e s).operators
      → Among x s.operators ⊎ ((e.actor_role ≡ "operator") × (e.actor_subject ≡ x))
  unfolding add_actor
  operators-add_actor e s among = elim (Bool-cases (e.actor_role == "operator")) [
    | inr other ↦ inl (ground arith)
    | inl acts ↦
        let there : Among x (add_subject e.actor_subject s.operators) = rw acts at among in
        elim (add_subject-Among x e.actor_subject s.operators there) [
          | inl own ↦ inr ((eq_iff e.actor_role "operator").0 acts, sym own)
          | inr before ↦ inl before
        ]
  ]

  reviewers-add_actor :
      (e : AuthorityEvent) (s : Subjects)
      → Among x (add_actor e s).reviewers
      → Among x s.reviewers ⊎ ((e.actor_role ≡ "reviewer") × (e.actor_subject ≡ x))
  unfolding add_actor
  reviewers-add_actor e s among = elim (Bool-cases (e.actor_role == "operator")) [
    | inl acts ↦ inl (rw acts at among)
    | inr other ↦ elim (Bool-cases (e.actor_role == "reviewer")) [
      | inr neither ↦ inl (rw neither at (rw other at among))
      | inl acts ↦
          let there : Among x (add_subject e.actor_subject s.reviewers) =
            rw acts at (rw other at among) in
          elim (add_subject-Among x e.actor_subject s.reviewers there) [
            | inl own ↦ inr ((eq_iff e.actor_role "reviewer").0 acts, sym own)
            | inr before ↦ inl before
          ]
    ]
  ]

  -- Who is collected has acted.
  pub operators-collect :
      (es : List AuthorityEvent) (s : Subjects)
      → Among x (collect es s).operators
      → Among x s.operators ⊎ Acted "operator" x es
  unfolding collect
  operators-collect [] s among = inl among
  operators-collect (e ∷ es) s among = elim (operators-collect es (add_actor e s) among) [
    | inr later ↦ inr (inr later)
    | inl so_far ↦ elim (operators-add_actor e s so_far) [
      | inl before ↦ inl before
      | inr own ↦ inr (inl own)
    ]
  ]

  pub reviewers-collect :
      (es : List AuthorityEvent) (s : Subjects)
      → Among x (collect es s).reviewers
      → Among x s.reviewers ⊎ Acted "reviewer" x es
  unfolding collect
  reviewers-collect [] s among = inl among
  reviewers-collect (e ∷ es) s among = elim (reviewers-collect es (add_actor e s) among) [
    | inr later ↦ inr (inr later)
    | inl so_far ↦ elim (reviewers-add_actor e s so_far) [
      | inl before ↦ inl before
      | inr own ↦ inr (inl own)
    ]
  ]

  -- Of no subjects, all that are collected have acted.
  pub acted :
      (role : String) (collected : List String) (es : List AuthorityEvent)
      → collected ≡ x ∷ []
      → (Among x collected → ⊥ ⊎ Acted role x es)
      → Acted role x es
  acted role collected es one from = elim (from (subst (Among x) (sym one) (inl refl))) [
    | inl never ↦ elim never [ ]
    | inr acts ↦ acts
  ]

pub separated_subjects-ok :
    (s : Subjects) (operator reviewer : String)
    → separated_subjects s ≡ ok (operator, reviewer)
    → (s.operators ≡ operator ∷ []) × (s.reviewers ≡ reviewer ∷ []) × (operator ≢ reviewer)
unfolding separated_subjects
separated_subjects-ok s operator reviewer done = ground (arith, eq_iff operator reviewer)

pub one_actor :
    (role subject : String) (subjects : List String) (es : List AuthorityEvent)
    → subjects ≡ subject ∷ []
    → All (λ (e : AuthorityEvent). e.actor_role ≡ role → Among e.actor_subject subjects) es
    → All (ActsAs role subject) es
one_actor role subject subjects [] one all = tt
one_actor role subject subjects (e ∷ es) one all = (
  (λ acts. single (subst (Among e.actor_subject) one (all.0 acts))),
  one_actor role subject subjects es one all.1,
)
  where
    single : Among e.actor_subject (subject ∷ []) → e.actor_subject ≡ subject
    single (inl same) = same
    single (inr never) = elim never [ ]
