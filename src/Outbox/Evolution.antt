-- ===== src/Outbox/Evolution.antt =====
-- What any sequence of calls, by any workers, keeps of the messages.
use recallops.Outbox.{
  Message, holds_undelivered, claimed, holds_open, is_claimable, delivered, dead_lettered, released,
}
use recallops.Common.{
  List, String, Bool, arith, ◌∙◌, ◌≡◌, All, false, is_none, true, ◌≤◌, none, option_eq, refl, ◌&&◌,
  some, ◌∷◌, sym, [],
}
use recallops.Outbox.Steps.{
  Distinct, Step, taken, acknowledged, abandoned, returned, kept, Call, run_calls, run_call,
  run_call-Step,
}
use recallops.Workflow.Snapshot.{Time}
use recallops.Table.Rows.{
  Pointwise, Pointwise-map, Pointwise-refl, Pointwise-Keyed, Pointwise-All, Pointwise-trans,
}

-- Neither delivered nor dead-lettered.
unfoldable pub is_open : Message → Bool
is_open m = is_none m.delivered_at && is_none m.dead_lettered_at

-- A message that is closed has no owner.
abbrev pub Settled : Message → Type 0
Settled m = is_open m ≡ false → m.claimed_by ≡ none

pub record WellFormed (rows : List Message) : Type 0 where
  pub distinct : Distinct rows
  pub settled : All Settled rows

-- What may become of a message.
pub record Evolves (m m' : Message) : Type 0 where
  pub same_id : m'.id ≡ m.id
  pub same_incident : (m'.incident_id ≡ m.incident_id) × (m'.tenant_id ≡ m.tenant_id)
  pub same_service : (m'.service ≡ m.service) × (m'.service_version ≡ m.service_version)
  pub same_payload : (m'.payload ≡ m.payload) × (m'.created_at ≡ m.created_at)
  pub attempts_grow : m.attempts ≤ m'.attempts
  pub closed_stays : is_open m ≡ false → m' ≡ m

pub Evolves-refl : (m : Message) → Evolves m m
Evolves-refl m = record {
  same_id = refl;
  same_incident = (refl, refl);
  same_service = (refl, refl);
  same_payload = (refl, refl);
  attempts_grow = omega arith;
  closed_stays = λ _. refl;
}

pub Evolves-trans : (a b c : Message) → Evolves a b → Evolves b c → Evolves a c
Evolves-trans a b c p q = record {
  same_id = q.same_id ∙ p.same_id;
  same_incident = (q.same_incident.0 ∙ p.same_incident.0, q.same_incident.1 ∙ p.same_incident.1);
  same_service = (q.same_service.0 ∙ p.same_service.0, q.same_service.1 ∙ p.same_service.1);
  same_payload = (q.same_payload.0 ∙ p.same_payload.0, q.same_payload.1 ∙ p.same_payload.1);
  attempts_grow = omega (arith, p.attempts_grow, q.attempts_grow);
  closed_stays =
      λ closed. let same : b ≡ a = p.closed_stays closed in q.closed_stays (rw same closed) ∙ same;
}

-- A worker holds open messages only.
holder-open :
    (worker : String) (m : Message)
    → Settled m
    → holds_undelivered m.id worker m ≡ true
    → is_open m ≡ true
unfolding is_open holds_undelivered
holder-open worker m settled holds =
    ground (arith, settled, option_eq.beq_iff m.claimed_by (some worker))

pub holds_open-undelivered :
    (worker : String) (m : Message)
    → holds_open m.id worker m ≡ true
    → holds_undelivered m.id worker m ≡ true
unfolding holds_open
holds_open-undelivered worker m holds = ground arith

claimable-open : (now : Time) (m : Message) → is_claimable now m ≡ true → is_open m ≡ true
unfolding is_claimable is_open
claimable-open now m fits = ground arith

-- What any change of an open message is to keep.
changes :
    (m m' : Message)
    → is_open m ≡ true
    → m'.id ≡ m.id
    → (m'.incident_id ≡ m.incident_id) × (m'.tenant_id ≡ m.tenant_id)
    → (m'.service ≡ m.service) × (m'.service_version ≡ m.service_version)
    → (m'.payload ≡ m.payload) × (m'.created_at ≡ m.created_at)
    → m.attempts ≤ m'.attempts
    → Evolves m m'
changes m m' opened i n s p a = record {
  same_id = i;
  same_incident = n;
  same_service = s;
  same_payload = p;
  attempts_grow = a;
  closed_stays = λ closed. cc (closed, opened);
}

module _ (worker : String) (now : Time) where
  Step-Evolves : (m m' : Message) → Settled m → Step worker now m m' → Evolves m m' × Settled m'
  unfolding is_open claimed delivered dead_lettered released
  Step-Evolves m m' settled kept = (Evolves-refl m, settled)
  Step-Evolves m m' settled (taken lease fits) =
      let opened = claimable-open now m fits in
      (
        changes m (claimed now worker lease m) opened refl (refl, refl) (refl, refl) (refl, refl)
            (omega arith),
        (λ closed. cc (closed, opened)),
      )
  Step-Evolves m m' settled (acknowledged holds) = (
    changes m (delivered now m) (holder-open worker m settled holds) refl (refl, refl) (refl, refl)
        (refl, refl) (omega arith),
    (λ _. refl),
  )
  Step-Evolves m m' settled (abandoned error holds) = (
    changes m (dead_lettered now error m)
        (holder-open worker m settled (holds_open-undelivered worker m holds)) refl (refl, refl)
        (refl, refl) (refl, refl) (omega arith),
    (λ _. refl),
  )
  Step-Evolves m m' settled (returned again error holds) = (
    changes m (released again error m)
        (holder-open worker m settled (holds_open-undelivered worker m holds)) refl (refl, refl)
        (refl, refl) (refl, refl) (omega arith),
    (λ _. refl),
  )

-- Every call keeps the table well formed.
pub run_call-WellFormed :
    (c : Call) (rows : List Message) → WellFormed rows → WellFormed (run_call c rows)
run_call-WellFormed c rows wf =
    let steps = run_call-Step c rows wf.distinct in
    record {
      distinct =
          Pointwise-Keyed (λ m. m.id) rows (run_call c rows)
            (Pointwise-map Settled (Step c.worker c.now) (λ x y. x.id ≡ y.id)
              (λ x y settled step. sym (Step-Evolves c.worker c.now x y settled step).0.same_id)
              rows (run_call c rows) wf.settled steps)
            wf.distinct;
      settled =
          Pointwise-All Settled (Step c.worker c.now) Settled
            (λ x y settled step. (Step-Evolves c.worker c.now x y settled step).1) rows
            (run_call c rows) wf.settled steps;
    }

run_call-Evolves :
    (c : Call) (rows : List Message) → WellFormed rows → Pointwise Evolves rows (run_call c rows)
run_call-Evolves c rows wf =
    Pointwise-map Settled (Step c.worker c.now) Evolves
      (λ x y settled step. (Step-Evolves c.worker c.now x y settled step).0) rows (run_call c rows)
      wf.settled (run_call-Step c rows wf.distinct)

-- The calls of any number of workers, in any order and at any times, keep the ids distinct and closed
-- messages without an owner; no message appears or is lost; none changes its identity, its service, its
-- payload or its creation time; none loses an attempt; and one that is delivered or dead-lettered is
-- never changed again. The table is to be well formed at the start.
pub run_calls-Evolves :
    (cs : List Call) (rows : List Message)
    → WellFormed rows
    → WellFormed (run_calls cs rows) × Pointwise Evolves rows (run_calls cs rows)
unfolding run_calls
run_calls-Evolves [] rows wf = (wf, Pointwise-refl Evolves Evolves-refl rows)
run_calls-Evolves (c ∷ cs) rows wf =
    let (well, later) = run_calls-Evolves cs (run_call c rows) (run_call-WellFormed c rows wf) in
    (
      well,
      Pointwise-trans Evolves Evolves-trans rows (run_call c rows) (run_calls cs (run_call c rows))
          (run_call-Evolves c rows wf) later,
    )
