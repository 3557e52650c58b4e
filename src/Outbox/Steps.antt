-- ===== src/Outbox/Steps.antt =====
-- The life of a message as a step relation, and the calls of the outbox as steps of its rows.
use recallops.Common.{
  List, String, ℕ, Option, ◌∷◌, ◌≡◌, Bool-cases, [], true, arith, ltb, inl, refl, some, string_eq,
  inr, leb, ◌==◌, ◌+◌, none,
}
use recallops.Workflow.Snapshot.{Time, Uuid}
use recallops.Outbox.{
  holds_open, holds_undelivered, Message, claim_row, mark_delivered, release_failed, claim,
  is_claimable, claimed, dead_lettered, delivered, released, microseconds, retry_delay,
}
use recallops.Table.Rows.{
  Keyed, Pointwise, update_where-Pointwise, Pointwise-refl, All-rows, select_first-Row, All-map,
  Keyed-Row,
}
use recallops.Table.{select_first, update_where}

-- No two messages have one id.
abbrev pub Distinct : List Message → Type 0
Distinct rows = Keyed (λ m. m.id) rows

-- What a worker asks of the table.
pub data Action : Type 0 where
  claims : ℕ → Action
  acknowledges : Uuid → Action
  fails : Uuid → ℕ → String → ℕ → Action

pub record Call : Type 0 where
  pub worker : String
  pub now : Time
  pub action : Action

unfoldable pub act : Time → String → Action → List Message → List Message
act now worker (claims lease_seconds) rows = (claim now worker lease_seconds rows).1
act now worker (acknowledges message_id) rows = (mark_delivered now message_id worker rows).1
act now worker (fails message_id attempts error max_attempts) rows =
    (release_failed now message_id worker attempts error max_attempts rows).1

unfoldable pub run_call : Call → List Message → List Message
unfolding act
run_call c rows = act c.now c.worker c.action rows

unfoldable pub run_calls : List Call → List Message → List Message
unfolding run_call
run_calls [] rows = rows
run_calls (c ∷ cs) rows = run_calls cs (run_call c rows)

-- What one call by a worker may do to a message.
pub data Step (worker : String) (now : Time) (m : Message) : Message → Type 0 where
  kept : Step worker now m m
  taken : (lease : ℕ) → is_claimable now m ≡ true → Step worker now m (claimed now worker lease m)
  acknowledged : holds_undelivered m.id worker m ≡ true → Step worker now m (delivered now m)
  abandoned :
      (error : String)
      → holds_open m.id worker m ≡ true
      → Step worker now m (dead_lettered now error m)
  returned :
      (again : Time) (error : String)
      → holds_open m.id worker m ≡ true
      → Step worker now m (released again error m)

holds_undelivered-id :
    (k : Uuid) (worker : String) (m : Message)
    → holds_undelivered k worker m ≡ true
    → holds_undelivered m.id worker m ≡ true
unfolding holds_undelivered
holds_undelivered-id k worker m holds =
    ground (arith, string_eq.beq_iff m.id k, string_eq.beq_iff m.id m.id)

holds_open-id :
    (k : Uuid) (worker : String) (m : Message)
    → holds_open k worker m ≡ true
    → holds_open m.id worker m ≡ true
unfolding holds_open
holds_open-id k worker m holds = ground (arith, holds_undelivered-id k worker m)

module _ (now : Time) (worker : String) where
  acknowledges-Step :
      (k : Uuid) (rows : List Message)
      → Pointwise (Step worker now) rows (mark_delivered now k worker rows).1
  unfolding mark_delivered
  acknowledges-Step k rows =
      update_where-Pointwise (Step worker now) (λ x. kept) (holds_undelivered k worker)
        (delivered now) rows
        (All-rows (λ m. holds_undelivered k worker m ≡ true → Step worker now m (delivered now m))
          (λ m holds. acknowledged (holds_undelivered-id k worker m holds)) rows)

  dead_lettered-Step :
      (k : Uuid) (error : String) (rows : List Message)
      → Pointwise
          (Step worker now)
          rows
          (update_where (holds_open k worker) (dead_lettered now error) rows).1
  dead_lettered-Step k error rows =
      update_where-Pointwise (Step worker now) (λ x. kept) (holds_open k worker)
        (dead_lettered now error) rows
        (All-rows
          (λ m. holds_open k worker m ≡ true → Step worker now m (dead_lettered now error m))
          (λ m holds. abandoned error (holds_open-id k worker m holds)) rows)

  released-Step :
      (k : Uuid) (again : Time) (error : String) (rows : List Message)
      → Pointwise
          (Step worker now)
          rows
          (update_where (holds_open k worker) (released again error) rows).1
  released-Step k again error rows =
      update_where-Pointwise (Step worker now) (λ x. kept) (holds_open k worker)
        (released again error) rows
        (All-rows (λ m. holds_open k worker m ≡ true → Step worker now m (released again error m))
          (λ m holds. returned again error (holds_open-id k worker m holds)) rows)

  fails-Step :
      (k : Uuid) (attempts : ℕ) (error : String) (max_attempts : ℕ) (rows : List Message)
      → Pointwise
          (Step worker now)
          rows
          (release_failed now k worker attempts error max_attempts rows).1
  unfolding release_failed
  fails-Step k attempts error max_attempts rows = elim (Bool-cases (ltb max_attempts 1)) [
    | inl bad ↦ rw bad (Pointwise-refl (Step worker now) (λ x. kept) rows)
    | inr good ↦ rw good (elim (Bool-cases (leb max_attempts attempts)) [
      | inl spent ↦ rw spent (dead_lettered-Step k error rows)
      | inr more ↦ rw more (released-Step k (now + microseconds (retry_delay attempts)) error rows)
    ])
  ]

  -- Only the row that was selected is claimed.
  claim_row-Step :
      (lease : ℕ) (rows : List Message) (o : Option Message)
      → select_first (is_claimable now) (λ m. m.created_at) rows ≡ o
      → Distinct rows
      → Pointwise (Step worker now) rows (claim_row now worker lease rows o).1
  unfolding claim_row
  claim_row-Step lease rows none found keyed = Pointwise-refl (Step worker now) (λ x. kept) rows
  claim_row-Step lease rows (some m) found keyed =
      let (row, fits, _) = select_first-Row (is_claimable now) (λ x. x.created_at) rows m found in
      update_where-Pointwise (Step worker now) (λ x. kept) (λ x. x.id == m.id)
        (claimed now worker lease) rows
        (All-map (λ x. x.id ≡ m.id → x ≡ m)
          (λ x. (x.id == m.id) ≡ true → Step worker now x (claimed now worker lease x))
          (λ x same on.
            let is_row : x ≡ m = same ((string_eq.beq_iff x.id m.id).0 on) in
            taken lease (rw is_row fits))
          rows (Keyed-Row (λ x. x.id) rows m keyed row))

  act-Step :
      (a : Action) (rows : List Message)
      → Distinct rows
      → Pointwise (Step worker now) rows (act now worker a rows)
  unfolding act
  act-Step (claims lease) rows keyed =
      unfold claim in
      claim_row-Step lease rows (select_first (is_claimable now) (λ m. m.created_at) rows) refl
        keyed
  act-Step (acknowledges k) rows keyed = acknowledges-Step k rows
  act-Step (fails k attempts error max_attempts) rows keyed =
      fails-Step k attempts error max_attempts rows

-- A call takes at most one step with each message, and no message appears or goes.
pub run_call-Step :
    (c : Call) (rows : List Message)
    → Distinct rows
    → Pointwise (Step c.worker c.now) rows (run_call c rows)
unfolding run_call
run_call-Step c rows keyed = act-Step c.now c.worker c.action rows keyed
