-- ===== src/Outbox/Deliver/Workers.antt =====
-- Delivery among other workers, whose calls come between the statements of every round.
use recallops.Workflow.Snapshot.{Time}
use recallops.Outbox.Steps.{run_calls, Action, Call, run_call, act, claims, acknowledges, fails}
use recallops.Common.{List, String, [], ◌∷◌, ℕ, Bool, Option, map, some, Bool-cases, none, inr, inl}
use recallops.Outbox.{Message, claim, mark_delivered, release_failed}
use recallops.Outbox.Deliver.{
  Round, acknowledge, after_claim, after_delivery, deliver, deliver_available, settle, try_deliver,
  count_delivery, is_caught,
}
use recallops.Outbox.Evolution.{WellFormed, run_calls-Evolves, Evolves, Evolves-trans}
use recallops.Table.Rows.{Pointwise-trans, Pointwise}
use recallops.Result.{Result, Error, ok, err}

-- The times of a round's statements, and the calls of others before each of them.
pub record Turn : Type 0 where
  pub claimed_at : Time
  pub acknowledged_at : Time
  pub released_at : Time
  pub before_claim : List Call
  pub before_acknowledge : List Call
  pub before_release : List Call

unfoldable pub round_of : Turn → Round
unfolding run_calls
round_of t = record {
  claimed_at = t.claimed_at;
  acknowledged_at = t.acknowledged_at;
  released_at = t.released_at;
  before_claim = run_calls t.before_claim;
  before_acknowledge = run_calls t.before_acknowledge;
  before_release = run_calls t.before_release;
}

-- What any number of calls may make of a table.
abbrev pub Develops : List Message → List Message → Type 0
Develops rows rows' = WellFormed rows → WellFormed rows' × Pointwise Evolves rows rows'

Develops-refl : (rows : List Message) → Develops rows rows
unfolding run_calls
Develops-refl rows wf = run_calls-Evolves [] rows wf

Develops-trans : (a b c : List Message) → Develops a b → Develops b c → Develops a c
Develops-trans a b c p q wf =
    let (wb, ab) = p wf in
    let (wc, bc) = q wb in (wc, Pointwise-trans Evolves Evolves-trans a b c ab bc)

pub run_calls-Develops : (cs : List Call) (rows : List Message) → Develops rows (run_calls cs rows)
run_calls-Develops cs rows wf = run_calls-Evolves cs rows wf

-- One call of this worker.
one_call :
    (worker : String) (now : Time) (a : Action) (rows : List Message)
    → Develops rows (run_calls (record { worker = worker; now = now; action = a } ∷ []) rows)
one_call worker now a rows =
    run_calls-Develops (record { worker = worker; now = now; action = a } ∷ []) rows

module _ (archive_payload : Message → Result (Unit {0})) (text_of : Error → String)
    (worker_id : String) (max_attempts lease_seconds : ℕ) where
  pub claim-Develops :
      (now : Time) (rows : List Message) → Develops rows (claim now worker_id lease_seconds rows).1
  unfolding run_calls run_call act
  claim-Develops now rows = one_call worker_id now (claims lease_seconds) rows

  acknowledge-Develops :
      (t : Turn) (m : Message) (rows : List Message)
      → Develops rows
          (acknowledge archive_payload text_of worker_id max_attempts lease_seconds
            (round_of t)
            m
            rows).1
  unfolding acknowledge round_of run_calls run_call act
  acknowledge-Develops t m rows =
      let rows' = run_calls t.before_acknowledge rows in
      Develops-trans rows rows' (mark_delivered t.acknowledged_at m.id worker_id rows').1
        (run_calls-Develops t.before_acknowledge rows)
        (one_call worker_id t.acknowledged_at (acknowledges m.id) rows')

  try_deliver-Develops :
      (t : Turn) (m : Message) (o : Result (Unit {0})) (rows : List Message)
      → Develops rows
          (try_deliver archive_payload text_of worker_id max_attempts lease_seconds
            (round_of t)
            m
            o
            rows).1
  unfolding try_deliver
  try_deliver-Develops t m (ok _) rows = acknowledge-Develops t m rows
  try_deliver-Develops t m (err e) rows =
      unfold round_of in run_calls-Develops t.before_acknowledge rows

  settle-Develops :
      (t : Turn) (m : Message) (o : Result (Unit {0})) (rows : List Message)
      → Develops rows
          (settle archive_payload text_of worker_id max_attempts lease_seconds
            (round_of t)
            m
            (o, rows)).1
  unfolding settle
  settle-Develops t m (ok _) rows = Develops-refl rows
  settle-Develops t m (err e) rows = elim (Bool-cases (is_caught e)) [
    | inr raised ↦ rw raised (Develops-refl rows)
    | inl caught ↦ rw caught (
        unfold round_of run_calls run_call act in
        let rows' = run_calls t.before_release rows in
        Develops-trans rows rows'
          (release_failed t.released_at m.id worker_id m.attempts (text_of e) max_attempts rows').1
          (run_calls-Develops t.before_release rows)
          (one_call worker_id t.released_at (fails m.id m.attempts (text_of e) max_attempts) rows'))
  ]

  pub deliver-Develops :
      (t : Turn) (m : Message) (rows : List Message)
      → Develops rows
          (deliver archive_payload text_of worker_id max_attempts lease_seconds
            (round_of t)
            m
            rows).1
  unfolding deliver
  deliver-Develops t m rows =
      let (o, rows') =
        try_deliver archive_payload text_of worker_id max_attempts lease_seconds (round_of t) m
          (archive_payload m) rows in
      Develops-trans rows rows'
        (settle archive_payload text_of worker_id max_attempts lease_seconds (round_of t) m
          (o, rows')).1
        (try_deliver-Develops t m (archive_payload m) rows) (settle-Develops t m o rows')

  module _ (rest : ℕ × ℕ → List Message → Result (ℕ × ℕ) × List Message)
      (goes_on : (counts : ℕ × ℕ) (rows : List Message) → Develops rows (rest counts rows).1) where
    after_delivery-Develops :
        (counts : ℕ × ℕ) (o : Result Bool) (rows : List Message)
        → Develops rows
            (after_delivery archive_payload text_of worker_id max_attempts lease_seconds rest counts
              (o, rows)).1
    unfolding after_delivery
    after_delivery-Develops counts (err e) rows = Develops-refl rows
    after_delivery-Develops counts (ok done) rows =
        goes_on
          (count_delivery archive_payload text_of worker_id max_attempts lease_seconds done counts)
          rows

    after_claim-Develops :
        (t : Turn) (counts : ℕ × ℕ) (o : Option Message) (rows : List Message)
        → Develops rows
            (after_claim archive_payload text_of worker_id max_attempts lease_seconds rest
              (round_of t)
              counts
              (o, rows)).1
    unfolding after_claim
    after_claim-Develops t counts none rows = Develops-refl rows
    after_claim-Develops t counts (some m) rows =
        let (o, rows') =
          deliver archive_payload text_of worker_id max_attempts lease_seconds (round_of t) m
            rows in
        Develops-trans rows rows'
          (after_delivery archive_payload text_of worker_id max_attempts lease_seconds rest counts
            (o, rows')).1
          (deliver-Develops t m rows) (after_delivery-Develops counts o rows')

  -- A worker's whole run of deliveries, whatever the archive answers and whatever other workers call
  -- between its statements, keeps a well-formed table well formed: no message appears, is lost or changes
  -- its identity or payload, none loses an attempt, and one that was closed at the start is as it was.
  pub deliver_available-Develops :
      (ts : List Turn) (counts : ℕ × ℕ) (rows : List Message)
      → WellFormed rows
      → WellFormed
          (deliver_available archive_payload text_of worker_id max_attempts lease_seconds
            (map round_of ts)
            counts
            rows).1
        × Pointwise Evolves rows
            (deliver_available archive_payload text_of worker_id max_attempts lease_seconds
              (map round_of ts)
              counts
              rows).1
  unfolding deliver_available round_of
  deliver_available-Develops [] counts rows = Develops-refl rows
  deliver_available-Develops (t ∷ ts) counts rows =
      let rest =
        deliver_available archive_payload text_of worker_id max_attempts lease_seconds
          (map round_of ts) in
      let before = run_calls t.before_claim rows in
      let (o, rows') = claim t.claimed_at worker_id lease_seconds before in
      Develops-trans rows before
        (after_claim archive_payload text_of worker_id max_attempts lease_seconds rest (round_of t)
          counts (o, rows')).1
        (run_calls-Develops t.before_claim rows)
        (Develops-trans before rows'
          (after_claim archive_payload text_of worker_id max_attempts lease_seconds rest
            (round_of t) counts (o, rows')).1
          (claim-Develops t.claimed_at before)
          (after_claim-Develops rest (deliver_available-Develops ts) t counts o rows'))
