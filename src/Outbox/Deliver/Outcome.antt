-- ===== src/Outbox/Deliver/Outcome.antt =====
-- What a delivery comes to: with its lease, without it, and when it is counted.
use recallops.Workflow.Snapshot.{Time, Uuid}
use recallops.Outbox.{
  Message, holds_undelivered, mark_delivered, delivered, claim, microseconds, is_claimable, claimed,
  release_failed, holds_open, dead_lettered, released, retry_delay,
}
use recallops.Common.{
  String, List, All, ℕ, ◌≡◌, none, true, arith, string_eq, some, ◌+◌, ==_refl, refl, false, ◌<◌,
  ltb, Bool-cases, leb, inl, inr, Bool, ap, if◌then◌else◌, ◌∙◌, sym, subst,
}
use recallops.Result.{Result, Error, ok, err, ◌>>=◌}
use recallops.Outbox.Leases.{Leased, Interferes, claim-Claims, run_calls-Leased}
use recallops.Outbox.Evolution.{WellFormed, run_call-WellFormed, run_calls-Evolves}
use recallops.Outbox.Deliver.{
  deliver, try_deliver, acknowledge, settle, Round, lease_lost, is_caught,
}
use recallops.Table.Rows.{
  Row, All-rows, update_where_one, update_where_some, All-map, update_where_none,
}
use recallops.Outbox.Deliver.Workers.{round_of, Turn}
use recallops.Outbox.Steps.{run_call, run_calls, act, claims}

-- The row that this worker acknowledges, if the message is among the rows that it may.
module _ (now : Time) (worker : String) (until : Time) (m : Message) (rows : List Message) where
  named : All (λ x. holds_undelivered m.id worker x ≡ true → x.id ≡ m.id) rows
  named =
      All-rows (λ x. holds_undelivered m.id worker x ≡ true → x.id ≡ m.id)
        (λ x holds. holds-id x holds) rows
    where
      holds-id : (x : Message) → holds_undelivered m.id worker x ≡ true → x.id ≡ m.id
      holds-id x holds = unfold holds_undelivered in ground (arith, string_eq.beq_iff x.id m.id)

  holder-holds :
      Leased worker until m → m.delivered_at ≡ none → holds_undelivered m.id worker m ≡ true
  unfolding holds_undelivered
  holder-holds leased undelivered =
      rw leased.0 (rw undelivered (ground (arith, ==_refl m.id, ==_refl worker)))

  -- The holder of an undelivered message delivers it.
  mark_delivered-holder :
      WellFormed rows
      → Leased worker until m
      → m.delivered_at ≡ none
      → Row m rows
      → ((mark_delivered now m.id worker rows).0 ≡ true)
        × Row (delivered now m) (mark_delivered now m.id worker rows).1
  unfolding mark_delivered
  mark_delivered-holder wf leased undelivered row =
      let (one, found) =
        update_where_one (λ x. x.id) (holds_undelivered m.id worker) (delivered now) m rows
          wf.distinct named (holder-holds leased undelivered) row in
      (rw one refl, found)

module _ (archive_payload : Message → Result (Unit {0})) (text_of : Error → String)
    (worker_id : String) (max_attempts lease_seconds : ℕ) where
  claim-WellFormed :
      (now : Time) (rows : List Message)
      → WellFormed rows
      → WellFormed (claim now worker_id lease_seconds rows).1
  unfolding run_call act
  claim-WellFormed now rows wf =
      run_call-WellFormed (record { worker = worker_id; now = now; action = claims lease_seconds })
        rows wf

  claimed-undelivered :
      (now : Time) (m : Message)
      → is_claimable now m ≡ true
      → (claimed now worker_id lease_seconds m).delivered_at ≡ none
  unfolding is_claimable claimed
  claimed-undelivered now m fits = ground arith

  -- A worker that claims a message and archives its payload delivers it, if the calls of the others come
  -- before its lease ends: the delivery is counted, and the message's row holds the time of the
  -- acknowledgement and has no owner. The table is to be well formed.
  pub deliver-leased :
      (t : Turn) (rows : List Message) (m : Message)
      → WellFormed rows
      → (claim t.claimed_at worker_id lease_seconds rows).0 ≡ some m
      → archive_payload m ≡ ok tt
      → All (Interferes worker_id (t.claimed_at + microseconds lease_seconds)) t.before_acknowledge
      → ((deliver archive_payload text_of worker_id max_attempts lease_seconds
            (round_of t)
            m
            (claim t.claimed_at worker_id lease_seconds rows).1).0
          ≡ ok true)
        × Row
            (delivered t.acknowledged_at m)
            (deliver archive_payload text_of worker_id max_attempts lease_seconds
              (round_of t)
              m
              (claim t.claimed_at worker_id lease_seconds rows).1).1
  unfolding deliver try_deliver acknowledge settle round_of
  deliver-leased t rows m wf taken archived calls =
      let (m0, taking) = claim-Claims t.claimed_at worker_id lease_seconds rows m taken in
      let rows1 = (claim t.claimed_at worker_id lease_seconds rows).1 in
      let rows2 = run_calls t.before_acknowledge rows1 in
      let wf1 : WellFormed rows1 = claim-WellFormed t.claimed_at rows wf in
      let row : Row m rows2 =
        run_calls-Leased worker_id (t.claimed_at + microseconds lease_seconds) m
          t.before_acknowledge rows1 wf1 taking.holds calls taking.stored in
      let (done, stored) =
        mark_delivered-holder t.acknowledged_at worker_id
          (t.claimed_at + microseconds lease_seconds) m rows2
          (run_calls-Evolves t.before_acknowledge rows1 wf1).0 taking.holds
          (rw taking.result (claimed-undelivered t.claimed_at m0 taking.fits)) row in
      rw archived (rw done (refl, stored))

  -- A worker that holds nothing of a message cannot settle it: the acknowledgement changes no row.
  lost-acknowledge :
      (now : Time) (k : Uuid) (rows : List Message)
      → All (λ x. holds_undelivered k worker_id x ≡ false) rows
      → mark_delivered now k worker_id rows ≡ (false, rows)
  unfolding mark_delivered
  lost-acknowledge now k rows lost =
      rw (update_where_none (holds_undelivered k worker_id) (delivered now) rows lost)

  lost-release :
      (now : Time) (k : Uuid) (attempts : ℕ) (error : String) (rows : List Message)
      → 0 < max_attempts
      → All (λ x. holds_undelivered k worker_id x ≡ false) rows
      → release_failed now k worker_id attempts error max_attempts rows ≡ (ok false, rows)
  unfolding release_failed
  lost-release now k attempts error rows positive lost =
      let none_open =
        All-map (λ x. holds_undelivered k worker_id x ≡ false)
          (λ x. holds_open k worker_id x ≡ false) (λ x off. unfold holds_open in rw off refl) rows
          lost in
      let bound : ltb max_attempts 1 ≡ false = ground arith in
      rw bound (elim (Bool-cases (leb max_attempts attempts)) [
        | inl spent ↦ rw spent (
            rw
              (update_where_none (holds_open k worker_id) (dead_lettered now error) rows none_open))
        | inr more ↦ rw more (
            rw (
              update_where_none (holds_open k worker_id)
                (released (now + microseconds (retry_delay attempts)) error) rows none_open))
      ])

  -- Short names for the parts of a delivery.
  abbrev acknowledging : Round → Message → List Message → Result (Unit {0}) × List Message
  acknowledging = acknowledge archive_payload text_of worker_id max_attempts lease_seconds

  abbrev trying :
      Round → Message → Result (Unit {0}) → List Message → Result (Unit {0}) × List Message
  trying = try_deliver archive_payload text_of worker_id max_attempts lease_seconds

  abbrev settling : Round → Message → Result (Unit {0}) × List Message → Result Bool × List Message
  settling = settle archive_payload text_of worker_id max_attempts lease_seconds

  acknowledge-lost :
      (r : Round) (m : Message) (rows : List Message)
      → All (λ x. holds_undelivered m.id worker_id x ≡ false) (r.before_acknowledge rows)
      → acknowledging r m rows ≡ (err lease_lost, r.before_acknowledge rows)
  unfolding acknowledge
  acknowledge-lost r m rows lost =
      ap (λ (o : Bool × List Message). ((if o.0 then ok tt else err lease_lost), o.1))
        (lost-acknowledge r.acknowledged_at m.id (r.before_acknowledge rows) lost)

  settle-lost :
      (r : Round) (m : Message) (rows : List Message)
      → 0 < max_attempts
      → All (λ x. holds_undelivered m.id worker_id x ≡ false) (r.before_release rows)
      → settling r m (err lease_lost, rows) ≡ (ok false, r.before_release rows)
  unfolding settle lease_lost is_caught
  settle-lost r m rows positive lost =
      rw
        (lost-release r.released_at m.id m.attempts (text_of lease_lost) (r.before_release rows)
          positive lost)
        refl

  -- A worker whose message belongs to nobody else but not to it any more, when it acknowledges and when it
  -- reports the failure, changes no row: its delivery is counted as failed, and the table is what the
  -- others made of it. The retry budget is to be positive.
  pub deliver-lost :
      (r : Round) (m : Message) (rows : List Message)
      → 0 < max_attempts
      → archive_payload m ≡ ok tt
      → All (λ x. holds_undelivered m.id worker_id x ≡ false) (r.before_acknowledge rows)
      → All
          (λ x. holds_undelivered m.id worker_id x ≡ false)
          (r.before_release (r.before_acknowledge rows))
      → deliver archive_payload text_of worker_id max_attempts lease_seconds r m rows
        ≡ (ok false, r.before_release (r.before_acknowledge rows))
  unfolding deliver try_deliver
  deliver-lost r m rows positive archived lost still =
      ap (λ o. settling r m (trying r m o rows)) archived
      ∙ ap (settling r m) (acknowledge-lost r m rows lost)
      ∙ settle-lost r m (r.before_acknowledge rows) positive still

  acknowledge-ok :
      (r : Round) (m : Message) (rows : List Message) {u : Unit {0}}
      → (acknowledging r m rows).0 ≡ ok u
      → (x : Message) × Row x (r.before_acknowledge rows)
        × (holds_undelivered m.id worker_id x ≡ true)
        × Row (delivered r.acknowledged_at x) (acknowledging r m rows).1
  unfolding acknowledge mark_delivered
  acknowledge-ok r m rows done =
      update_where_some (holds_undelivered m.id worker_id) (delivered r.acknowledged_at)
        (r.before_acknowledge rows) (λ none_changed. ground arith)

  settle-delivered :
      (r : Round) (m : Message) (o : Result (Unit {0})) (rows : List Message)
      → (settling r m (o, rows)).0 ≡ ok true
      → (o ≡ ok tt) × ((settling r m (o, rows)).1 ≡ rows)
  unfolding settle
  settle-delivered r m (ok _) rows done = (refl, refl)
  settle-delivered r m (err e) rows done = absurd (
      never (is_caught e)
        (release_failed r.released_at m.id worker_id m.attempts (text_of e) max_attempts
          (r.before_release rows))
        done)
    where
      never :
          (b : Bool) (o : Result Bool × List Message)
          → (if◌then◌else◌ {A = Result Bool × List Message} b
              ((o.0 >>= (λ _. ok false)), o.1)
              (err e, rows)).0
            ≡ ok true
          → ⊥
      never true (ok dead, rows') h = cc
      never true (err e', rows') h = cc
      never false o h = cc

  trying-ok :
      (r : Round) (m : Message) (o : Result (Unit {0})) (rows : List Message)
      → (trying r m o rows).0 ≡ ok tt
      → (o ≡ ok tt) × (trying r m o rows ≡ acknowledging r m rows)
  unfolding try_deliver
  trying-ok r m (ok _) rows done = (refl, refl)
  trying-ok r m (err e) rows done = cc

  -- A delivery is counted only if the payload was archived and this worker still owned the message's
  -- undelivered row when it acknowledged: that row now holds the time of the acknowledgement.
  pub deliver-delivered :
      (r : Round) (m : Message) (rows : List Message)
      → (deliver archive_payload text_of worker_id max_attempts lease_seconds r m rows).0 ≡ ok true
      → (archive_payload m ≡ ok tt)
        × ((x : Message) × Row x (r.before_acknowledge rows)
            × (holds_undelivered m.id worker_id x ≡ true)
            × Row
                (delivered r.acknowledged_at x)
                (deliver archive_payload text_of worker_id max_attempts lease_seconds r m rows).1)
  unfolding deliver
  deliver-delivered r m rows done =
      let (acknowledged, same) =
        settle-delivered r m (trying r m (archive_payload m) rows).0
          (trying r m (archive_payload m) rows).1 done in
      let (archived, tried) = trying-ok r m (archive_payload m) rows acknowledged in
      let (x, row, holds, marked) =
        acknowledge-ok r m rows
          (ap (λ (o : Result (Unit {0}) × List Message). o.0) (sym tried) ∙ acknowledged) in
      (
        archived,
        (
          x,
          row,
          holds,
          subst (λ z. Row (delivered r.acknowledged_at x) z)
              (ap (λ (o : Result (Unit {0}) × List Message). o.1) (sym tried) ∙ sym same) marked,
        ),
      )
