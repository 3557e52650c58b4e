-- ===== src/Outbox/Deliver/Counted.antt =====
-- What a worker's whole run of deliveries has counted: `deliver_available` of src/recallops/outbox.py.
use recallops.Workflow.Snapshot.{Time}
use recallops.Outbox.{Message, claim, claimed, is_claimable, holds_undelivered, delivered}
use recallops.Common.{
  String, List, All, ℕ, ◌≡◌, none, true, arith, string_eq, some, ◌+◌, refl, false, ◌≤◌, ◌∷◌, [],
  map, Bool, ◌∙◌, sym, ◌≢◌, length, Option, ap, suc,
}
use recallops.Result.{Result, Error, ok, err, ok-injective}
use recallops.Outbox.Leases.{Claims, claim-Claims}
use recallops.Outbox.Evolution.{WellFormed, Evolves, Evolves-trans}
use recallops.Outbox.Deliver.{
  deliver, deliver_available, after_claim, after_delivery, count_delivery,
}
use recallops.Table.Rows.{
  Row, Pointwise, Pointwise-Row, Keyed, Keyed-Row, All-Row, All-map, Pointwise-trans,
}
use recallops.Outbox.Deliver.Workers.{
  Turn, round_of, Develops, run_calls-Develops, claim-Develops, deliver-Develops,
  deliver_available-Develops,
}
use recallops.Outbox.Deliver.Outcome.{deliver-delivered}
use recallops.Outbox.Steps.{run_calls}
use recallops.Outbox.Deliver.Closing.{
  Undelivered, Delivered, Undelivered-before, Delivered-after, Delivered-differ,
}

module _ (archive_payload : Message → Result (Unit {0})) (text_of : Error → String)
    (worker_id : String) (max_attempts lease_seconds : ℕ) where
  -- What a run of at most `limit` rounds has counted, from the table `rows` to the table `rows'`: the
  -- messages `ms` as delivered, and the others as failed.
  pub record Counts (limit : ℕ) (ms : List Message) (rows rows' : List Message)
      (counts after : ℕ × ℕ) : Type 0 where
    pub delivered_count : after.0 ≡ counts.0 + length ms
    pub failed_count : counts.1 ≤ after.1
    pub rounds : after.0 + after.1 ≤ counts.0 + counts.1 + limit
    pub archived : All (λ (m : Message). archive_payload m ≡ ok tt) ms
    pub undelivered : All (Undelivered rows) ms
    pub closed_rows : All (Delivered rows') ms
    pub different : Keyed (λ (m : Message). m.id) ms

  -- No more rounds, and nothing counted.
  nothing-Counts :
      (limit : ℕ) (rows rows' : List Message) (counts after : ℕ × ℕ)
      → counts ≡ after
      → Counts limit [] rows rows' counts after
  nothing-Counts limit rows rows' counts after same = record {
    delivered_count = omega (arith, ap (λ (c : ℕ × ℕ). c.0) same);
    failed_count = omega (arith, ap (λ (c : ℕ × ℕ). c.1) same);
    rounds = omega (arith, ap (λ (c : ℕ × ℕ). c.0) same, ap (λ (c : ℕ × ℕ). c.1) same);
    archived = tt;
    undelivered = tt;
    closed_rows = tt;
    different = tt;
  }

  module _ (limit : ℕ) (rest : ℕ × ℕ → List Message → Result (ℕ × ℕ) × List Message)
      (develops : (counts : ℕ × ℕ) (rows : List Message) → Develops rows (rest counts rows).1)
      (goes_on : (counts after : ℕ × ℕ) (rows : List Message)
        → WellFormed rows
        → (rest counts rows).0 ≡ ok after
        → (ms : List Message) × Counts limit ms rows (rest counts rows).1 counts after) where
    after_delivery-Counts :
        (counts after : ℕ × ℕ) (m : Message) (start : List Message) (o : Result Bool)
        (rows : List Message)
        → WellFormed rows
        → Pointwise Evolves start rows
        → Undelivered start m
        → (o ≡ ok true → (archive_payload m ≡ ok tt) × Delivered rows m)
        → (after_delivery archive_payload text_of worker_id max_attempts lease_seconds rest counts
            (o, rows)).0
          ≡ ok after
        → (ms : List Message) × Counts
            (suc limit)
            ms
            start
            (after_delivery archive_payload text_of worker_id max_attempts lease_seconds rest counts
              (o, rows)).1
            counts
            after
    unfolding after_delivery count_delivery
    after_delivery-Counts counts after m start (err e) rows wf evolve fresh outcome done = cc
    after_delivery-Counts counts after m start (ok false) rows wf evolve fresh outcome done =
        let (ms, c) = goes_on (counts.0, counts.1 + 1) after rows wf done in
        (
          ms,
          record {
            delivered_count = c.delivered_count;
            failed_count = omega (arith, c.failed_count);
            rounds = omega (arith, c.rounds);
            archived = c.archived;
            undelivered =
                All-map (Undelivered rows) (Undelivered start)
                  (Undelivered-before start rows evolve) ms c.undelivered;
            closed_rows = c.closed_rows;
            different = c.different;
          },
        )
    after_delivery-Counts counts after m start (ok true) rows wf evolve fresh outcome done =
        let (ms, c) = goes_on (counts.0 + 1, counts.1) after rows wf done in
        let (archived, there) = outcome refl in
        let final = (rest (counts.0 + 1, counts.1) rows).1 in
        (
          m ∷ ms,
          record {
            delivered_count = omega (arith, c.delivered_count);
            failed_count = c.failed_count;
            rounds = omega (arith, c.rounds);
            archived = (archived, c.archived);
            undelivered = (
              fresh,
              All-map (Undelivered rows) (Undelivered start) (Undelivered-before start rows evolve)
                  ms c.undelivered,
            );
            closed_rows = (
              Delivered-after rows final (develops (counts.0 + 1, counts.1) rows wf).1 m there,
              c.closed_rows,
            );
            different = (
              All-map (Undelivered rows) (λ m'. m.id ≢ m'.id)
                  (λ m'. Delivered-differ rows m m' wf there) ms c.undelivered,
              c.different,
            );
          },
        )

  claimed-Undelivered :
      (now : Time) (rows rows' : List Message) (m0 m : Message)
      → Claims now worker_id lease_seconds rows rows' m0 m
      → Undelivered rows m
  unfolding is_claimable claimed
  claimed-Undelivered now rows rows' m0 m c = (
    m0,
    c.row,
    sym (ap (λ (x : Message). x.id) c.result),
    sym (ap (λ (x : Message). x.payload) c.result),
    ground (arith, c.fits),
  )

  -- What is counted as delivered has been archived, and its row is marked.
  deliver-Delivered :
      (t : Turn) (m : Message) (rows : List Message)
      → WellFormed rows
      → Row m rows
      → (deliver archive_payload text_of worker_id max_attempts lease_seconds (round_of t) m rows).0
        ≡ ok true
      → (archive_payload m ≡ ok tt)
        × Delivered
            (deliver archive_payload text_of worker_id max_attempts lease_seconds
              (round_of t)
              m
              rows).1
            m
  unfolding round_of delivered holds_undelivered
  deliver-Delivered t m rows wf row done =
      let (archived, (x, found, holds, marked)) =
        deliver-delivered archive_payload text_of worker_id max_attempts lease_seconds (round_of t)
          m rows done in
      let named : x.id ≡ m.id = ground (arith, string_eq.beq_iff x.id m.id) in
      let (wf', evolve) = run_calls-Develops t.before_acknowledge rows wf in
      let (y, evolves, there) =
        Pointwise-Row Evolves rows (run_calls t.before_acknowledge rows) m evolve row in
      let one : x ≡ y =
        All-Row (λ z. z.id ≡ y.id → z ≡ y) (run_calls t.before_acknowledge rows) x
          (Keyed-Row (λ (z : Message). z.id) (run_calls t.before_acknowledge rows) y wf'.distinct
            there)
          found (named ∙ sym evolves.same_id) in
      (
        archived,
        (
          delivered t.acknowledged_at x,
          marked,
          named,
          ap (λ (z : Message). z.payload) one ∙ evolves.same_payload.0,
          (λ e. cc e),
        ),
      )

  module _ (limit : ℕ) (rest : ℕ × ℕ → List Message → Result (ℕ × ℕ) × List Message)
      (develops : (counts : ℕ × ℕ) (rows : List Message) → Develops rows (rest counts rows).1)
      (goes_on : (counts after : ℕ × ℕ) (rows : List Message)
        → WellFormed rows
        → (rest counts rows).0 ≡ ok after
        → (ms : List Message) × Counts limit ms rows (rest counts rows).1 counts after) where
    after_claim-Counts :
        (t : Turn) (counts after : ℕ × ℕ) (start : List Message) (o : Option Message)
        (rows : List Message)
        → WellFormed rows
        → Pointwise Evolves start rows
        → ((m : Message) → o ≡ some m → Undelivered start m × Row m rows)
        → (after_claim archive_payload text_of worker_id max_attempts lease_seconds rest
            (round_of t)
            counts
            (o, rows)).0
          ≡ ok after
        → (ms : List Message) × Counts
            (suc limit)
            ms
            start
            (after_claim archive_payload text_of worker_id max_attempts lease_seconds rest
              (round_of t)
              counts
              (o, rows)).1
            counts
            after
    unfolding after_claim
    after_claim-Counts t counts after start none rows wf evolve taken done =
        ([], nothing-Counts (suc limit) start rows counts after (ok-injective done))
    after_claim-Counts t counts after start (some m) rows wf evolve taken done =
        let (fresh, row) = taken m refl in
        let out =
          deliver archive_payload text_of worker_id max_attempts lease_seconds (round_of t) m
            rows in
        let (wf', evolve') =
          deliver-Develops archive_payload text_of worker_id max_attempts lease_seconds t m rows
            wf in
        after_delivery-Counts limit rest develops goes_on counts after m start out.0 out.1 wf'
          (Pointwise-trans Evolves Evolves-trans start rows out.1 evolve evolve') fresh
          (deliver-Delivered t m rows wf row) done

  -- What a worker's run that returns has added to the count of deliveries is the number of some different
  -- messages, each of which was undelivered in the table at the start, had its payload archived, and is
  -- delivered, with the same payload, in the table at the end, whatever the archive answers to the others
  -- and whatever other workers call between the statements; all that is counted, the failures with it, is
  -- at most one for each round. The table is to be well formed.
  pub deliver_available-Counts :
      (ts : List Turn) (counts after : ℕ × ℕ) (rows : List Message)
      → WellFormed rows
      → (deliver_available archive_payload text_of worker_id max_attempts lease_seconds
          (map round_of ts)
          counts
          rows).0
        ≡ ok after
      → (ms : List Message) × Counts
          (length ts)
          ms
          rows
          (deliver_available archive_payload text_of worker_id max_attempts lease_seconds
            (map round_of ts)
            counts
            rows).1
          counts
          after
  unfolding deliver_available round_of
  deliver_available-Counts [] counts after rows wf done =
      ([], nothing-Counts 0 rows rows counts after (ok-injective done))
  deliver_available-Counts (t ∷ ts) counts after rows wf done =
      let before = run_calls t.before_claim rows in
      let taking = claim t.claimed_at worker_id lease_seconds before in
      let (wf1, evolve1) = run_calls-Develops t.before_claim rows wf in
      let (wf2, evolve2) =
        claim-Develops archive_payload text_of worker_id max_attempts lease_seconds t.claimed_at
          before wf1 in
      after_claim-Counts (length ts)
        (deliver_available archive_payload text_of worker_id max_attempts lease_seconds
          (map round_of ts))
        (deliver_available-Develops archive_payload text_of worker_id max_attempts lease_seconds ts)
        (λ c a r. deliver_available-Counts ts c a r) t counts after rows taking.0 taking.1 wf2
        (Pointwise-trans Evolves Evolves-trans rows before taking.1 evolve1 evolve2)
        (λ m took.
          let (m0, c) = claim-Claims t.claimed_at worker_id lease_seconds before m took in
          (
            Undelivered-before rows before evolve1 m
                (claimed-Undelivered t.claimed_at before taking.1 m0 m c),
            c.stored,
          ))
        done
