-- ===== src/Outbox/Leases.antt =====
-- What a lease guarantees to the worker that holds it, and what a claim takes.
use recallops.Common.{
  String, ℕ, List, ◌≡◌, ◌≢◌, Option, false, some, ◌≤◌, All, arith, true, option_eq, ◌+◌, ◌∷◌, sym,
  ◌==◌, inl, some-eq, ==_refl, refl, inr, Bool-cases, string_eq, subst, [], none,
}
use recallops.Outbox.Steps.{
  run_calls, Call, Step, taken, acknowledged, abandoned, run_call, run_call-Step, returned, kept,
}
use recallops.Workflow.Snapshot.{Time}
use recallops.Outbox.{
  Message, claim, claim_row, holds_undelivered, is_claimable, claimed, microseconds,
}
use recallops.Outbox.Evolution.{WellFormed, run_call-WellFormed, holds_open-undelivered}
use recallops.Table.Rows.{
  Row, select_first-Row, Pointwise-Row, Pointwise, update_where-Pointwise, All-rows,
}
use recallops.Table.{select_first, update_where}

-- The message is leased to the worker until the time.
abbrev pub Leased : String → Time → Message → Type 0
Leased worker until m = (m.claimed_by ≡ some worker) × (m.claimed_until ≡ some until)

-- A call by another worker, before the lease ends.
abbrev pub Interferes : String → Time → Call → Type 0
Interferes worker until c = (c.worker ≢ worker) × (c.now ≤ until)

module _ (worker other : String) (until now : Time) (m : Message)
    (leased : Leased worker until m) where
  not_claimable : now ≤ until → is_claimable now m ≡ false
  unfolding is_claimable
  not_claimable early = ground arith

  not_held : other ≢ worker → holds_undelivered m.id other m ≡ false
  unfolding holds_undelivered
  not_held differ = rw leased.0 (ground (arith, string_eq.beq_iff worker other))

  -- No other worker changes the message while the lease lasts.
  Step-Leased : (m' : Message) → other ≢ worker → now ≤ until → Step other now m m' → m' ≡ m
  Step-Leased m' differ early kept = refl
  Step-Leased m' differ early (taken lease fits) = absurd (cc (fits, not_claimable early))
  Step-Leased m' differ early (acknowledged holds) = absurd (cc (holds, not_held differ))
  Step-Leased m' differ early (abandoned error holds) =
      absurd (cc (holds_open-undelivered other m holds, not_held differ))
  Step-Leased m' differ early (returned again error holds) =
      absurd (cc (holds_open-undelivered other m holds, not_held differ))

-- While a lease lasts the message is its holder's alone: whatever the other workers call, at times up to
-- the lease's end and in whatever order, the message stays in the table as it is. The table is to be well
-- formed and to hold the message.
pub run_calls-Leased :
    (worker : String) (until : Time) (m : Message) (cs : List Call) (rows : List Message)
    → WellFormed rows
    → Leased worker until m
    → All (Interferes worker until) cs
    → Row m rows
    → Row m (run_calls cs rows)
unfolding run_calls
run_calls-Leased worker until m [] rows wf leased calls row = row
run_calls-Leased worker until m (c ∷ cs) rows wf leased calls row =
    let (m', step, found) =
      Pointwise-Row (Step c.worker c.now) rows (run_call c rows) m
        (run_call-Step c rows wf.distinct) row in
    let same = Step-Leased worker c.worker until c.now m leased m' calls.0.0 calls.0.1 step in
    run_calls-Leased worker until m cs (run_call c rows) (run_call-WellFormed c rows wf) leased
      calls.1 (subst (λ x. Row x (run_call c rows)) same found)

-- Where a claim is made, and what it leaves.
pub record Claims (now : Time) (worker : String) (lease : ℕ) (rows rows' : List Message)
    (m m' : Message) : Type 0 where
  pub row : Row m rows
  pub fits : is_claimable now m ≡ true
  pub oldest : All (λ x. is_claimable now x ≡ true → m.created_at ≤ x.created_at) rows
  pub result : m' ≡ claimed now worker lease m
  pub holds : Leased worker (now + microseconds lease) m'
  pub stored : Row m' rows'
  pub others : Pointwise (λ x y. x.id ≢ m.id → y ≡ x) rows rows'

module _ (now : Time) (worker : String) (lease : ℕ) where
  claimed-stored :
      (m : Message) (rows : List Message)
      → Row m rows
      → Row
          (claimed now worker lease m)
          (update_where (λ x. x.id == m.id) (claimed now worker lease) rows).1
  claimed-stored m [] row = row
  claimed-stored m (x ∷ xs) (inl same) = rw (← same) (rw (==_refl m.id) (inl refl))
  claimed-stored m (x ∷ xs) (inr later) = elim (Bool-cases (x.id == m.id)) [
    | inl hit ↦ rw hit (inr (claimed-stored m xs later))
    | inr miss ↦ rw miss (inr (claimed-stored m xs later))
  ]

  claim_row-Claims :
      (rows : List Message) (o : Option Message) (m' : Message)
      → select_first (is_claimable now) (λ m. m.created_at) rows ≡ o
      → (claim_row now worker lease rows o).0 ≡ some m'
      → (m : Message) × Claims now worker lease rows (claim_row now worker lease rows o).1 m m'
  unfolding claim_row
  claim_row-Claims rows none m' found done = cc
  claim_row-Claims rows (some m) m' found done =
      let (row, fits, oldest) =
        select_first-Row (is_claimable now) (λ x. x.created_at) rows m found in
      (
        m,
        record {
          row = row;
          fits = fits;
          oldest = oldest;
          result = sym (some-eq done);
          holds = rw (← some-eq done) (unfold claimed in (refl, refl));
          stored = rw (← some-eq done) (claimed-stored m rows row);
          others =
              update_where-Pointwise (λ x y. x.id ≢ m.id → y ≡ x) (λ x _. refl) (λ x. x.id == m.id)
                (claimed now worker lease) rows
                (All-rows
                  (λ x. (x.id == m.id) ≡ true → x.id ≢ m.id → claimed now worker lease x ≡ x)
                  (λ x on differ. absurd (differ ((string_eq.beq_iff x.id m.id).0 on))) rows);
        },
      )

  -- A claim takes the oldest message that is due, open and without a running lease, counts the attempt,
  -- and leases it to the worker for the seconds asked for; every other message stays as it is.
  pub claim-Claims :
      (rows : List Message) (m' : Message)
      → (claim now worker lease rows).0 ≡ some m'
      → (m : Message) × Claims now worker lease rows (claim now worker lease rows).1 m m'
  unfolding claim
  claim-Claims rows m' done =
      claim_row-Claims rows (select_first (is_claimable now) (λ m. m.created_at) rows) m' refl done
