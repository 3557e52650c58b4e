-- ===== src/Outbox/Tests.antt =====
-- Runs of the outbox with two messages and two workers.
use recallops.Common.{
  List, String, [], map, some, ◌∷◌, ◌≡◌, ap, eq_iff, none, Option, arith, inr, refl, true, inl,
}
use recallops.Outbox.Evolution.{WellFormed, is_open, Evolves, run_calls-Evolves}
use recallops.Outbox.{
  Message, claim, claimed, is_claimable, mark_delivered, delivered, holds_undelivered,
}
use recallops.Outbox.Leases.{Interferes, run_calls-Leased}
use recallops.Table.Rows.{Row, Pointwise}
use recallops.Result.{Error, Result, ok}
use recallops.Outbox.Deliver.Counted.{Counts, deliver_available-Counts}
use recallops.Outbox.Deliver.Workers.{Turn, round_of}
use recallops.Outbox.Deliver.{deliver, deliver_available}
use recallops.Workflow.Snapshot.{Time}
use recallops.Outbox.Steps.{acknowledges, run_calls, Action, claims, Call, run_call, act}
use recallops.Outbox.Deliver.Outcome.{deliver-leased}

abbrev pending : String → Time → Message
pending k created = record {
  id = k;
  incident_id = "i";
  tenant_id = "t";
  service = "checkout";
  service_version = "v2";
  payload = "{}";
  created_at = created;
  available_at = created;
  attempts = 0;
  claimed_by = none;
  claimed_until = none;
  delivered_at = none;
  dead_lettered_at = none;
  last_error = none;
}

abbrev table : List Message
table = pending "a" 5 ∷ pending "b" 3 ∷ []

table-WellFormed : WellFormed table
unfolding is_open
table-WellFormed = record {
  distinct = (((λ same. cc ((eq_iff "a" "b").1 same)), tt), (tt, tt));
  settled = ((λ closed. refl), ((λ closed. refl), tt));
}

abbrev call : String → Time → Action → Call
call worker now action = record { worker = worker; now = now; action = action }

-- The older message, claimed by the first worker at 10 for two seconds.
abbrev leased : Message
leased = record (pending "b" 3) {
  claimed_by = some "w1";
  claimed_until = some 2000010;
  attempts = 1;
}

abbrev leased_table : List Message
leased_table = pending "a" 5 ∷ leased ∷ []

first_claim : claim 10 "w1" 2 table ≡ (some leased, leased_table)
unfolding claim claimed is_claimable
first_claim = refl

first_claim-WellFormed : WellFormed leased_table
unfolding is_open
first_claim-WellFormed = record {
  distinct = (((λ same. cc ((eq_iff "a" "b").1 same)), tt), (tt, tt));
  settled = ((λ closed. refl), ((λ closed. cc closed), tt));
}

run_calls-Evolves_example :
    WellFormed (run_calls (call "w1" 10 (claims 2) ∷ call "w1" 20 (acknowledges "b") ∷ []) table)
    × Pointwise Evolves table
        (run_calls (call "w1" 10 (claims 2) ∷ call "w1" 20 (acknowledges "b") ∷ []) table)
run_calls-Evolves_example =
    run_calls-Evolves (call "w1" 10 (claims 2) ∷ call "w1" 20 (acknowledges "b") ∷ []) table
      table-WellFormed

interferes : Interferes "w1" 2000010 (call "w2" 20 (acknowledges "b"))
interferes = (λ same. cc ((eq_iff "w2" "w1").1 same), omega arith)

run_calls-Leased_example :
    Row leased (run_calls (call "w2" 20 (acknowledges "b") ∷ []) leased_table)
run_calls-Leased_example =
    run_calls-Leased "w1" 2000010 leased (call "w2" 20 (acknowledges "b") ∷ []) leased_table
      first_claim-WellFormed (refl, refl) (interferes, tt) (inr (inl refl))

-- An archive that takes everything, and the text of its errors.
abbrev takes_all : Message → Result (Unit {0})
takes_all m = ok tt

abbrev text_of : Error → String
text_of e = "failed"

abbrev turn : Turn
turn = record {
  claimed_at = 10;
  acknowledged_at = 30;
  released_at = 40;
  before_claim = [];
  before_acknowledge = call "w2" 20 (acknowledges "b") ∷ [];
  before_release = [];
}

one_round :
    (deliver_available takes_all text_of "w1" 8 2 (map round_of (turn ∷ [])) (0, 0) table).0
    ≡ ok (1, 0)
unfolding deliver_available round_of claim is_claimable claimed mark_delivered delivered
    holds_undelivered run_calls run_call act
one_round = refl

deliver_available-Counts_example :
    (ms : List Message) × Counts takes_all text_of "w1" 8 2 1 ms table
      (deliver_available takes_all text_of "w1" 8 2 (map round_of (turn ∷ [])) (0, 0) table).1
      (0, 0)
      (1, 0)
deliver_available-Counts_example =
    deliver_available-Counts takes_all text_of "w1" 8 2 (turn ∷ []) (0, 0) (1, 0) table
      table-WellFormed one_round

first_message : (claim 10 "w1" 2 table).0 ≡ some leased
first_message = ap (λ (o : Option Message × List Message). o.0) first_claim

deliver-leased_example :
    ((deliver takes_all text_of "w1" 8 2 (round_of turn) leased (claim 10 "w1" 2 table).1).0
      ≡ ok true)
    × Row
        (delivered 30 leased)
        (deliver takes_all text_of "w1" 8 2 (round_of turn) leased (claim 10 "w1" 2 table).1).1
deliver-leased_example =
    deliver-leased takes_all text_of "w1" 8 2 turn table leased table-WellFormed first_message refl
      (interferes, tt)
