-- ===== src/Outbox/Deliver.antt =====
-- `deliver_available` of src/recallops/outbox.py. The archive's `archive_payload` and `str(error)` are
-- parameters; what other workers do to the table between the statements of a round is a part of the round.
pub mod Workers
pub mod Outcome
pub mod Closing
pub mod Counted
use recallops.Result.{Error, Result, runtime_error, dependency_unavailable, ok, err, ◌>>=◌}
use recallops.Workflow.Snapshot.{Time}
use recallops.Outbox.{Message, claim, mark_delivered, release_failed}
use recallops.Common.{
  Bool, List, String, true, ℕ, false, ◌+◌, if◌then◌else◌, ◌∷◌, none, some, [], Option,
}

-- `except (DependencyUnavailable, RuntimeError)`
pub is_caught : Error → Bool
is_caught (dependency_unavailable _) = true
is_caught (runtime_error _) = true
is_caught _ = false

-- The times of a round's statements, and what others do before each of them.
pub record Round : Type 0 where
  pub claimed_at : Time
  pub acknowledged_at : Time
  pub released_at : Time
  pub before_claim : List Message → List Message
  pub before_acknowledge : List Message → List Message
  pub before_release : List Message → List Message

pub lease_lost : Error
lease_lost = runtime_error "outbox lease lost before delivery acknowledgement"

module _ (archive_payload : Message → Result (Unit {0})) (text_of : Error → String)
    (worker_id : String) (max_attempts lease_seconds : ℕ) where
  -- The statements of the `try` after the payload is archived.
  pub acknowledge : Round → Message → List Message → Result (Unit {0}) × List Message
  unfolding mark_delivered lease_lost
  acknowledge r m rows =
      let (done, rows') =
        mark_delivered r.acknowledged_at m.id worker_id (r.before_acknowledge rows) in
      (if done then ok tt else err lease_lost, rows')

  pub try_deliver :
      Round → Message → Result (Unit {0}) → List Message → Result (Unit {0}) × List Message
  unfolding acknowledge
  try_deliver r m (ok _) rows = acknowledge r m rows
  try_deliver r m (err e) rows = (err e, r.before_acknowledge rows)

  -- The message was delivered, or its failure was recorded.
  pub settle : Round → Message → Result (Unit {0}) × List Message → Result Bool × List Message
  unfolding is_caught release_failed
  settle r m (ok _, rows) = (ok true, rows)
  settle r m (err e, rows) =
      if is_caught e
      then (let (dead, rows') =
            release_failed r.released_at m.id worker_id m.attempts (text_of e) max_attempts
              (r.before_release rows) in
          (dead >>= (λ _. ok false), rows'))
      else (err e, rows)

  pub deliver : Round → Message → List Message → Result Bool × List Message
  unfolding try_deliver settle
  deliver r m rows = settle r m (try_deliver r m (archive_payload m) rows)

  pub count_delivery : Bool → ℕ × ℕ → ℕ × ℕ
  count_delivery true (delivered, failed) = (delivered + 1, failed)
  count_delivery false (delivered, failed) = (delivered, failed + 1)

  -- The rest of the loop after a delivery.
  pub after_delivery :
      (ℕ × ℕ → List Message → Result (ℕ × ℕ) × List Message)
      → ℕ × ℕ
      → Result Bool × List Message
      → Result (ℕ × ℕ) × List Message
  unfolding count_delivery
  after_delivery rest counts (err e, rows) = (err e, rows)
  after_delivery rest counts (ok done, rows) = rest (count_delivery done counts) rows

  -- The rest of the loop after a claim: `if message is None: break`.
  pub after_claim :
      (ℕ × ℕ → List Message → Result (ℕ × ℕ) × List Message)
      → Round
      → ℕ × ℕ
      → Option Message × List Message
      → Result (ℕ × ℕ) × List Message
  unfolding deliver after_delivery
  after_claim rest r counts (none, rows) = (ok counts, rows)
  after_claim rest r counts (some m, rows) = after_delivery rest counts (deliver r m rows)

  -- One round for each turn of `for _ in range(limit)`, with what was counted before.
  unfoldable pub deliver_available :
      List Round → ℕ × ℕ → List Message → Result (ℕ × ℕ) × List Message
  unfolding after_claim
  deliver_available [] counts rows = (ok counts, rows)
  deliver_available (r ∷ rs) counts rows =
      after_claim (deliver_available rs) r counts
        (claim r.claimed_at worker_id lease_seconds (r.before_claim rows))
