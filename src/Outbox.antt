-- ===== src/Outbox.antt =====
-- `claim`, `mark_delivered`, `release_failed` and `deliver_available` of src/recallops/outbox.py, on
-- the table evidence_outbox. Each statement runs in a transaction of its own; `now` is the
-- database's time. The worker's clock is taken to show the same time.
pub mod Tests
pub mod Steps
pub mod Evolution
pub mod Leases
pub mod Deliver
use recallops.Workflow.Snapshot.{Time, Uuid}
use recallops.Common.{
  String, ℕ, Bool, List, Option, none, some, text_take, ◌*◌, is_none, true, ◌&&◌, ◌+◌, ◌==◌,
  if◌then◌else◌, leb, ltb, nat_eq, string_eq, option_eq, false, min, ◌^◌,
}
use recallops.Table.{select_first, update_where}
use recallops.Result.{Result, err, value_error, ok}

pub record Message : Type 0 where
  pub id : Uuid
  pub incident_id : Uuid
  pub tenant_id : String
  pub service : String
  pub service_version : String
  pub payload : String
  pub created_at : Time
  pub available_at : Time
  pub attempts : ℕ
  pub claimed_by : Option String
  pub claimed_until : Option Time
  pub delivered_at : Option Time
  pub dead_lettered_at : Option Time
  pub last_error : Option String

abbrev pub default_max_attempts : ℕ
default_max_attempts = 8

abbrev pub microseconds : ℕ → Time
microseconds seconds = seconds * 1000000

-- `claimed_until IS NULL OR claimed_until < now()`
abbrev pub is_unleased : Time → Option Time → Bool
is_unleased now none = true
is_unleased now (some t) = ltb t now

pub is_claimable : Time → Message → Bool
is_claimable now m =
    is_none m.delivered_at
    && leb m.available_at now
    && is_none m.dead_lettered_at
    && is_unleased now m.claimed_until

pub claimed : Time → String → ℕ → Message → Message
claimed now worker_id lease_seconds m = record m {
  claimed_by = some worker_id;
  claimed_until = some (now + microseconds lease_seconds);
  attempts = m.attempts + 1;
}

-- The update of the row that the inner SELECT found; its key is unique.
claim_row : Time → String → ℕ → List Message → Option Message → Option Message × List Message
unfolding claimed
claim_row now worker_id lease_seconds rows none = (none, rows)
claim_row now worker_id lease_seconds rows (some m) = (
  some (claimed now worker_id lease_seconds m),
  (update_where (λ x. x.id == m.id) (claimed now worker_id lease_seconds) rows).1,
)

pub claim : Time → String → ℕ → List Message → Option Message × List Message
unfolding claim_row is_claimable
claim now worker_id lease_seconds rows =
    claim_row now worker_id lease_seconds rows
      (select_first (is_claimable now) (λ m. m.created_at) rows)

-- `id=… AND claimed_by=… AND delivered_at IS NULL`
pub holds_undelivered : Uuid → String → Message → Bool
holds_undelivered message_id worker_id m =
    m.id == message_id && m.claimed_by == some worker_id && is_none m.delivered_at

pub delivered : Time → Message → Message
delivered now m = record m {
  delivered_at = some now;
  claimed_by = none;
  claimed_until = none;
  last_error = none;
}

pub mark_delivered : Time → Uuid → String → List Message → Bool × List Message
unfolding holds_undelivered delivered
mark_delivered now message_id worker_id rows =
    let (count, rows') =
      update_where (holds_undelivered message_id worker_id) (delivered now) rows in
    (count == 1, rows')

-- `min(300, 2 ** min(attempts, 8))`, in seconds
unfoldable pub retry_delay : ℕ → ℕ
retry_delay attempts = min 300 (2 ^ min attempts 8)

-- `error[:1000]`
abbrev pub clipped : String → String
clipped error = text_take 1000 error

pub holds_open : Uuid → String → Message → Bool
unfolding holds_undelivered
holds_open message_id worker_id m =
    holds_undelivered message_id worker_id m && is_none m.dead_lettered_at

pub dead_lettered : Time → String → Message → Message
dead_lettered now error m = record m {
  dead_lettered_at = some now;
  claimed_by = none;
  claimed_until = none;
  last_error = some (clipped error);
}

pub released : Time → String → Message → Message
released available_at error m = record m {
  available_at = available_at;
  claimed_by = none;
  claimed_until = none;
  last_error = some (clipped error);
}

pub release_failed :
    Time → Uuid → String → ℕ → String → ℕ → List Message → Result Bool × List Message
unfolding holds_open dead_lettered released retry_delay
release_failed now message_id worker_id attempts error max_attempts rows =
    if ltb max_attempts 1
    then (err (value_error "max_attempts must be positive"), rows)
    else if leb max_attempts attempts
    then (let (count, rows') =
          update_where (holds_open message_id worker_id) (dead_lettered now error) rows in
        (ok (count == 1), rows'))
    else (
      ok false,
      (update_where (holds_open message_id worker_id)
          (released (now + microseconds (retry_delay attempts)) error) rows).1,
    )
