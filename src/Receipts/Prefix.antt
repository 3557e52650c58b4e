-- ===== src/Receipts/Prefix.antt =====
-- `verify_ledger_prefix` of src/recallops/receipts.py: the tests that a run's events pass before a
-- receipt is built on them. The hashes of events that verify are hexadecimal, so that the result's
-- field patterns hold.
pub mod Actors
pub mod Sound
pub mod Fixed
use recallops.Workflow.Snapshot.{Uuid}
use recallops.Common.{
  List, Option, String, Bool, if◌then◌else◌, length, ℕ, ◌∷◌, [], ◌!=◌, ◌==◌, not, some, string_eq,
  suc, ◌&&◌, ◌||◌, is_empty, ltb, nat_eq, ◌+◌, none, list_eq,
}
use recallops.Ledger.Event.{AuthorityEvent, Hashing, verify_event, zero_event_hash}
use recallops.Result.{
  Result, Error, err, ok, receipt_verification_error, ◌>>◌, check_all, raise_if, ◌>>=◌, key_error,
}
use recallops.Workflow.States.{RequestChannel, webmcp, ui, system, channel_eq}

pub record VerifiedLedgerPrefix : Type 0 where
  pub run_id : Uuid
  pub tenant_id : String
  pub workflow_id : Uuid
  pub capability_policy_version : String
  pub build_sha : String
  pub first_epoch : ℕ
  pub last_epoch : ℕ
  pub event_count : ℕ
  pub first_hash : String
  pub head_hash : String
  pub final_state : String
  pub operator_subject : String
  pub reviewer_subject : String

-- The subjects seen so far, each once.
pub record Subjects : Type 0 where
  pub operators : List String
  pub reviewers : List String

abbrev pub unverified : String → Error
unverified message = receipt_verification_error message

-- `set.add`
unfoldable pub add_subject : String → List String → List String
add_subject s [] = s ∷ []
add_subject s (t ∷ ts) = let rest = add_subject s ts in if s == t then t ∷ ts else t ∷ rest

unfoldable pub add_actor : AuthorityEvent → Subjects → Subjects
add_actor e s =
    if e.actor_role == "operator"
    then record s { operators = add_subject e.actor_subject s.operators }
    else if e.actor_role == "reviewer"
    then record s { reviewers = add_subject e.actor_subject s.reviewers }
    else s

-- The channel of a role; a text that is no role has none.
pub expected_channel : String → Result RequestChannel
expected_channel role =
    if role == "agent"
    then ok webmcp
    else if role == "operator" || role == "reviewer"
    then ok ui
    else if role == "system"
    then ok system
    else err key_error

-- The tests on an event by itself and against the first.
pub event_checks : AuthorityEvent → ℕ → AuthorityEvent → List (Bool × Error)
event_checks first n e =
    (e.sequence != n, unverified "authority ledger sequence is not contiguous")
    ∷ (e.outcome != "accepted", unverified "receipt prefix contains non-authority evidence")
    ∷ (
      e.run_id != first.run_id
          || e.tenant_id != first.tenant_id
          || e.workflow_id != first.workflow_id
          || e.policy_version != first.policy_version
          || e.build_sha != first.build_sha,
      unverified "authority ledger boundary changed within prefix",
    )
    ∷ (e.epoch_after != e.epoch_before + 1, unverified "authority ledger epoch is not contiguous")
    ∷ []

-- The tests against the predecessor, which the first event does not have.
pub predecessor_checks : Option AuthorityEvent → AuthorityEvent → List (Bool × Error)
predecessor_checks none e = []
predecessor_checks (some p) e =
    (e.epoch_before != p.epoch_after, unverified "authority ledger epochs contain a gap")
    ∷ (e.state_before != p.state_after, unverified "authority ledger states contain a gap")
    ∷ (
      e.capabilities_before != p.capabilities_after,
      unverified "authority ledger capabilities contain a gap",
    )
    ∷ (ltb e.recorded_at p.recorded_at, unverified "authority ledger timestamps regress")
    ∷ []

module _ (h : Hashing) (first : AuthorityEvent) where
  -- The body of the loop, for the event numbered `n` behind `predecessor` and its hash.
  pub check_link : ℕ → Option AuthorityEvent → String → AuthorityEvent → Result (Unit {0})
  unfolding event_checks predecessor_checks expected_channel
  check_link n predecessor previous e = do
    check_all (event_checks first n e) (ok tt)
    check_all (predecessor_checks predecessor e) (ok tt)
    channel ← expected_channel e.actor_role
    raise_if (e.channel != channel) (unverified "authority actor role and channel are inconsistent")
    verified ← verify_event h e previous
    raise_if (not verified) (unverified "authority ledger hash chain verification failed")

  pub check_links :
      ℕ → Option AuthorityEvent → String → List AuthorityEvent → Subjects → Result Subjects
  unfolding check_link add_actor
  check_links n predecessor previous [] s = ok s
  check_links n predecessor previous (e ∷ es) s =
      check_link n predecessor previous e
      >> check_links (suc n) (some e) e.event_hash es (add_actor e s)

-- The tests on the sets of subjects.
unfoldable pub separated_subjects : Subjects → Result (String × String)
separated_subjects s = elim s.operators [
  | [] ↦ err (unverified "receipt requires one stable operator and reviewer subject")
  | operator ∷ operators ↦ elim s.reviewers [
    | [] ↦ err (unverified "receipt requires one stable operator and reviewer subject")
    | reviewer ∷ reviewers ↦
        if not (is_empty operators) || not (is_empty reviewers)
        then err (unverified "receipt requires one stable operator and reviewer subject")
        else if operator == reviewer
        then err (unverified "receipt requires independent operator and reviewer")
        else ok (operator, reviewer)
  ]
]

abbrev pub is_genesis : AuthorityEvent → Bool
is_genesis first =
    first.sequence == 1
    && first.event_type == "RUN_GENESIS"
    && first.state_before == "ABSENT"
    && first.epoch_before == 0

-- `events[-1]` of a list that begins with `first`
pub last_of : AuthorityEvent → List AuthorityEvent → AuthorityEvent
last_of first [] = first
last_of first (e ∷ es) = last_of e es

pub prefix_of : AuthorityEvent → List AuthorityEvent → String × String → VerifiedLedgerPrefix
unfolding last_of
prefix_of first rest (operator, reviewer) = record {
  run_id = first.run_id;
  tenant_id = first.tenant_id;
  workflow_id = first.workflow_id;
  capability_policy_version = first.policy_version;
  build_sha = first.build_sha;
  first_epoch = first.epoch_before;
  last_epoch = (last_of first rest).epoch_after;
  event_count = length (first ∷ rest);
  first_hash = first.event_hash;
  head_hash = (last_of first rest).event_hash;
  final_state = (last_of first rest).state_after;
  operator_subject = operator;
  reviewer_subject = reviewer;
}

unfoldable pub verify_ledger_prefix : Hashing → List AuthorityEvent → Result VerifiedLedgerPrefix
unfolding check_links separated_subjects prefix_of
verify_ledger_prefix h [] = err (unverified "authority ledger prefix is empty")
verify_ledger_prefix h (first ∷ rest) = do
  raise_if (not (is_genesis first))
      (unverified "authority ledger prefix does not begin at run genesis")
  subjects ←
      check_links h first 1 none zero_event_hash (first ∷ rest)
        (record { operators = []; reviewers = [] })
  separated ← separated_subjects subjects
  ok (prefix_of first rest separated)
