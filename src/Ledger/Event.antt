-- ===== src/Ledger/Event.antt =====
-- `AuthorityEvent` of src/recallops/ledger.py, its canonical payload and its hash.
pub mod Collision
use recallops.Common.{
  ℕ_discrete, Bool, List, Option, String, leb, some, ℕ, ◌∷◌, codes, decimal, if◌then◌else◌, none,
  ◌&&◌, [], length, ◌++◌, ◌==◌, not, ◌!=◌, ◌||◌, from_hex, is_lower_case, is_digest, nat_eq,
  has_length, string_eq, false, Eq, string_discrete, eq_of_discrete,
}
use recallops.Workflow.Snapshot.{Uuid, Time, holds?}
use recallops.Workflow.States.{RequestChannel, webmcp, ui, system}
use recallops.Result.{Result, err, value_error, ok, ◌>>=◌}

-- What the ledger takes from outside the repository: SHA-256 as lower-case hexadecimal, RFC 8785
-- canonical JSON of a payload, pydantic's text of a `datetime`, and `uuid5` in the URL namespace.
pub data Json : Type 0 where
  text : String → Json
  texts : List String → Json
  null : Json

abbrev pub Payload : Type 0
Payload = List (String × Json)

pub record Hashing : Type 0 where
  pub sha256 : List ℕ → String
  pub canonical_bytes : Payload → List ℕ
  pub timestamp : Time → String
  pub uuid5 : String → Uuid

abbrev pub zero_event_hash : String
zero_event_hash = "0000000000000000000000000000000000000000000000000000000000000000"

pub record AuthorityEvent : Type 0 where
  pub event_id : Uuid
  pub run_id : Uuid
  pub tenant_id : String
  pub sequence : ℕ
  pub recorded_at : Time
  pub event_type : String
  pub outcome : String
  pub actor_subject : String
  pub actor_role : String
  pub channel : RequestChannel
  pub workflow_id : Uuid
  pub epoch_before : ℕ
  pub epoch_after : ℕ
  pub state_before : String
  pub state_after : String
  pub capabilities_before : List String
  pub capabilities_after : List String
  pub object_type : Option String
  pub object_id : Option String
  pub object_digest : Option String
  pub reason_code : String
  pub display_summary : String
  pub policy_version : String
  pub build_sha : String
  pub previous_event_hash : String
  pub event_hash : String

pub AuthorityEvent-discrete : Discrete AuthorityEvent
AuthorityEvent-discrete = hlevel (ℕ_discrete, string_discrete)

-- pydantic's `==`: every field.
instance abbrev pub event_eq : Eq AuthorityEvent
event_eq = eq_of_discrete AuthorityEvent-discrete

-- The field constraints of `AuthorityEvent`.
unfoldable pub check_event : AuthorityEvent → Bool
check_event e =
    leb 1 e.sequence
    && (e.outcome == "accepted" || e.outcome == "denied" || e.outcome == "observed")
    && (e.actor_role == "agent"
        || e.actor_role == "operator"
        || e.actor_role == "reviewer"
        || e.actor_role == "system")
    && leb 1 e.epoch_after
    && holds? is_digest e.object_digest
    && has_length 1 240 e.display_summary
    && is_digest e.previous_event_hash
    && is_digest e.event_hash

abbrev optional : Option String → Json
optional none = null
optional (some s) = text s

abbrev pub channel_value : RequestChannel → String
channel_value webmcp = "webmcp"
channel_value ui = "ui"
channel_value system = "system"

module _ (h : Hashing) where
  -- `canonical_event_payload`: every field but the hash; the integers are decimal texts.
  unfoldable pub canonical_event_payload : AuthorityEvent → Payload
  canonical_event_payload e =
      ("event_id", text e.event_id)
      ∷ ("run_id", text e.run_id)
      ∷ ("tenant_id", text e.tenant_id)
      ∷ ("sequence", text (decimal e.sequence))
      ∷ ("recorded_at", text (h.timestamp e.recorded_at))
      ∷ ("event_type", text e.event_type)
      ∷ ("outcome", text e.outcome)
      ∷ ("actor_subject", text e.actor_subject)
      ∷ ("actor_role", text e.actor_role)
      ∷ ("channel", text (channel_value e.channel))
      ∷ ("workflow_id", text e.workflow_id)
      ∷ ("epoch_before", text (decimal e.epoch_before))
      ∷ ("epoch_after", text (decimal e.epoch_after))
      ∷ ("state_before", text e.state_before)
      ∷ ("state_after", text e.state_after)
      ∷ ("capabilities_before", texts e.capabilities_before)
      ∷ ("capabilities_after", texts e.capabilities_after)
      ∷ ("object_type", optional e.object_type)
      ∷ ("object_id", optional e.object_id)
      ∷ ("object_digest", optional e.object_digest)
      ∷ ("reason_code", text e.reason_code)
      ∷ ("display_summary", text e.display_summary)
      ∷ ("policy_version", text e.policy_version)
      ∷ ("build_sha", text e.build_sha)
      ∷ ("previous_event_hash", text e.previous_event_hash)
      ∷ []

  hash_material : List ℕ → Payload → List ℕ
  hash_material predecessor payload =
      codes "recallops-authority-event-v1" ++ (0 ∷ (predecessor ++ (0 ∷ h.canonical_bytes payload)))

  -- The tests on the decoded predecessor.
  hash_decoded : String → Payload → Option (List ℕ) → Result String
  unfolding hash_material
  hash_decoded previous payload none =
      err (value_error "previous event hash must be 32 bytes of lowercase hex")
  hash_decoded previous payload (some predecessor) =
      if not (is_lower_case (codes previous)) || length predecessor != 32
      then err (value_error "previous event hash must be 32 bytes of lowercase hex")
      else ok (h.sha256 (hash_material predecessor payload))

  unfoldable pub authority_event_hash : String → Payload → Result String
  unfolding hash_decoded
  authority_event_hash previous payload =
      if length (codes previous) != 64
      then err (value_error "previous event hash must be 32 bytes of lowercase hex")
      else hash_decoded previous payload (from_hex (codes previous))

  -- `verify_event`: the hash is computed only if the predecessor is the expected one.
  unfoldable pub verify_event : AuthorityEvent → String → Result Bool
  verify_event e expected_previous_hash =
      if e.previous_event_hash == expected_previous_hash
      then (do
        computed ← authority_event_hash expected_previous_hash (canonical_event_payload e)
        ok (e.event_hash == computed))
      else ok false
