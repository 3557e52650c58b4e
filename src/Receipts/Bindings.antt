-- ===== src/Receipts/Bindings.antt =====
-- `transition_binding_digest` and `verify_causal_bindings` of src/recallops/receipts.py.
pub mod Exact
use recallops.Common.{
  List, String, Bool, Option, codes, ℕ, concat, false, if◌then◌else◌, true, ◌==◌, not, some,
  string_eq, ◌∷◌, [], is_digest, ◌&&◌, ◌||◌, find_first, none, ◌++◌, option_eq, is_empty, all_codes,
  ltb,
}
use recallops.Ledger.Event.{Hashing, AuthorityEvent, Payload, text}
use recallops.Result.{
  Result, ok, ◌>>=◌, ◌>>◌, raise_if, err, receipt_error, receipt_verification_error, value_error,
}

pub record ReceiptDigestBindings : Type 0 where
  pub proposal : String
  pub execution : String
  pub observation : String
  pub assessment : String
  pub policy_verdict : String
  pub memory : String
  pub review : String

-- A `dict` of texts as a payload.
abbrev texts_of : List (String × String) → Payload
texts_of [] = []
texts_of ((k, v) ∷ bs) = (k, text v) ∷ texts_of bs

abbrev pub all_digests : List (String × String) → Bool
all_digests [] = true
all_digests ((k, v) ∷ bs) = is_digest v && all_digests bs

module _ (h : Hashing) where
  pub binding_material : String → List (String × String) → List ℕ
  binding_material domain bindings =
      codes (concat ("recallops-" ∷ domain ∷ "-binding-v1" ∷ []))
      ++ (0 ∷ h.canonical_bytes (texts_of bindings))

  unfoldable pub transition_binding_digest : String → List (String × String) → Result String
  unfolding binding_material
  transition_binding_digest domain bindings =
      if not (
        domain == "execution"
        || domain == "observation"
        || domain == "outcome"
        || domain == "review")
      then err (receipt_error "unknown transition binding domain")
      else if is_empty bindings || not (all_digests bindings)
      then err (receipt_error "transition bindings require lowercase SHA-256 digests")
      else ok (h.sha256 (binding_material domain bindings))

  -- `hashlib.sha256(disposition.encode("ascii"))`, which raises at any other text
  unfoldable pub disposition_digest : String → Result String
  disposition_digest disposition =
      if all_codes (λ c. ltb c 128) (codes disposition)
      then ok (h.sha256 (codes disposition))
      else err (value_error "'ascii' codec can't encode character")

  -- `required`, in the order in which the dictionary is built; each entry is a state, the type of the
  -- object that its event names, and the digest.
  pub required_bindings : ReceiptDigestBindings → String → Result (List (String × String × String))
  required_bindings d final_disposition = do
    execution ←
        transition_binding_digest "execution"
          (("execution", d.execution) ∷ ("proposal", d.proposal) ∷ [])
    observation ← transition_binding_digest "observation" (
        ("execution", d.execution)
        ∷ ("observation", d.observation)
        ∷ ("policy_verdict", d.policy_verdict)
        ∷ [])
    outcome ← transition_binding_digest "outcome" (
        ("assessment", d.assessment)
        ∷ ("memory", d.memory)
        ∷ ("observation", d.observation)
        ∷ ("policy_verdict", d.policy_verdict)
        ∷ [])
    disposition ← disposition_digest final_disposition
    review ←
        transition_binding_digest "review"
          (("disposition", disposition) ∷ ("memory", d.memory) ∷ ("review", d.review) ∷ [])
    ok (
        ("AWAITING_OPERATOR_APPROVAL", "proposal", d.proposal)
        ∷ ("APPROVED_AWAITING_EXECUTION", "proposal", d.proposal)
        ∷ ("OBSERVING_POSTCHECK", "execution_binding", execution)
        ∷ ("POSTCHECK_READY", "observation_binding", observation)
        ∷ ("PENDING_REVIEW", "outcome_binding", outcome)
        ∷ ("REVIEWED", "review_binding", review)
        ∷ [])

-- `candidate.state_after == state`
pub enters : String → AuthorityEvent → Bool
enters state e = e.state_after == state

-- The test of the event that first enters a state.
pub binds : String → String → Option AuthorityEvent → Bool
binds object_type object_digest none = false
binds object_type object_digest (some e) =
    e.object_type == some object_type && e.object_digest == some object_digest

pub check_bindings : List AuthorityEvent → List (String × String × String) → Result (Unit {0})
unfolding binds enters
check_bindings events [] = ok tt
check_bindings events ((state, object_type, object_digest) ∷ required) =
    raise_if (not (binds object_type object_digest (find_first (enters state) events))) (
      receipt_verification_error
        (concat ("authority ledger lacks exact " ∷ object_type ∷ " causal binding" ∷ [])))
    >> check_bindings events required

unfoldable pub verify_causal_bindings :
    Hashing → List AuthorityEvent → ReceiptDigestBindings → String → Result (Unit {0})
unfolding required_bindings check_bindings
verify_causal_bindings h events d final_disposition = do
  required ← required_bindings h d final_disposition
  check_bindings events required
