-- ===== src/Ledger/InMemory/Tamper.antt =====
-- A chain's head hash fixes its events.
use recallops.Ledger.Event.{
  Hashing, AuthorityEvent, verify_event, canonical_event_payload, authority_event_hash, Payload,
  Json, text, zero_event_hash,
}
use recallops.Common.{
  [], String, ◌≡◌, true, Bool-cases, List, ℕ, map, ◌==◌, inl, length, ◌⊎◌, string_eq, ◌∷◌, inr, ◌∙◌,
  ap, sym, Option, arith, last?, suc, refl, some,
}
use recallops.Result.{ok, >>=-eq-ok, ok-injective}
use recallops.Ledger.InMemory.Chain.{Chain, head_from, head_from-cons}
use recallops.Ledger.Event.Collision.{Collision, event_hash-Collision}
use recallops.Ledger.InMemory.{head_hash}

-- RFC 8785 gives different bytes to the payloads of different events.
abbrev pub IsCanonical : Hashing → Type 0
IsCanonical h =
    (e f : AuthorityEvent)
    → h.canonical_bytes (canonical_event_payload h e)
      ≡ h.canonical_bytes (canonical_event_payload h f)
    → canonical_event_payload h e ≡ canonical_event_payload h f

-- The text of a payload's entry.
abbrev text_of : Option (String × Json) → String
text_of (some (k, text s)) = s
text_of _ = ""

-- The payload carries the predecessor's hash, as its last entry.
module _ (h : Hashing) where
  previous-payload :
      (e f : AuthorityEvent)
      → canonical_event_payload h e ≡ canonical_event_payload h f
      → e.previous_event_hash ≡ f.previous_event_hash
  unfolding canonical_event_payload
  previous-payload e f same = ap (λ (v : Payload). text_of (last? v)) same

module _ (h : Hashing) (canonical : IsCanonical h) where
  verified-hash :
      (e : AuthorityEvent) (p : String)
      → verify_event h e p ≡ ok true
      → (e.previous_event_hash ≡ p)
        × (authority_event_hash h p (canonical_event_payload h e) ≡ ok e.event_hash)
  unfolding verify_event
  verified-hash e p v = elim (Bool-cases (e.previous_event_hash == p)) [
    | inl linked ↦
        let (c, computed, equal) =
          >>=-eq-ok (authority_event_hash h p (canonical_event_payload h e))
            (λ c. ok (e.event_hash == c)) (rw linked at v) in
        (
          (string_eq.beq_iff e.previous_event_hash p).0 linked,
          computed ∙ ap ok (sym ((string_eq.beq_iff e.event_hash c).0 (ok-injective equal))),
        )
    | inr unlinked ↦ cc (unlinked)
  ]

  -- One event further back.
  chains-cons :
      (p q : String) (e f : AuthorityEvent) (es fs : List AuthorityEvent)
      → (e.previous_event_hash ≡ p)
        × (authority_event_hash h p (canonical_event_payload h e) ≡ ok e.event_hash)
      → (f.previous_event_hash ≡ q)
        × (authority_event_hash h q (canonical_event_payload h f) ≡ ok f.event_hash)
      → ((e.event_hash ≡ f.event_hash)
          × (map (canonical_event_payload h) es ≡ map (canonical_event_payload h) fs))
        ⊎ Collision h
      → ((p ≡ q)
          × (map (canonical_event_payload h) (e ∷ es) ≡ map (canonical_event_payload h) (f ∷ fs)))
        ⊎ Collision h
  chains-cons p q e f es fs a b (inr found) = inr found
  chains-cons p q e f es fs a b (inl (hashes, rest)) =
      elim (event_hash-Collision h p q (canonical_event_payload h e) (canonical_event_payload h f)
        f.event_hash (a.1 ∙ ap ok hashes) b.1) [
          | inl bytes ↦
              let payload = canonical e f bytes in
              inl (sym a.0 ∙ previous-payload h e f payload ∙ b.0, cc (payload, rest))
          | inr found ↦ inr found
        ]

  -- Chains of one length with one head hash have the same payloads, or a collision is at hand.
  chains-agree :
      (p q : String) (n m : ℕ) (es fs : List AuthorityEvent)
      → Chain h p n es
      → Chain h q m fs
      → length es ≡ length fs
      → head_from p es ≡ head_from q fs
      → ((p ≡ q) × (map (canonical_event_payload h) es ≡ map (canonical_event_payload h) fs))
        ⊎ Collision h
  chains-agree p q n m [] [] c d l same = inl (same, refl)
  chains-agree p q n m [] (f ∷ fs) c d l same = absurd (omega arith)
  chains-agree p q n m (e ∷ es) [] c d l same = absurd (omega arith)
  chains-agree p q n m (e ∷ es) (f ∷ fs) c d l same =
      chains-cons p q e f es fs (verified-hash e p c.0) (verified-hash f q d.0) (
        chains-agree e.event_hash f.event_hash (suc n) (suc m) es fs c.2 d.2 (omega arith)
          (sym (head_from-cons p e es) ∙ same ∙ head_from-cons q f fs))

  -- Two runs' chains of one length with one head hash hold, event by event, the same payloads, or
  -- two different byte strings with one SHA-256 exist; payloads are taken to have different
  -- canonical bytes if they differ.
  pub tamper_evident :
      (es fs : List AuthorityEvent)
      → Chain h zero_event_hash 1 es
      → Chain h zero_event_hash 1 fs
      → length es ≡ length fs
      → head_hash es ≡ head_hash fs
      → (map (canonical_event_payload h) es ≡ map (canonical_event_payload h) fs) ⊎ Collision h
  tamper_evident es fs c d l same =
      elim (chains-agree zero_event_hash zero_event_hash 1 1 es fs c d l same) [
        | inl (_, payloads) ↦ inl payloads
        | inr found ↦ inr found
      ]
