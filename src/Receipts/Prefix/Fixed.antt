-- ===== src/Receipts/Prefix/Fixed.antt =====
-- What the head hash of a verified prefix fixes.
use recallops.Receipts.Prefix.{last_of, VerifiedLedgerPrefix, verify_ledger_prefix, prefix_of}
use recallops.Ledger.Event.{Hashing, AuthorityEvent, canonical_event_payload}
use recallops.Common.{List, ◌∷◌, ◌≡◌, [], map, refl, ◌⊎◌, ◌∙◌, length, sym, ap}
use recallops.Ledger.InMemory.{head_hash}
use recallops.Ledger.InMemory.Tamper.{IsCanonical, tamper_evident}
use recallops.Result.{ok}
use recallops.Ledger.Event.Collision.{Collision}
use recallops.Receipts.Prefix.Sound.{verify_ledger_prefix-Proves, Proves}

last_of-head :
    (first : AuthorityEvent) (rest : List AuthorityEvent)
    → head_hash (first ∷ rest) ≡ (last_of first rest).event_hash
unfolding last_of
last_of-head first [] = refl
last_of-head first (e ∷ es) = last_of-head e es

-- The head hash and the number of events of a prefix are those of its list.
described :
    (h : Hashing) (first : AuthorityEvent) (rest : List AuthorityEvent) (v : VerifiedLedgerPrefix)
    → Proves h first rest v
    → (head_hash (first ∷ rest) ≡ v.head_hash) × (length (first ∷ rest) ≡ v.event_count)
unfolding prefix_of
described h first rest v p = (
  last_of-head first rest ∙ ap (λ (x : VerifiedLedgerPrefix). x.head_hash) (sym p.described),
  ap (λ (x : VerifiedLedgerPrefix). x.event_count) (sym p.described),
)

-- Two verified prefixes with the same head hash and number of events hold, event by event, the same
-- payloads, or two different byte strings with one SHA-256 exist; payloads are taken to have different
-- canonical bytes if they differ.
pub verify_ledger_prefix_fixed :
    (h : Hashing) (es fs : List AuthorityEvent) (v w : VerifiedLedgerPrefix)
    → IsCanonical h
    → verify_ledger_prefix h es ≡ ok v
    → verify_ledger_prefix h fs ≡ ok w
    → v.head_hash ≡ w.head_hash
    → v.event_count ≡ w.event_count
    → (map (canonical_event_payload h) es ≡ map (canonical_event_payload h) fs) ⊎ Collision h
verify_ledger_prefix_fixed h es fs v w canonical done also same count =
    let (e, es', same_es, p) = verify_ledger_prefix-Proves h es v done in
    let (f, fs', same_fs, q) = verify_ledger_prefix-Proves h fs w also in
    let p_described = described h e es' v p in
    let q_described = described h f fs' w q in
    let heads : head_hash (e ∷ es') ≡ head_hash (f ∷ fs') =
      p_described.0 ∙ same ∙ sym q_described.0 in
    rw same_es (
      rw same_fs (
        tamper_evident h canonical (e ∷ es') (f ∷ fs') p.chain q.chain
          (p_described.1 ∙ count ∙ sym q_described.1) heads))
