-- ===== src/Ledger/Event/Collision.antt =====
-- Two equal event hashes come from equal canonical bytes, or they are a collision of SHA-256.
use recallops.Ledger.Event.{Hashing, authority_event_hash, hash_decoded, hash_material, Payload}
use recallops.Common.{
  ℕ_discrete, List, String, ℕ, ◌≢◌, Option, length, ◌≡◌, append-rest, codes, some, ◌⊎◌, arith, inl,
  ◌∷◌, inr, none, refl, sym, ◌∙◌, from_hex,
}
use recallops.Result.{ok}

-- Two different byte strings with one SHA-256.
pub Collision : Hashing → Type 0
Collision h = (xs : List ℕ) × (ys : List ℕ) × (xs ≢ ys) × (h.sha256 xs ≡ h.sha256 ys)

bytes-discrete : Discrete (List ℕ)
bytes-discrete = hlevel ℕ_discrete

module _ (h : Hashing) where
  hash_decoded-material :
      (p : String) (v : Payload) (o : Option (List ℕ)) (c : String)
      → hash_decoded h p v o ≡ ok c
      → (bytes : List ℕ) × (length bytes ≡ 32) × (c ≡ h.sha256 (hash_material h bytes v))
  unfolding hash_decoded
  hash_decoded-material p v none c e = cc
  hash_decoded-material p v (some bytes) c e = (bytes, ground arith, ground arith)

  event_hash-material :
      (p : String) (v : Payload) (c : String)
      → authority_event_hash h p v ≡ ok c
      → (bytes : List ℕ) × (length bytes ≡ 32) × (c ≡ h.sha256 (hash_material h bytes v))
  unfolding authority_event_hash
  event_hash-material p v c e = hash_decoded-material p v (from_hex (codes p)) c (ground arith)

  material-rest :
      (bs ds : List ℕ) (v w : Payload)
      → length bs ≡ 32
      → length ds ≡ 32
      → hash_material h bs v ≡ hash_material h ds w
      → h.canonical_bytes v ≡ h.canonical_bytes w
  unfolding hash_material
  material-rest bs ds v w m n same =
      let inner =
        append-rest (codes "recallops-authority-event-v1") (codes "recallops-authority-event-v1") _
          _ refl same in
      let tail =
        append-rest bs ds (0 ∷ h.canonical_bytes v) (0 ∷ h.canonical_bytes w) (omega arith)
          (cc inner) in
      cc tail

  -- Equal hashes: equal canonical bytes, or a collision.
  pub event_hash-Collision :
      (p q : String) (v w : Payload) (c : String)
      → authority_event_hash h p v ≡ ok c
      → authority_event_hash h q w ≡ ok c
      → (h.canonical_bytes v ≡ h.canonical_bytes w) ⊎ Collision h
  unfolding Collision
  event_hash-Collision p q v w c e f =
      let (bs, m, x) = event_hash-material p v c e in
      let (ds, n, y) = event_hash-material q w c f in
      elim (bytes-discrete (hash_material h bs v) (hash_material h ds w)) [
        | yes same ↦ inl (material-rest bs ds v w m n same)
        | no differ ↦ inr (hash_material h bs v, hash_material h ds w, differ, sym x ∙ y)
      ]
