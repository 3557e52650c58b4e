-- ===== src/Ledger/Tests/Encoding.antt =====
-- A prefix-free encoding of payloads, for a run of the hash chain with canonical bytes.
use package.text.Mathlib.TextEquality.{Char-path}
use recallops.Common.{List, String, codes, ℕ, ◌∷◌, ◌≡◌, [], refl, suc}
use recallops.Ledger.Event.{Json, Payload, text, texts, null}

-- A list of numbers, each one up, then zero, then the rest.
pub enc_codes : List ℕ → List ℕ → List ℕ
enc_codes [] r = 0 ∷ r
enc_codes (c ∷ cs) r = suc c ∷ enc_codes cs r

pub enc_texts : List String → List ℕ → List ℕ
enc_texts [] r = 0 ∷ r
enc_texts (s ∷ l) r = 1 ∷ enc_codes (codes s) (enc_texts l r)

pub enc_json : Json → List ℕ → List ℕ
enc_json null r = 0 ∷ r
enc_json (text s) r = 1 ∷ enc_codes (codes s) r
enc_json (texts l) r = 2 ∷ enc_texts l r

pub enc_payload : Payload → List ℕ → List ℕ
enc_payload [] r = 0 ∷ r
enc_payload ((k, v) ∷ p) r = 1 ∷ enc_codes (codes k) (enc_json v (enc_payload p r))

enc_codes-injective : (xs ys r t : List ℕ) → enc_codes xs r ≡ enc_codes ys t → (xs ≡ ys) × (r ≡ t)
unfolding enc_codes
enc_codes-injective [] [] r t same = (refl, cc same)
enc_codes-injective [] (y ∷ ys) r t same = cc same
enc_codes-injective (x ∷ xs) [] r t same = cc same
enc_codes-injective (x ∷ xs) (y ∷ ys) r t same =
    let (heads, tails) = enc_codes-injective xs ys r t (cc same) in (cc (same, heads), tails)

codes-injective : (s t : String) → codes s ≡ codes t → s ≡ t
codes-injective String.[] String.[] same = refl
codes-injective String.[] (String.◌∷◌ d t) same = cc same
codes-injective (String.◌∷◌ c s) String.[] same = cc same
codes-injective (String.◌∷◌ c s) (String.◌∷◌ d t) same =
    let head : c ≡ d = Char-path c d (cc same) in
    let tail : s ≡ t = codes-injective s t (cc same) in cc (head, tail)

enc_text-injective :
    (s t : String) (r u : List ℕ)
    → enc_codes (codes s) r ≡ enc_codes (codes t) u
    → (s ≡ t) × (r ≡ u)
enc_text-injective s t r u same =
    let (inner, rest) = enc_codes-injective (codes s) (codes t) r u same in
    (codes-injective s t inner, rest)

enc_texts-injective :
    (l m : List String) (r u : List ℕ) → enc_texts l r ≡ enc_texts m u → (l ≡ m) × (r ≡ u)
unfolding enc_texts
enc_texts-injective [] [] r u same = (refl, cc same)
enc_texts-injective [] (t ∷ m) r u same = cc same
enc_texts-injective (s ∷ l) [] r u same = cc same
enc_texts-injective (s ∷ l) (t ∷ m) r u same =
    let (head, rest) = enc_text-injective s t (enc_texts l r) (enc_texts m u) (cc same) in
    let (tail, after) = enc_texts-injective l m r u rest in (cc (head, tail), after)

enc_json-injective : (v w : Json) (r u : List ℕ) → enc_json v r ≡ enc_json w u → (v ≡ w) × (r ≡ u)
unfolding enc_json
enc_json-injective null null r u same = (refl, cc same)
enc_json-injective null (text t) r u same = cc same
enc_json-injective null (texts m) r u same = cc same
enc_json-injective (text s) null r u same = cc same
enc_json-injective (text s) (text t) r u same =
    let (head, rest) = enc_text-injective s t r u (cc same) in (cc head, rest)
enc_json-injective (text s) (texts m) r u same = cc same
enc_json-injective (texts l) null r u same = cc same
enc_json-injective (texts l) (text t) r u same = cc same
enc_json-injective (texts l) (texts m) r u same =
    let (head, rest) = enc_texts-injective l m r u (cc same) in (cc head, rest)

pub enc_payload-injective :
    (p q : Payload) (r u : List ℕ) → enc_payload p r ≡ enc_payload q u → (p ≡ q) × (r ≡ u)
unfolding enc_payload
enc_payload-injective [] [] r u same = (refl, cc same)
enc_payload-injective [] (y ∷ q) r u same = cc same
enc_payload-injective (x ∷ p) [] r u same = cc same
enc_payload-injective ((k, v) ∷ p) ((j, w) ∷ q) r u same =
    let (names, values) =
      enc_text-injective k j (enc_json v (enc_payload p r)) (enc_json w (enc_payload q u))
        (cc same) in
    let (value, rest) = enc_json-injective v w (enc_payload p r) (enc_payload q u) values in
    let (tail, after) = enc_payload-injective p q r u rest in (cc (names, value, tail), after)
