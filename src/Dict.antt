-- ===== src/Dict.antt =====
-- Python's `dict`: pairs in the order of the first insertion of their keys.
use mathlib.Core.Option
use recallops.Common.{
  ◌≡◌, refl, ◌≢◌, Bool, true, false, Option, none, some, List, [], ◌∷◌, map, arith, Eq,
  if◌then◌else◌, ==_refl, ==_ne,
}

pub record Dict {ℓ κ} (K : Type ℓ) (V : Type κ) : Type (ℓ ⊔ κ) where
  pub entries : List (K × V)

module _ {ℓ κ} {K : Type ℓ} {V : Type κ} where
  unfoldable pub empty : Dict K V
  empty = record { entries = [] }

  -- `list(d.values())`
  unfoldable pub values : Dict K V → List V
  values d = map (λ e. e.1) d.entries

  -- `list(d)`
  unfoldable pub keys : Dict K V → List K
  keys d = map (λ e. e.0) d.entries

  -- a loop that assigns `d[k] = f(v)` at each item
  unfoldable pub map_values : (V → V) → Dict K V → Dict K V
  map_values f d = record { entries = map (λ e. (e.0, f e.1)) d.entries }

module _ {ℓ κ} {K : Type ℓ} {V : Type κ} ⦃e : Eq K⦄ where
  lookup : K → List (K × V) → Option V
  lookup k [] = none
  lookup k ((j, v) ∷ l) = if e.beq j k then some v else lookup k l

  insert : K → V → List (K × V) → List (K × V)
  insert k v [] = (k, v) ∷ []
  insert k v ((j, w) ∷ l) = if e.beq j k then (j, v) ∷ l else (j, w) ∷ insert k v l

  -- `d.get(k)`
  unfoldable pub get : K → Dict K V → Option V
  unfolding lookup
  get k d = lookup k d.entries

  -- `d[k] = v`
  unfoldable pub put : K → V → Dict K V → Dict K V
  unfolding insert
  put k v d = record { entries = insert k v d.entries }

  -- `k in d`
  unfoldable pub contains : K → Dict K V → Bool
  contains k d = elim (get k d) [ none ↦ false | some _ ↦ true ]

  -- `d.setdefault(k, v)`, as the value that the call returns and the dictionary after it
  unfoldable pub setdefault : K → V → Dict K V → V × Dict K V
  setdefault k v d = elim (get k d) [ none ↦ (v, put k v d) | some w ↦ (w, d) ]

  lookup-insert :
      (k j : K) (v : V) (l : List (K × V))
      → lookup j (insert k v l) ≡ (if e.beq k j then some v else lookup j l)
  unfolding lookup insert
  lookup-insert k j v [] = refl
  lookup-insert k j v ((i, w) ∷ l) =
      ground (arith, e.beq_iff k j, e.beq_iff i k, e.beq_iff i j, lookup-insert k j v l)

  pub get-put :
      (k j : K) (v : V) (d : Dict K V) → get j (put k v d) ≡ (if e.beq k j then some v else get j d)
  unfolding get put
  get-put k j v d = lookup-insert k j v d.entries

  lookup-map :
      (f : V → V) (k : K) (l : List (K × V))
      → lookup k (map (λ x. (x.0, f x.1)) l) ≡ Option.map f (lookup k l)
  unfolding lookup
  lookup-map f k [] = refl
  lookup-map f k ((i, w) ∷ l) = ground (arith, lookup-map f k l)

  pub get-map_values :
      (f : V → V) (k : K) (d : Dict K V) → get k (map_values f d) ≡ Option.map f (get k d)
  unfolding get map_values
  get-map_values f k d = lookup-map f k d.entries

  pub get-put_self : (k : K) (v : V) (d : Dict K V) → get k (put k v d) ≡ some v
  get-put_self k v d = simp (get-put, ==_refl)

  pub get-put_ne : (k j : K) (v : V) (d : Dict K V) → k ≢ j → get j (put k v d) ≡ get j d
  get-put_ne k j v d h = rw (get-put k j v d) (rw (==_ne k j h))

  setdefault_known :
      (k : K) (v : V) (d : Dict K V) {w : V} → get k d ≡ some w → (setdefault k v d).1 ≡ d
  unfolding setdefault
  setdefault_known k v d found = rw (setdefault, found) refl

  setdefault_fresh :
      (k : K) (v : V) (d : Dict K V) → get k d ≡ none → (setdefault k v d).1 ≡ put k v d
  unfolding setdefault
  setdefault_fresh k v d missing = rw (setdefault, missing) refl

  setdefault_again-by :
      (k : K) (v : V) (d : Dict K V) (o : Option V)
      → get k d ≡ o
      → (setdefault k v (setdefault k v d).1).1 ≡ (setdefault k v d).1
  setdefault_again-by k v d none missing =
      rw (setdefault_fresh k v d missing) (setdefault_known k v (put k v d) (get-put_self k v d))
  setdefault_again-by k v d (some w) found =
      rw (setdefault_known k v d found) (setdefault_known k v d found)

  pub setdefault_again :
      (k : K) (v : V) (d : Dict K V)
      → (setdefault k v (setdefault k v d).1).1 ≡ (setdefault k v d).1
  setdefault_again k v d = setdefault_again-by k v d (get k d) refl

pub get-empty {ℓ κ} :
    {K : Type ℓ} {V : Type κ} ⦃e : Eq K⦄ (k : K) → get k (empty {K = K} {V = V}) ≡ none
unfolding get empty
get-empty k = refl
