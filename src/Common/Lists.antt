-- ===== src/Common/Lists.antt =====
-- Lists measured by native numbers, and what the program's comprehensions use.
use Prim.Native.Nat.{ℕ, zero, suc, ◌+◌}
use mathlib.Core.Path.{◌≡◌, refl}
use mathlib.Core.Bool.{Bool, true, false}
use mathlib.Core.Option.{Option, none, some}
use mathlib.Core.List.{List, [], ◌∷◌, ◌++◌}
use native.Mathlib.Omega.{arith}
use recallops.Common.Tests.{if◌then◌else◌}

-- A predicate of every item, which computes to a tuple.
abbrev pub All {κ ℓ} : {X : Type κ} → (X → Type ℓ) → List X → Type ℓ
All Holds [] = Unit
All Holds (first ∷ others) = Holds first × All Holds others

module _ {ℓ} {A : Type ℓ} where
  abbrev pub length : List A → ℕ
  length [] = 0
  length (x ∷ xs) = suc (length xs)

  abbrev pub take : ℕ → List A → List A
  take zero xs = []
  take (suc n) [] = []
  take (suc n) (x ∷ xs) = x ∷ take n xs

  -- `[x for x in xs if p(x)]`
  abbrev pub select : (A → Bool) → List A → List A
  select p [] = []
  select p (x ∷ xs) = let rest = select p xs in if p x then x ∷ rest else rest

  -- `next((x for x in xs if p(x)), None)`
  abbrev pub find_first : (A → Bool) → List A → Option A
  find_first p [] = none
  find_first p (x ∷ xs) = let rest = find_first p xs in if p x then some x else rest

  -- `xs[-1]`, or `None` of an empty list
  abbrev pub last? : List A → Option A
  last? [] = none
  last? (x ∷ []) = some x
  last? (x ∷ y ∷ ys) = last? (y ∷ ys)

  pub length-append : (xs ys : List A) → length (xs ++ ys) ≡ length xs + length ys
  length-append [] ys = omega arith
  length-append (x ∷ xs) ys = omega (arith, length-append xs ys)

  pub last?-append : (xs : List A) (y : A) → last? (xs ++ y ∷ []) ≡ some y
  last?-append [] y = refl
  last?-append (x ∷ []) y = refl
  last?-append (x ∷ z ∷ zs) y = last?-append (z ∷ zs) y

  -- What `find_first` returns passes the test.
  pub find_first-passes :
      (p : A → Bool) (xs : List A) (a : A) → find_first p xs ≡ some a → p a ≡ true
  find_first-passes p [] a h = cc
  find_first-passes p (x ∷ xs) a h = ground (arith, find_first-passes p xs a)

  -- Behind prefixes of one length, equal lists have equal rests.
  pub append-rest : (xs ys us vs : List A) → length xs ≡ length ys → xs ++ us ≡ ys ++ vs → us ≡ vs
  append-rest [] [] us vs n h = h
  append-rest [] (y ∷ ys) us vs n h = absurd (omega arith)
  append-rest (x ∷ xs) [] us vs n h = absurd (omega arith)
  append-rest (x ∷ xs) (y ∷ ys) us vs n h = append-rest xs ys us vs (omega arith) (cc)

-- `not xs`
abbrev pub is_empty {ℓ} : {A : Type ℓ} → List A → Bool
is_empty [] = true
is_empty (x ∷ xs) = false
