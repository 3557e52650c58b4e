-- ===== src/Common/Equality.antt =====
-- Equality tests as an interface, one operator for every type that has an instance.
use Prim.Native.Nat.{ℕ}
use Prim.Native.String.{String}
use mathlib.Core.Path.{◌≡◌, refl}
use mathlib.Core.Logic.{◌↔◌, ◌≢◌}
use mathlib.Core.Bool.{Bool, true, false, ◌&&◌}
use mathlib.Core.List.{List, [], ◌∷◌}
use mathlib.Core.Option.{Option, none, some}
use native.Mathlib.Omega.{arith}
use text.Mathlib.Text.{◌==◌ as str_eq}
use text.Mathlib.TextEquality.{eq_iff}
use recallops.Common.Tests.{nat_beq, nat_beq_iff}

infix 50 ◌!=◌ ◌==◌
-- Types whose values `==` compares: the test, and that it says what it should.
pub record Eq {ℓ} (X : Type ℓ) : Type ℓ where
  pub beq : X → X → Bool
  pub beq_iff : (x y : X) → (beq x y ≡ true) ↔ (x ≡ y)

abbrev pub ◌==◌ {ℓ} : {A : Type ℓ} ⦃e : Eq A⦄ → A → A → Bool
◌==◌ ⦃e⦄ = e.beq

abbrev pub ◌!=◌ {ℓ} : {A : Type ℓ} ⦃e : Eq A⦄ → A → A → Bool
◌!=◌ ⦃e⦄ a b = elim (e.beq a b) [ true ↦ false | false ↦ true ]

instance abbrev pub nat_eq : Eq ℕ
nat_eq = record { beq = nat_beq; beq_iff = nat_beq_iff }

instance abbrev pub string_eq : Eq String
string_eq = record { beq = str_eq; beq_iff = eq_iff }

module _ {ℓ} {A : Type ℓ} ⦃e : Eq A⦄ where
  abbrev pub option_beq : Option A → Option A → Bool
  option_beq none none = true
  option_beq (some a) (some b) = e.beq a b
  option_beq _ _ = false

  pub option_beq_iff : (o p : Option A) → (option_beq o p ≡ true) ↔ (o ≡ p)
  option_beq_iff none none = ground arith
  option_beq_iff (some a) (some b) = ground (arith, e.beq_iff a b)
  option_beq_iff none (some b) = ground arith
  option_beq_iff (some a) none = ground arith

  instance abbrev pub option_eq : Eq (Option A)
  option_eq = record { beq = option_beq; beq_iff = option_beq_iff }

  pub ==_refl : (a : A) → (a == a) ≡ true
  ==_refl a = (e.beq_iff a a).1 refl

  pub !=_refl : (a : A) → (a != a) ≡ false
  !=_refl a = ground (arith, ==_refl a)

  pub ==_ne : (a b : A) → a ≢ b → (a == b) ≡ false
  ==_ne a b h = ground (arith, e.beq_iff a b)

module _ {ℓ} {A : Type ℓ} ⦃e : Eq A⦄ where
  abbrev pub list_beq : List A → List A → Bool
  list_beq [] [] = true
  list_beq (x ∷ xs) (y ∷ ys) = e.beq x y && list_beq xs ys
  list_beq _ _ = false

  pub list_beq_iff : (xs ys : List A) → (list_beq xs ys ≡ true) ↔ (xs ≡ ys)
  list_beq_iff [] [] = ground arith
  list_beq_iff [] (y ∷ ys) = ground arith
  list_beq_iff (x ∷ xs) [] = ground arith
  list_beq_iff (x ∷ xs) (y ∷ ys) = ground (arith, e.beq_iff x y, list_beq_iff xs ys)

  instance abbrev pub list_eq : Eq (List A)
  list_eq = record { beq = list_beq; beq_iff = list_beq_iff }

module _ {ℓ κ} {A : Type ℓ} {B : Type κ} ⦃e : Eq A⦄ ⦃f : Eq B⦄ where
  abbrev pub pair_beq : A × B → A × B → Bool
  pair_beq (a, b) (c, d) = e.beq a c && f.beq b d

  pub pair_beq_iff : (p q : A × B) → (pair_beq p q ≡ true) ↔ (p ≡ q)
  pair_beq_iff (a, b) (c, d) = ground (arith, e.beq_iff a c, f.beq_iff b d)

  instance abbrev pub pair_eq : Eq (A × B)
  pair_eq = record { beq = pair_beq; beq_iff = pair_beq_iff }

-- The test of a decidable equality.
module _ {ℓ} {A : Type ℓ} where
  abbrev pub is_yes : {a b : A} → Dec (a ≡ b) → Bool
  is_yes (yes p) = true
  is_yes (no p) = false

  pub is_yes_iff : {a b : A} (d : Dec (a ≡ b)) → (is_yes d ≡ true) ↔ (a ≡ b)
  is_yes_iff (yes p) = ((λ _. p), (λ _. refl))
  is_yes_iff (no p) = ((λ e. cc), (λ e. absurd (p e)))

  abbrev pub eq_of_discrete : Discrete A → Eq A
  eq_of_discrete d = record { beq = λ a b. is_yes (d a b); beq_iff = λ a b. is_yes_iff (d a b) }

string_dec : (s t : String) (b : Bool) → (str_eq s t ≡ b) → Dec (s ≡ t)
string_dec s t true e = yes ((eq_iff s t).0 e)
string_dec s t false e = no (λ p. cc (e, (eq_iff s t).1 p))

unfoldable pub string_discrete : Discrete String
unfolding string_dec
string_discrete s t = string_dec s t (str_eq s t) refl
