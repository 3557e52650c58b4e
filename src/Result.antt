-- ===== src/Result.antt =====
-- Python's exceptions, by class, with their messages; a call that may raise and may change state.
use recallops.Common.{
  if◌then◌else◌, List, [], ◌∷◌, All, String, Bool, true, false, ◌≡◌, refl, List, All, ℕ,
}

-- The exception classes of the package, pydantic's `ValidationError`, and the `HTTPException` of a
-- status with its detail.
pub data Error : Type 0 where
  workflow_conflict ledger_conflict governance_error workflow_error : String → Error
  receipt_error receipt_verification_error authorization_error : String → Error
  authentication_error sandbox_policy_error dependency_unavailable value_error runtime_error
        capacity_error :
      String → Error
  key_error : Error
  validation_error : String → Error
  serialization_failure : Error
  assertion_error : String → Error
  http_error : ℕ → String → Error

-- A value that is returned, or an exception that is raised.
pub data Result {ℓ} (V : Type ℓ) : Type ℓ where
  err : Error → Result V
  ok : V → Result V

infixl 5 ◌>>◌ ◌>>=◌
-- `if test: raise e`
abbrev pub raise_if : Bool → Error → Result (Unit {0})
raise_if true e = err e
raise_if false e = ok tt

-- The statements after a call run on its value, and are skipped if it raises.
abbrev pub ◌>>=◌ {κ ℓ} : {V : Type κ} {W : Type ℓ} → Result V → (V → Result W) → Result W
err raised >>= rest = err raised
ok v >>= rest = rest v

-- a call for its effect
abbrev pub ◌>>◌ {ℓ} : {W : Type ℓ} → Result (Unit {0}) → Result W → Result W
call >> rest = call >>= (λ _. rest)

-- Where the whole returns, the first call returned.
pub >>=-eq-ok {κ ℓ} :
    {V : Type κ} {W : Type ℓ} (call : Result V) (rest : V → Result W) {w : W}
    → (call >>= rest) ≡ ok w
    → (v : V) × (call ≡ ok v) × (rest v ≡ ok w)
>>=-eq-ok (err raised) rest done = cc
>>=-eq-ok (ok v) rest done = (v, refl, done)

pub raise_if-eq-ok : (b : Bool) (e : Error) {u : Unit {0}} → raise_if b e ≡ ok u → b ≡ false
raise_if-eq-ok true e h = cc
raise_if-eq-ok false e h = refl

-- The call raised.
abbrev pub IsErr {ℓ} : {A : Type ℓ} → Result A → Type 0
IsErr (ok _) = ⊥
IsErr (err _) = Unit

-- The call raised and left the state as it was.
abbrev pub Refused {ℓ κ} : {A : Type ℓ} {S : Type κ} → Result A × S → S → Type κ
Refused (r, s') s = (s' ≡ s) × IsErr r

pub ok-injective {ℓ} : {A : Type ℓ} {a b : A} → ok a ≡ ok b → a ≡ b
ok-injective h = cc

-- What follows a check is reached only if the check passes.
pub raise_if->>-eq-ok {ℓ} :
    {B : Type ℓ} (b : Bool) (e : Error) (m : Result B) {x : B}
    → (raise_if b e >> m) ≡ ok x
    → (b ≡ false) × (m ≡ ok x)
raise_if->>-eq-ok true e m h = cc
raise_if->>-eq-ok false e m h = (refl, h)

pub raise_if-false->> {ℓ} :
    {B : Type ℓ} (b : Bool) (e : Error) (m : Result B) → b ≡ false → (raise_if b e >> m) ≡ m
raise_if-false->> true e m h = cc
raise_if-false->> false e m h = refl

-- A run of `if test: raise error` statements before the rest.
abbrev pub check_all {ℓ} : {B : Type ℓ} → List (Bool × Error) → Result B → Result B
check_all [] m = m
check_all ((failed, e) ∷ checks) m = let rest = check_all checks m in if failed then err e else rest

-- The rest is reached only if every check passes.
pub check_all-eq-ok {ℓ} :
    {B : Type ℓ} (checks : List (Bool × Error)) (m : Result B) {x : B}
    → check_all checks m ≡ ok x
    → All (λ c. c.0 ≡ false) checks × (m ≡ ok x)
check_all-eq-ok [] m h = (tt, h)
check_all-eq-ok ((true, e) ∷ checks) m h = cc
check_all-eq-ok ((false, e) ∷ checks) m h =
    let (rest, done) = check_all-eq-ok checks m h in ((refl, rest), done)
