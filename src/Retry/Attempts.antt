-- ===== src/Retry/Attempts.antt =====
-- How often a transaction is tried, and with which delays.
use native.Mathlib.Nat.{two-pow-succ, one-le-pow, pow-le-pow_right}
use native.Mathlib.Numerals.{towards_suc}
use recallops.Result.{Result, err, serialization_failure, Error, ok}
use recallops.Common.{
  List, ℕ, [], ◌+◌, ◌∷◌, ◌≡◌, suc, ◌<◌, ◌^◌, zero, arith, refl, true, Bool-cases, inr, ◌-◌, ◌≤◌,
  inl, ap, ◌==◌, nat_eq, sym, ◌∙◌, ltb,
}
use recallops.Retry.{attempts, after_attempt, is_serialization_failure, run_serializable}

pub data Fails {A S : Type 0} (operation : S → Result A × S) : ℕ → S → S → Type 0 where
  none_yet : {s : S} → Fails operation 0 s s
  once_more :
      {k : ℕ} {s t u : S}
      → operation s ≡ (err serialization_failure, t)
      → Fails operation k t u
      → Fails operation (suc k) s u

-- The delays of `k` retries, from attempt `n` on.
pub delays : ℕ → ℕ → List ℕ
delays n zero = []
delays n (suc k) = 2 ^ n ∷ delays (n + 1) k

abbrev pub sum : List ℕ → ℕ
sum [] = 0
sum (x ∷ xs) = x + sum xs

-- The delays double, so that `k` of them from the first on come to `2 ^ k - 1`.
sum-delays : (n k : ℕ) → sum (delays n k) + 2 ^ n ≡ 2 ^ (n + k)
unfolding delays
sum-delays n zero = ground (arith)
sum-delays n (suc k) =
    let rest = sum-delays (n + 1) k in
    let twice : 2 ^ (n + 1) ≡ 2 ^ n + 2 ^ n = simp towards_suc (two-pow-succ n) in
    let same : n + 1 + k ≡ n + suc k = omega arith in
    omega (arith, rest, twice, ap (λ (x : ℕ). 2 ^ x) same)

module _ {A S : Type 0} (operation : S → Result A × S) (max_attempts : ℕ) where
  -- `k` attempts fail on serialization, one after another on the database that each left, and the next
  -- one decides: its result and its database are those of the call, and the call has slept in between.
  pub record Decides (n : ℕ) (s : S) (outcome : Result A × S × List ℕ) : Type 0 where
    pub failures : ℕ
    pub last : S
    pub fails : Fails operation failures s last
    pub result : outcome.0 ≡ (operation last).0
    pub database : outcome.1 ≡ (operation last).1
    pub slept : outcome.2 ≡ delays n failures
    pub enough : n + failures < max_attempts
    pub exhausted : (operation last).0 ≡ err serialization_failure → n + failures + 1 ≡ max_attempts

  serialization : (e : Error) → is_serialization_failure e ≡ true → e ≡ serialization_failure
  serialization e h = ground arith

  is_serialization_failure_of :
      (e : Error)
      → ◌≡◌ {A = Result A} (err e) (err serialization_failure)
      → is_serialization_failure e ≡ true
  is_serialization_failure_of e same = ground arith

  -- The attempt that decides.
  Decides-now :
      (n : ℕ) (s t : S) (r : Result A)
      → operation s ≡ (r, t)
      → n < max_attempts
      → (r ≡ err serialization_failure → n + 1 ≡ max_attempts)
      → Decides n s (r, t, [])
  unfolding delays
  Decides-now n s t r tried budget exhausted = record {
    failures = 0;
    last = s;
    fails = none_yet;
    result = rw tried;
    database = rw tried;
    slept = refl;
    enough = omega arith;
    exhausted =
        λ same. omega (arith, exhausted (ap (λ (o : Result A × S). o.0) (sym tried) ∙ same));
  }

  -- An attempt before it.
  Decides-later :
      (n : ℕ) (s t : S) (outcome : Result A × S × List ℕ)
      → operation s ≡ (err serialization_failure, t)
      → Decides (n + 1) t outcome
      → Decides n s (outcome.0, outcome.1, 2 ^ n ∷ outcome.2)
  unfolding delays
  Decides-later n s t outcome tried d = record {
    failures = suc d.failures;
    last = d.last;
    fails = once_more tried d.fails;
    result = d.result;
    database = d.database;
    slept = ap (◌∷◌ (2 ^ n)) d.slept;
    enough = omega (arith, d.enough);
    exhausted = λ same. omega (arith, d.exhausted same);
  }

  -- One attempt, given what the remaining rounds come to.
  after_attempt-Decides :
      (n : ℕ) (s : S) (o : Result A × S) (again : S → Result A × S × List ℕ)
      → operation s ≡ o
      → n < max_attempts
      → ((t : S) → n + 1 < max_attempts → Decides (n + 1) t (again t))
      → Decides n s (after_attempt operation max_attempts n o again)
  unfolding after_attempt
  after_attempt-Decides n s (ok a, t) again tried budget later =
      Decides-now n s t (ok a) tried budget (λ e. cc)
  after_attempt-Decides n s (err e, t) again tried budget later =
      elim (Bool-cases (is_serialization_failure e)) [
        | inr other ↦ rw other (
            Decides-now n s t (err e) tried budget
              (λ same. cc (other, is_serialization_failure_of e same)))
        | inl conflict ↦ rw conflict (elim (Bool-cases (n + 1 == max_attempts)) [
          | inl over ↦ rw over (Decides-now n s t (err e) tried budget (λ same. ground arith))
          | inr more ↦ rw more (
              Decides-later n s t (again t) (rw (← serialization e conflict) tried)
                (later t (ground arith)))
        ])
      ]

  attempts-Decides :
      (rounds n : ℕ) (s : S)
      → n + suc rounds ≡ max_attempts
      → Decides n s (attempts operation max_attempts (suc rounds) n s)
  unfolding attempts
  attempts-Decides zero n s budget =
      after_attempt-Decides n s (operation s) (attempts operation max_attempts 0 (n + 1)) refl
        (omega arith) (λ t more. absurd (omega arith))
  attempts-Decides (suc rounds) n s budget =
      after_attempt-Decides n s (operation s) (attempts operation max_attempts (suc rounds) (n + 1))
        refl (omega arith) (λ t more. attempts-Decides rounds (n + 1) t (omega arith))

  Decides-sum :
      (s : S) (outcome : Result A × S × List ℕ)
      → Decides 0 s outcome
      → sum outcome.2 < 2 ^ (max_attempts - 1)
  Decides-sum s outcome d =
      let enough = d.enough in
      let below : 2 ^ d.failures ≤ 2 ^ (max_attempts - 1) =
        pow-le-pow_right (omega arith) (omega arith) in
      let first : 0 + d.failures ≡ d.failures = omega arith in
      omega (arith, ap sum d.slept, sum-delays 0 d.failures, ap (λ (x : ℕ). 2 ^ x) first, below)

  attempts_all :
      (m : ℕ) (s : S)
      → m ≡ max_attempts
      → 1 ≤ m
      → Decides 0 s (attempts operation max_attempts m 0 s)
  attempts_all zero s same enough = absurd (omega arith)
  attempts_all (suc m) s same enough = attempts-Decides m 0 s (omega arith)

  -- A call with at least one attempt ends: some number of attempts below the limit fail on serialization,
  -- each on the database that the one before it left, the next one's result and database are the call's,
  -- the delays in between double from the base delay, and a serialization failure is raised only from the
  -- last attempt that is allowed.
  pub run_serializable-Decides :
      (s : S) → 1 ≤ max_attempts → Decides 0 s (run_serializable operation max_attempts s)
  unfolding run_serializable
  run_serializable-Decides s enough = ground (arith, attempts_all max_attempts s refl)

  -- All the delays of a call together stay below the base delay times `2 ^ (max_attempts - 1)`.
  pub run_serializable-sum :
      (s : S) → sum (run_serializable operation max_attempts s).2 < 2 ^ (max_attempts - 1)
  unfolding run_serializable
  run_serializable-sum s = elim (Bool-cases (ltb max_attempts 1)) [
    | inl unusable ↦ rw (run_serializable, unusable) (one-le-pow (max_attempts - 1) 2 (omega arith))
    | inr usable ↦
        Decides-sum s (run_serializable operation max_attempts s)
          (run_serializable-Decides s (ground arith))
  ]
