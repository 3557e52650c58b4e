-- ===== src/Sessions/Attempts.antt =====
-- The limit on attempts.
use recallops.Dict
use recallops.Common.{
  String, ℕ, List, ◌∷◌, if◌then◌else◌, ◌<◌, ◌≡◌, some, ◌+◌, [], ◌*◌, ◌≤◌, leb, ◌-◌, arith,
  string_eq, refl,
}
use recallops.Sessions.{consume_attempt, Sessions, counted}
use recallops.Workflow.Snapshot.{Time}
use recallops.Dict.{get-put_self}

-- The attempts of one client at the given times, and how many of them are allowed.
unfoldable pub allowed : String → ℕ → ℕ → List Time → Sessions → ℕ
allowed client limit window [] s = 0
allowed client limit window (now ∷ times) s =
    let (granted, s') = consume_attempt now client limit window s in
    let rest = allowed client limit window times s' in if granted then rest + 1 else rest

module _ (client : String) (limit window started : ℕ) where
  -- Every time lies before the end of the window that began at `started`.
  abbrev pub Within : List Time → Type 0
  Within [] = Unit
  Within (now ∷ times) = (now < started + window * 1000000) × Within times

  counted-within :
      (now count : ℕ)
      → now < started + window * 1000000
      → counted now window (some (started, count)) ≡ (started, count + 1)
  unfolding counted
  counted-within now count early = ground arith

  -- One attempt inside the window.
  consume_attempt-within :
      (now : Time) (count : ℕ) (s : Sessions)
      → Dict.get client s.attempts ≡ some (started, count)
      → now < started + window * 1000000
      → ((consume_attempt now client limit window s).0 ≡ leb (count + 1) limit)
        × (Dict.get client (consume_attempt now client limit window s).1.attempts
            ≡ some (started, count + 1))
  unfolding consume_attempt
  consume_attempt-within now count s found early = rw found (
      rw (counted-within now count early)
        (refl, get-put_self client (started, count + 1) s.attempts))

  -- At times before the end of the client's stored window, the client is allowed no more attempts than
  -- the limit leaves, whatever their number and order.
  pub allowed-le :
      (times : List Time) (count : ℕ) (s : Sessions)
      → Dict.get client s.attempts ≡ some (started, count)
      → Within times
      → allowed client limit window times s ≤ limit - count
  unfolding allowed
  allowed-le [] count s found within = omega arith
  allowed-le (now ∷ times) count s found within =
      let (granted, kept) = consume_attempt-within now count s found within.0 in
      ground (
        arith,
        granted,
        allowed-le times (count + 1) (consume_attempt now client limit window s).1 kept within.1,
      )
