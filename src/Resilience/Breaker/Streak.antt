-- ===== src/Resilience/Breaker/Streak.antt =====
-- libs/holon_common/observability.py: what a run of failures, and the trial after the cooldown, do
-- to a circuit breaker.
use holon.Prelude.{
  ℕ, ◌+◌, ◌-◌, ◌≤◌, ◌<◌, ◌≡◌, Option, some, Bool, true, false, not, List, [], ◌∷◌, length, arith,
  if◌then◌else◌,
}
use holon.Prelude.Exec.{Outcome, returned, raised}
use holon.Resilience.Breaker.{closed, opened, CircuitBreaker, ignores, call}

module _ {ℓ} {E : Type ℓ} (exc : E) (is_exception : E → Bool) (counts : Option (E → Bool)) where
  -- One call, at time `t`, of a function that raises `exc`.
  abbrev pub fail_once : CircuitBreaker → ℕ → CircuitBreaker
  fail_once b t =
      (call {A = Unit {ℓ}} {W = Unit {ℓ}} b (λ v. (raised exc, v)) is_exception counts t t tt).1

  abbrev pub fail_each : CircuitBreaker → List ℕ → CircuitBreaker
  fail_each b [] = b
  fail_each b (t ∷ ts) = fail_each (fail_once b t) ts

  fail_each-closed :
      (b : CircuitBreaker) (ts : List ℕ)
      → is_exception exc ≡ true
      → ignores counts exc ≡ false
      → b.state ≡ closed
      → b.failures + length ts < b.failure_threshold
      → fail_each b ts ≡ record b { failures = b.failures + length ts }
  unfolding call
  fail_each-closed b [] i _ c below = ground arith
  fail_each-closed b (t ∷ ts) i counted c below =
      ground (arith, fail_each-closed (record b { failures = b.failures + 1 }) ts)

  -- A closed breaker whose calls keep raising an exception that counts stays closed until the
  -- failures in a row reach the threshold, and the failure that reaches it opens the breaker at
  -- the time of that failure.
  pub fail_each-opens :
      (b : CircuitBreaker) (ts : List ℕ) (t : ℕ)
      → is_exception exc ≡ true
      → ignores counts exc ≡ false
      → b.state ≡ closed
      → b.failures + length ts + 1 ≡ b.failure_threshold
      → ((fail_each b ts).state ≡ closed)
        × (fail_once (fail_each b ts) t
            ≡ record b { failures = b.failure_threshold; state = opened; opened_at = some t })
  unfolding call
  fail_each-opens b ts t i counted c at =
      ground (arith, fail_each-closed b ts i counted c (omega arith))

-- The trial call failed: it raised, and the exception counts.
abbrev pub failed {ℓ} : {E A : Type ℓ} → Option (E → Bool) → Outcome E A → Bool
failed counts (returned a) = false
failed counts (raised exc) = not (ignores counts exc)

-- The call returned, or raised an Exception.
abbrev pub caught {ℓ} : {E A : Type ℓ} → (E → Bool) → Outcome E A → Bool
caught is_exception (returned a) = true
caught is_exception (raised exc) = is_exception exc

module _ {ℓ} {E A W : Type ℓ} where
  -- After the cooldown one trial call that is not cancelled decides. If it raises an exception that counts, the breaker
  -- is open again from the time of that failure; in every other case, an exception that does not
  -- count included, it is closed with its count of failures at zero.
  pub trial-call :
      (b : CircuitBreaker) (fn : W → Outcome E A × W) (is_exception : E → Bool)
      (counts : Option (E → Bool)) (at before after : ℕ) (w : W)
      → caught is_exception (fn w).0 ≡ true
      → b.state ≡ opened
      → b.opened_at ≡ some at
      → b.cooldown_seconds ≤ before - at
      → let b' = (call b fn is_exception counts before after w).1 in
        let bad = failed counts (fn w).0 in
        (b'.state ≡ (if bad then opened else closed))
        × (b'.failures ≡ (if bad then b.failures + 1 else 0))
        × (b'.opened_at ≡ some (if bad then after else at))
  unfolding call
  trial-call b fn is_exception counts at before after w all o t cool = ground arith
