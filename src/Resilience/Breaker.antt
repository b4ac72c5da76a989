-- ===== src/Resilience/Breaker.antt =====
-- libs/holon_common/observability.py: class CircuitBreaker. A guarded call is an action on a
-- world `W` that returns or raises; the clock is read by the caller and passed in.
pub mod Invariant
pub mod Streak
use holon.Prelude.{
  ℕ, ◌+◌, ◌-◌, Option, none, some, Bool, true, false, not, ◌||◌, ltb, leb, if◌then◌else◌,
}
use holon.Prelude.Exec.{Outcome, returned, raised, Exec}

pub data State : Type 0 where
  closed opened half_open : State

pub record CircuitBreaker : Type 0 where
  pub failure_threshold : ℕ
  pub cooldown_seconds : ℕ
  pub failures : ℕ
  pub state : State
  pub opened_at : Option ℕ

unfoldable pub init : ℕ → ℕ → CircuitBreaker
init threshold cooldown = record {
  failure_threshold = threshold;
  cooldown_seconds = cooldown;
  failures = 0;
  state = closed;
  opened_at = none;
}

-- What `call` does; `open_error` is CircuitBreakerOpenError, `type_error` the subtraction of None.
pub data Answer {ℓ} (E A : Type ℓ) : Type ℓ where
  value : A → Answer E A
  error : E → Answer E A
  open_error type_error : Answer E A

-- The gate before the call: refused, a fault, or admitted with the breaker as it stands then.
pub data Gate : Type 0 where
  refused fault : Gate
  admitted : CircuitBreaker → Gate

cooling : ℕ → Option ℕ → CircuitBreaker → Gate
cooling now none b = fault
cooling now (some at) b =
    if ltb (now - at) b.cooldown_seconds then refused else admitted (record b { state = half_open })

gate_in : State → ℕ → CircuitBreaker → Gate
unfolding cooling
gate_in opened now b = cooling now b.opened_at b
gate_in closed now b = admitted b
gate_in half_open now b = admitted b

pub gate : ℕ → CircuitBreaker → Gate
unfolding gate_in
gate now b = gate_in b.state now b

abbrev is_half_open : State → Bool
is_half_open half_open = true
is_half_open closed = false
is_half_open opened = false

-- The `else` branch: the call returned.
pub on_success : CircuitBreaker → CircuitBreaker
on_success b = record b { failures = 0; state = closed }

-- An exception that `counts_as_failure` waves through.
pub on_ignored : CircuitBreaker → CircuitBreaker
on_ignored b = record b { failures = 0; state = if is_half_open b.state then closed else b.state }

-- An exception that counts; `now` is the clock at the failure.
pub on_failure : ℕ → CircuitBreaker → CircuitBreaker
on_failure now b =
    if is_half_open b.state || leb b.failure_threshold (b.failures + 1)
    then record b { failures = b.failures + 1; state = opened; opened_at = some now }
    else record b { failures = b.failures + 1 }

-- `counts_as_failure is not None and not counts_as_failure(exc)`
unfoldable pub ignores {ℓ} : {E : Type ℓ} → Option (E → Bool) → E → Bool
ignores none exc = false
ignores (some counts) exc = not (counts exc)

module _ {ℓ} {E A W : Type ℓ} where
  -- `is_exception` tells the instances of Exception, which `except Exception` catches, from a
  -- CancelledError and the like, which leave the breaker as it is.
  unfoldable pub settle :
      (E → Bool)
      → Option (E → Bool)
      → ℕ
      → CircuitBreaker
      → Outcome E A × W
      → Answer E A × CircuitBreaker × W
  unfolding ignores on_success on_ignored on_failure
  settle is_exception counts now b (returned a, w) = (value a, on_success b, w)
  settle is_exception counts now b (raised exc, w) =
      let caught = if ignores counts exc then on_ignored b else on_failure now b in
      (error exc, (if is_exception exc then caught else b), w)

  -- `CircuitBreaker.call`: `before` is the clock at the test, `after` the clock at a failure.
  unfoldable pub call :
      CircuitBreaker
      → (W → Outcome E A × W)
      → (E → Bool)
      → Option (E → Bool)
      → ℕ
      → ℕ
      → W
      → Answer E A × CircuitBreaker × W
  unfolding settle gate
  call b fn is_exception counts before after w = elim (gate before b) [
    | refused ↦ (open_error, b, w)
    | fault ↦ (type_error, b, w)
    | admitted b' ↦ settle is_exception counts after b' (fn w)
  ]
