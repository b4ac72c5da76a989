-- ===== src/Resilience/Breaker/Invariant.antt =====
-- libs/holon_common/observability.py: when a circuit breaker lets a call through, and what it
-- keeps between two calls.
use holon.Prelude.{
  ℕ, ◌-◌, ◌<◌, ◌≡◌, ◌≢◌, Option, none, some, Bool, false, arith, ltb, if◌then◌else◌,
}
use holon.Prelude.Exec.{Outcome, returned, raised}
use holon.Resilience.Breaker.{
  State, closed, opened, half_open, CircuitBreaker, Answer, value, error, open_error, call,
}

-- Between calls: closed below the threshold, or open, or left half open by a trial call that was
-- cancelled, with the time of opening.
abbrev pub IsSettled : State → CircuitBreaker → Type 0
IsSettled closed b = b.failures < b.failure_threshold
IsSettled opened b = b.opened_at ≢ none
IsSettled half_open b = b.opened_at ≢ none

pub record IsValid (b : CircuitBreaker) : Type 0 where
  pub positive : 0 < b.failure_threshold
  pub settled : IsSettled b.state b

-- The breaker is open and its cooldown has not passed: an independent reading of the gate.
abbrev pub blocked_in : State → ℕ → CircuitBreaker → Bool
blocked_in opened now b = elim b.opened_at [
  | none ↦ false
  | some at ↦ ltb (now - at) b.cooldown_seconds
]
blocked_in closed now b = false
blocked_in half_open now b = false

abbrev pub blocked : ℕ → CircuitBreaker → Bool
blocked now b = blocked_in b.state now b

abbrev pub answer_of {ℓ} : {E A : Type ℓ} → Outcome E A → Answer E A
answer_of (returned a) = value a
answer_of (raised e) = error e

module _ {ℓ} {E A W : Type ℓ} where
  -- Let a breaker be closed below its threshold, or be open or half open with the time of opening. After
  -- a call that returns, raises an Exception, counted or not, is cancelled, or is refused, it is so again.
  pub call-IsValid :
      (b : CircuitBreaker) (fn : W → Outcome E A × W) (is_exception : E → Bool)
      (counts : Option (E → Bool)) (before after : ℕ) (w : W)
      → IsValid b
      → IsValid (call b fn is_exception counts before after w).1
  unfolding call
  call-IsValid b fn is_exception counts before after w v = ground arith

  -- A valid breaker runs the call exactly when it is not cooling down: while it cools down the
  -- world and the breaker stay as they are, and otherwise the call's own answer comes back.
  call-blocked :
      (b : CircuitBreaker) (fn : W → Outcome E A × W) (is_exception : E → Bool)
      (counts : Option (E → Bool)) (before after : ℕ) (w : W)
      → IsValid b
      → let (answer, b', w') = call b fn is_exception counts before after w in
        (answer ≡ (if blocked before b then open_error else answer_of (fn w).0))
        × (w' ≡ (if blocked before b then w else (fn w).1))
        × ((if blocked before b then b' else b) ≡ b)
  unfolding call
  call-blocked b fn is_exception counts before after w v = ground arith

  -- A call that answers with a value ran the function, in the world as it stood.
  pub call-value :
      (b : CircuitBreaker) (fn : W → Outcome E A × W) (is_exception : E → Bool)
      (counts : Option (E → Bool)) (before after : ℕ) (w : W) (a : A)
      → (call b fn is_exception counts before after w).0 ≡ value a
      → ((fn w).0 ≡ returned a) × ((call b fn is_exception counts before after w).2 ≡ (fn w).1)
  unfolding call
  call-value b fn is_exception counts before after w a h = ground arith
