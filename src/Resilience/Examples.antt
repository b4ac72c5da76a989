-- ===== src/Resilience/Examples.antt =====
-- Runs of the circuit breaker and the retry loop, and the theorems at concrete inputs.
use holon.Prelude.{
  Bool, not, ◌==◌, ℕ, ◌+◌, ◌*◌, ◌≤◌, ◌<◌, ◌≢◌, true, none, some, List, [], ◌∷◌, All, length, arith,
}
use holon.Prelude.Exec.{raised, Exec}
use holon.Resilience.Breaker.{CircuitBreaker, opened, call}
use holon.Resilience.Breaker.Invariant.{IsValid, call-IsValid}
use holon.Resilience.Retry.{Backoff, nothing, retry_with_backoff}
use holon.Resilience.Retry.Laws.{retry_with_backoff_bounds}

abbrev plain : ℕ → Bool
plain e = not (e == 0)

-- The world counts the calls; every call raises the number 7.
abbrev broken : Exec ℕ ℕ ℕ
broken n = (raised 7, n + 1)

abbrev tripped : CircuitBreaker
tripped = record {
  failure_threshold = 5;
  cooldown_seconds = 30;
  failures = 5;
  state = opened;
  opened_at = some 100;
}

tripped-IsValid : IsValid tripped
tripped-IsValid = record { positive = omega arith; settled = λ e. cc }

call-IsValid_example : IsValid (call tripped broken plain none 120 121 0).1
call-IsValid_example = call-IsValid tripped broken plain none 120 121 0 tripped-IsValid

abbrev four : List ℕ
four = 1 ∷ 2 ∷ 3 ∷ 4 ∷ []

abbrev seven : ℕ
seven = 7

abbrev policy : Backoff
policy = record { base_delay = 2000; max_delay = 30_000; jitter = true }

retry_with_backoff_bounds_example :
    let (r, slept, _) = retry_with_backoff broken (λ _. true) policy (λ _. 999) 15 0 in
    (r ≢ nothing) × (length slept < 15) × All (λ s. s ≤ 1500 * 30_000) slept
retry_with_backoff_bounds_example =
    retry_with_backoff_bounds broken (λ _. true) policy (λ _. 999) 15 (λ n. omega arith) 0
      (omega arith)
