-- ===== src/Resilience/Retry/Laws.antt =====
-- libs/holon_common/observability.py: how often retry_with_backoff calls, and how long it sleeps.
use holon.Prelude.{
  ℕ, zero, suc, ◌+◌, ◌*◌, ◌≤◌, ◌<◌, ◌≡◌, ◌≢◌, Bool, List, [], ◌∷◌, All, length, arith,
}
use holon.Prelude.Exec.{Outcome}
use holon.Resilience.Retry.{Backoff, delay, sleep_for, nothing, retry_from, retry_with_backoff}

mul_bound : (x m d : ℕ) → x ≤ m → d < 1000 → x * (500 + d) ≤ 1500 * m
mul_bound x m d h k = grind arith

delay-le : (p : Backoff) (attempt : ℕ) → delay p attempt ≤ p.max_delay
unfolding delay
delay-le p attempt = omega arith

sleep_for-le :
    (p : Backoff) (attempt draw : ℕ) → draw < 1000 → sleep_for p attempt draw ≤ 1500 * p.max_delay
unfolding sleep_for
sleep_for-le p attempt draw h =
    ground (
      arith,
      delay-le p attempt,
      mul_bound (delay p attempt) p.max_delay draw (delay-le p attempt) h,
    )

module _ {ℓ} {E A W : Type ℓ} (fn : W → Outcome E A × W) (retry_on : E → Bool) (p : Backoff)
    (draw : ℕ → ℕ) (attempts : ℕ) (draws : (n : ℕ) → draw n < 1000) where
  abbrev IsShort : List ℕ → Type 0
  IsShort = All (λ s. s ≤ 1500 * p.max_delay)

  retry_from_bounds :
      (left attempt : ℕ) (slept : List ℕ) (w : W)
      → attempt + left ≡ attempts + 1
      → 0 < left
      → IsShort slept
      → length slept + left ≡ attempts
      → let (r, slept', _) = retry_from fn retry_on p draw attempts left attempt slept w in
        (r ≢ nothing) × (length slept' < attempts) × IsShort slept'
  unfolding retry_from
  retry_from_bounds zero attempt slept w e pos short l = absurd (omega arith)
  retry_from_bounds (suc left) attempt slept w e pos short l = ground (
    arith,
    sleep_for-le p attempt (draw attempt) (draws attempt),
    retry_from_bounds left (attempt + 1) (sleep_for p attempt (draw attempt) ∷ slept) (fn w).1,
  )

  -- With at least one attempt, and draws below 1000 thousandths, the loop ends with a value or an
  -- exception, sleeps fewer times than it has attempts, and never sleeps longer than one and a
  -- half times the maximal delay.
  pub retry_with_backoff_bounds :
      (w : W)
      → 0 < attempts
      → let (r, slept, _) = retry_with_backoff fn retry_on p draw attempts w in
        (r ≢ nothing) × (length slept < attempts) × All (λ s. s ≤ 1500 * p.max_delay) slept
  unfolding retry_with_backoff
  retry_with_backoff_bounds w pos =
      retry_from_bounds attempts 1 [] w (omega arith) pos tt (omega arith)
