-- ===== src/Resilience/Retry.antt =====
-- libs/holon_common/observability.py: retry_with_backoff. Delays are in milliseconds; the jitter
-- factor 0.5 + random() is given in thousandths by a draw below 1000, so a sleep is in
-- microseconds. `retry_on` tells which exceptions are retried.
pub mod Laws
use holon.Prelude.{
  ℕ, zero, suc, ◌+◌, ◌*◌, ◌^◌, ◌-◌, min, Option, none, some, Bool, true, false, List, [], ◌∷◌, ◌==◌,
  if◌then◌else◌,
}
use holon.Prelude.Exec.{Outcome, returned, raised}

pub record Backoff : Type 0 where
  pub base_delay : ℕ
  pub max_delay : ℕ
  pub jitter : Bool

-- `min(base_delay * 2 ** (attempt - 1), max_delay)`
unfoldable pub delay : Backoff → ℕ → ℕ
delay p attempt = min (p.base_delay * 2 ^ (attempt - 1)) p.max_delay

unfoldable pub sleep_for : Backoff → ℕ → ℕ → ℕ
unfolding delay
sleep_for p attempt draw =
    if p.jitter then delay p attempt * (500 + draw) else delay p attempt * 1000

-- What the caller gets: a value, an exception, or None when `attempts` is 0.
pub data Retried {ℓ} (E A : Type ℓ) : Type ℓ where
  done : A → Retried E A
  failed : E → Retried E A
  nothing : Retried E A

module _ {ℓ} {E A W : Type ℓ} (fn : W → Outcome E A × W) (retry_on : E → Bool) (p : Backoff)
    (draw : ℕ → ℕ) (attempts : ℕ) where
  -- The rounds left, the number of the attempt, and the sleeps so far, the latest first.
  unfoldable pub retry_from : ℕ → ℕ → List ℕ → W → Retried E A × List ℕ × W
  retry_from zero attempt slept w = (nothing, slept, w)
  retry_from (suc left) attempt slept w =
      let (outcome, w') = fn w in
      elim outcome [
        | returned a ↦ (done a, slept, w')
        | raised exc ↦ elim (retry_on exc) [
          | false ↦ (failed exc, slept, w')
          | true ↦ elim (attempt == attempts) [
            | true ↦ (failed exc, slept, w')
            | false ↦ retry_from left (attempt + 1) (sleep_for p attempt (draw attempt) ∷ slept) w'
          ]
        ]
      ]

  unfoldable pub retry_with_backoff : W → Retried E A × List ℕ × W
  unfolding retry_from
  retry_with_backoff w = retry_from attempts 1 [] w
