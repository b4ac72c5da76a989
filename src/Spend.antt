-- ===== src/Spend.antt =====
-- services/intelligence/app/spend_limits.py: the request window of a principal and the daily token
-- quota of a tenant. The limits are what `rpm_limit` and `daily_token_quota` read of the
-- environment, 0 for a limit that is switched off.
pub mod Bounds
pub mod Quota
mod Examples
use holon.Prelude.{
  ℕ, zero, ◌+◌, ◌↔◌, ◌≡◌, Bool, true, false, ◌&&◌, Option, none, some, List, [], ◌∷◌, arith, ◌==◌,
  ==_iff, leb, ltb, if◌then◌else◌,
}
use holon.Prelude.Text.{Text, text_eq, text_eq_iff}
use holon.Prelude.Table.{Table, get, upsert}
use holon.Prelude.Exec.{Outcome, returned, raised, Exec, ◌>>=◌, ◌>>◌}

pub record Limits : Type 0 where
  pub rpm_limit : ℕ
  pub daily_token_quota : ℕ

-- A principal's URN and the minute, or a tenant and the day.
pub record Slot : Type 0 where
  pub owner : Text
  pub start : ℕ

unfoldable pub same_slot : Slot → Slot → Bool
same_slot a b = text_eq a.owner b.owner && (a.start == b.start)

pub same_slot_iff : (a b : Slot) → (same_slot a b ≡ true) ↔ (a ≡ b)
unfolding same_slot
same_slot_iff a b = ground (arith, text_eq_iff a.owner b.owner, ==_iff a.start b.start)

-- `intelligence_request_window` and `intelligence_token_day`
pub record Usage : Type 0 where
  pub request_window : Table Slot ℕ
  pub token_day : Table Slot ℕ

pub data SpendLimitExceeded : Type 0 where
  rate_limit token_quota : ℕ → SpendLimitExceeded

abbrev pub count : Option ℕ → ℕ
count none = 0
count (some n) = n

abbrev pub requests : Slot → Usage → ℕ
requests k u = count (get same_slot k u.request_window)

abbrev pub tokens : Slot → Usage → ℕ
tokens k u = count (get same_slot k u.token_day)

-- INSERT … ON CONFLICT DO UPDATE SET n = n + EXCLUDED.n RETURNING n
unfoldable pub add_to : Slot → ℕ → Table Slot ℕ → ℕ × Table Slot ℕ
add_to k n rows =
    let total = count (get same_slot k rows) + n in (total, upsert same_slot k total rows)

abbrev over : Bool → SpendLimitExceeded → Usage → Outcome SpendLimitExceeded (Unit {0}) × Usage
over true e u = (raised e, u)
over false e u = (returned tt, u)

-- The request counts, whether it is refused or not.
unfoldable pub check_and_increment_request :
    Limits → Text → ℕ → Exec SpendLimitExceeded Usage (Unit {0})
check_and_increment_request limits principal_urn minute u =
    let limit = limits.rpm_limit in
    let (n, rows) = add_to (record { owner = principal_urn; start = minute }) 1 u.request_window in
    if limit == 0
    then (returned tt, u)
    else over (ltb limit n) (rate_limit limit) (record u { request_window = rows })

unfoldable pub check_daily_token_quota :
    Limits → Text → ℕ → Exec SpendLimitExceeded Usage (Unit {0})
check_daily_token_quota limits tenant_id day u =
    let quota = limits.daily_token_quota in
    if quota == 0
    then (returned tt, u)
    else over
        (elim (get same_slot (record { owner = tenant_id; start = day }) u.token_day) [
          | none ↦ false
          | some used ↦ leb quota used
        ])
        (token_quota quota) u

unfoldable pub record_tokens : Text → ℕ → ℕ → Usage → Usage
record_tokens tenant_id day n u =
    let (total, rows) = add_to (record { owner = tenant_id; start = day }) n u.token_day in
    if n == 0 then u else record u { token_day = rows }

unfoldable pub enforce_before_spend :
    Limits → Text → Text → ℕ → ℕ → Exec SpendLimitExceeded Usage (Unit {0})
enforce_before_spend limits tenant_id principal_urn minute day =
    check_and_increment_request limits principal_urn minute >>= λ u.
    check_daily_token_quota limits tenant_id day
