-- ===== src/Spend/Quota.antt =====
-- spend_limits.py: the tokens of a tenant on a day, when every spend is checked first and recorded
-- after.
use holon.Prelude.{
  ℕ, ◌+◌, ◌-◌, ◌≤◌, ◌<◌, ◌≡◌, ◌≢◌, refl, ap, List, [], ◌∷◌, All, arith, ◌==◌, ==_iff, leb, ltb,
  if◌then◌else◌, Bool-cases, Option-cases, inl, inr,
}
use holon.Prelude.Text.{Text}
use holon.Prelude.Table.{get}
use holon.Prelude.Exec.{Outcome, returned, raised, ◌>>=◌}
use holon.Spend.{
  Limits, Slot, same_slot, same_slot_iff, Usage, SpendLimitExceeded, count, tokens, add_to,
  check_and_increment_request, check_daily_token_quota, record_tokens, enforce_before_spend,
}
use holon.Spend.Bounds.{add_to-count}

pub record Spending : Type 0 where
  pub tenant_id : Text
  pub principal_urn : Text
  pub minute : ℕ
  pub day : ℕ
  pub amount : ℕ

-- A call of the model: enforced before, its tokens recorded after, unless it was refused.
settle : Spending → Outcome SpendLimitExceeded (Unit {0}) × Usage → Usage
settle s (returned u, after) = record_tokens s.tenant_id s.day s.amount after
settle s (raised e, after) = after

unfoldable pub spend_one : Limits → Spending → Usage → Usage
unfolding settle
spend_one limits s u =
    settle s (enforce_before_spend limits s.tenant_id s.principal_urn s.minute s.day u)

unfoldable pub spend_each : Limits → List Spending → Usage → Usage
spend_each limits [] u = u
spend_each limits (s ∷ spendings) u = spend_each limits spendings (spend_one limits s u)

request-tokens :
    (limits : Limits) (principal_urn : Text) (minute : ℕ) (u : Usage)
    → (check_and_increment_request limits principal_urn minute u).1.token_day ≡ u.token_day
unfolding check_and_increment_request
request-tokens limits principal_urn minute u =
    let n = (add_to (record { owner = principal_urn; start = minute }) 1 u.request_window).0 in
    elim (Bool-cases (limits.rpm_limit == 0)) [
      | inl off ↦ rw off refl
      | inr set ↦ elim (Bool-cases (ltb limits.rpm_limit n)) [
        | inl late ↦ rw (set, late) refl
        | inr in_time ↦ rw (set, in_time) refl
      ]
    ]

-- What the check of the quota says: nothing is written, and it returns only below the quota.
abbrev Checked : Limits → Slot → Usage → Outcome SpendLimitExceeded (Unit {0}) × Usage → Type 0
Checked limits k u (returned x, after) = (after ≡ u) × (tokens k u < limits.daily_token_quota)
Checked limits k u (raised e, after) = after ≡ u

quota-Checked :
    (limits : Limits) (tenant_id : Text) (day : ℕ) (u : Usage)
    → limits.daily_token_quota ≢ 0
    → Checked limits
        (record { owner = tenant_id; start = day })
        u
        (check_daily_token_quota limits tenant_id day u)
unfolding check_daily_token_quota
quota-Checked limits tenant_id day u on = elim (Bool-cases (limits.daily_token_quota == 0)) [
  | inl off ↦ absurd (ground (arith, on, off, ==_iff limits.daily_token_quota 0))
  | inr set ↦
      elim (Option-cases (get same_slot (record { owner = tenant_id; start = day }) u.token_day)) [
        | inl e ↦ rw (set, e) (refl, ground (arith, e, on))
        | inr (used, e) ↦ elim (Bool-cases (leb limits.daily_token_quota used)) [
          | inl spent ↦ rw (set, e, spent) refl
          | inr left ↦ rw (set, e, left) (refl, ground (arith, e, left))
        ]
      ]
]

record_tokens-tokens :
    (s : Spending) (k : Slot) (u : Usage)
    → tokens k (record_tokens s.tenant_id s.day s.amount u) ≡ (
        if same_slot (record { owner = s.tenant_id; start = s.day }) k
        then tokens k u + s.amount
        else tokens k u)
unfolding record_tokens
record_tokens-tokens s k u = elim (Bool-cases (s.amount == 0)) [
  | inl zero_ ↦ rw zero_ (ground (arith, zero_))
  | inr some_ ↦
      rw some_ (add_to-count (record { owner = s.tenant_id; start = s.day }) k s.amount u.token_day)
]

settled :
    (limits : Limits) (s : Spending) (k : Slot) (u : Usage)
    (x : Outcome SpendLimitExceeded (Unit {0}) × Usage) (m : ℕ)
    → Checked limits (record { owner = s.tenant_id; start = s.day }) u x
    → s.amount ≤ m
    → tokens k u ≤ limits.daily_token_quota - 1 + m
    → tokens k (settle s x) ≤ limits.daily_token_quota - 1 + m
unfolding settle
settled limits s k u (raised e, after) m h small before = rw h before
settled limits s k u (returned v, after) m h small before = ground (
  arith,
  h,
  record_tokens-tokens s k after,
  same_slot_iff (record { owner = s.tenant_id; start = s.day }) k,
)

enforced :
    (limits : Limits) (s : Spending) (k : Slot) (u : Usage)
    (x : Outcome SpendLimitExceeded (Unit {0}) × Usage) (m : ℕ)
    → limits.daily_token_quota ≢ 0
    → x.1.token_day ≡ u.token_day
    → s.amount ≤ m
    → tokens k u ≤ limits.daily_token_quota - 1 + m
    → tokens k (settle s (((λ w. x) >>= λ v. check_daily_token_quota limits s.tenant_id s.day) u))
      ≤ limits.daily_token_quota - 1 + m
unfolding settle
enforced limits s k u (raised e, after) m on same small before =
    ground (arith, before, ap (λ rows. count (get same_slot k rows)) same)
enforced limits s k u (returned v, after) m on same small before =
    settled limits s k after (check_daily_token_quota limits s.tenant_id s.day after) m
      (quota-Checked limits s.tenant_id s.day after on) small
      (ground (arith, before, ap (λ rows. count (get same_slot k rows)) same))

spend_one-bound :
    (limits : Limits) (s : Spending) (k : Slot) (u : Usage) (m : ℕ)
    → limits.daily_token_quota ≢ 0
    → s.amount ≤ m
    → tokens k u ≤ limits.daily_token_quota - 1 + m
    → tokens k (spend_one limits s u) ≤ limits.daily_token_quota - 1 + m
unfolding spend_one enforce_before_spend
spend_one-bound limits s k u m on small before =
    enforced limits s k u (check_and_increment_request limits s.principal_urn s.minute u) m on
      (request-tokens limits s.principal_urn s.minute u) small before

-- If no call spends more than m tokens and the tokens of a tenant on a day are at most m - 1 above
-- the quota, they stay so over any sequence of calls by any tenants, one after the other: the quota
-- is exceeded by less than one call.
pub spend_each-bound :
    (limits : Limits) (spendings : List Spending) (k : Slot) (u : Usage) (m : ℕ)
    → limits.daily_token_quota ≢ 0
    → All (λ s. s.amount ≤ m) spendings
    → tokens k u ≤ limits.daily_token_quota - 1 + m
    → tokens k (spend_each limits spendings u) ≤ limits.daily_token_quota - 1 + m
unfolding spend_each
spend_each-bound limits [] k u m on small before = before
spend_each-bound limits (s ∷ spendings) k u m on small before =
    spend_each-bound limits spendings k (spend_one limits s u) m on small.1
      (spend_one-bound limits s k u m on small.0 before)
