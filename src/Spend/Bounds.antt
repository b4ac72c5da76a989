-- ===== src/Spend/Bounds.antt =====
-- spend_limits.py: how many requests pass, and how many tokens are spent, over any sequence of
-- requests.
use holon.Prelude.{
  ℕ, ◌+◌, ◌-◌, min, ◌≡◌, ◌≢◌, refl, List, [], ◌∷◌, arith, ◌==◌, ==_iff, ltb, if◌then◌else◌,
  Bool-cases, inl, inr,
}
use holon.Prelude.Text.{Text}
use holon.Prelude.Table.{Table, get, get-upsert}
use holon.Prelude.Exec.{Outcome, returned, raised}
use holon.Spend.{
  Limits, Slot, same_slot, same_slot_iff, Usage, SpendLimitExceeded, count, requests, add_to,
  check_and_increment_request,
}

abbrev passes : Outcome SpendLimitExceeded (Unit {0}) → ℕ
passes (returned u) = 1
passes (raised e) = 0

abbrev slot : Text × ℕ → Slot
slot p = record { owner = p.0; start = p.1 }

-- How many of the requests, of any principals in any minutes, were made for this slot, and how many
-- of these pass, one after the other.
abbrev pub made : Slot → List (Text × ℕ) → ℕ
made k [] = 0
made k (p ∷ ps) = (if same_slot (slot p) k then 1 else 0) + made k ps

abbrev pub admitted : Limits → Slot → List (Text × ℕ) → Usage → ℕ
admitted limits k [] u = 0
admitted limits k (p ∷ ps) u =
    let (r, after) = check_and_increment_request limits p.0 p.1 u in
    (if same_slot (slot p) k then passes r else 0) + admitted limits k ps after

pub add_to-count :
    (k j : Slot) (n : ℕ) (rows : Table Slot ℕ)
    → count (get same_slot j (add_to k n rows).1)
      ≡ (if same_slot k j then count (get same_slot j rows) + n else count (get same_slot j rows))
unfolding add_to
add_to-count k j n rows =
    let total = count (get same_slot k rows) + n in
    ground (arith, get-upsert same_slot same_slot_iff k j total rows, same_slot_iff k j)

add_to-total :
    (k : Slot) (n : ℕ) (rows : Table Slot ℕ)
    → (add_to k n rows).0 ≡ count (get same_slot k rows) + n
unfolding add_to
add_to-total k n rows = refl

-- One request: it passes if the count before it is below the limit, and it counts.
one_request :
    (limits : Limits) (k : Slot) (p : Text × ℕ) (u : Usage)
    → limits.rpm_limit ≢ 0
    → let (r, after) = check_and_increment_request limits p.0 p.1 u in
      (passes r ≡ (if ltb (requests (slot p) u) limits.rpm_limit then 1 else 0))
      × (requests k after ≡ (if same_slot (slot p) k then requests k u + 1 else requests k u))
unfolding check_and_increment_request
one_request limits k p u on =
    let before = requests (slot p) u in
    elim (Bool-cases (limits.rpm_limit == 0)) [
      | inl off ↦ absurd (ground (arith, on, off, ==_iff limits.rpm_limit 0))
      | inr set ↦ elim (Bool-cases (ltb limits.rpm_limit (add_to (slot p) 1 u.request_window).0)) [
        | inl late ↦
            rw (set, late)
              (
                ground (arith, late, add_to-total (slot p) 1 u.request_window),
                add_to-count (slot p) k 1 u.request_window,
              )
        | inr in_time ↦
            rw (set, in_time)
              (
                ground (arith, in_time, add_to-total (slot p) 1 u.request_window),
                add_to-count (slot p) k 1 u.request_window,
              )
      ]
    ]

-- With a limit, exactly as many requests of a principal pass in a minute as the limit leaves after
-- those already counted: the later ones are refused, and requests of other principals or in other
-- minutes in between make no difference.
pub admitted_lem :
    (limits : Limits) (k : Slot) (ps : List (Text × ℕ)) (u : Usage)
    → limits.rpm_limit ≢ 0
    → admitted limits k ps u ≡ min (made k ps) (limits.rpm_limit - requests k u)
admitted_lem limits k [] u on = ground (arith, on)
admitted_lem limits k (p ∷ ps) u on =
    let after = (check_and_increment_request limits p.0 p.1 u).1 in
    ground (
      arith,
      on,
      admitted_lem limits k ps after on,
      one_request limits k p u on,
      same_slot_iff (slot p) k,
    )
