-- ===== src/Spend/Examples.antt =====
-- A limit of two requests in a minute and ten tokens in a day.
use holon.Prelude.{ℕ, ◌+◌, ◌-◌, ◌≤◌, min, ◌≡◌, List, [], ◌∷◌, arith}
use holon.Prelude.Text.{Text, codes}
use holon.Prelude.Table
use holon.Spend.{Limits, Slot, Usage, requests, tokens}
use holon.Spend.Bounds.{made, admitted, admitted_lem}
use holon.Spend.Quota.{Spending, spend_each, spend_each-bound}

abbrev limits : Limits
limits = record { rpm_limit = 2; daily_token_quota = 10 }

abbrev jane : Slot
jane = record { owner = codes "jane"; start = 5 }

abbrev asked : List (Text × ℕ)
asked = (codes "jane", 5) ∷ (codes "bob", 5) ∷ (codes "jane", 5) ∷ (codes "jane", 5) ∷ []

abbrev nothing : Usage
nothing = record { request_window = []; token_day = [] }

admitted_lem_example :
    admitted limits jane asked nothing ≡ min (made jane asked) (2 - requests jane nothing)
admitted_lem_example = admitted_lem limits jane asked nothing (omega arith)

abbrev big : Spending
big = record {
  tenant_id = codes "acme";
  principal_urn = codes "jane";
  minute = 5;
  day = 1;
  amount = 9;
}

abbrev acme_day : Slot
acme_day = record { owner = codes "acme"; start = 1 }

spend_each-bound_example :
    tokens acme_day (spend_each limits (big ∷ big ∷ big ∷ []) nothing) ≤ 10 - 1 + 9
unfolding Table.get
spend_each-bound_example =
    spend_each-bound limits (big ∷ big ∷ big ∷ []) acme_day nothing 9 (omega arith)
      (omega arith, (omega arith, (omega arith, tt))) (omega arith)
