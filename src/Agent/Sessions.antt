-- ===== src/Agent/Sessions.antt =====
-- services/intelligence/app/agent_runtime.py: `create_session`, `_finish_session` and
-- `sweep_expired_sessions`.
use holon.Prelude.{
  ℕ, zero, suc, ◌+◌, min, max, Bool, true, false, ◌&&◌, Option, none, some, List, [], ◌∷◌, ◌++◌,
  ltb, if◌then◌else◌,
}
use holon.Prelude.Text.{Text}
use holon.Agent.{
  ℤ, pos, negsuc, SessionStatus, running, completed, aborted, Budget, Consumed, Session, Rows,
}

-- A value of the request's budget: absent, an integer, or one that `int` refuses.
pub data Given : Type 0 where
  absent : Given
  integer : ℤ → Given
  unreadable : Given

pub record BudgetRequest : Type 0 where
  pub iterations_wanted : Given
  pub tool_calls_wanted : Given
  pub tokens_wanted : Given

-- `min(int({**DEFAULT_BUDGET, **budget}[key]), ceiling)`, where `none` is the ValueError
unfoldable pub capped : ℕ → ℕ → Given → Option ℤ
capped default ceiling absent = some (pos (min default ceiling))
capped default ceiling (integer (pos n)) = some (pos (min n ceiling))
capped default ceiling (integer (negsuc n)) = some (negsuc n)
capped default ceiling unreadable = none

unfoldable pub budget_from : Option ℤ → Option ℤ → Option ℤ → Option Budget
budget_from (some i) (some c) (some t) =
    some (record { max_iterations = i; max_tool_calls = c; max_tokens = t })
budget_from (some i) (some c) none = none
budget_from (some i) none t = none
budget_from none c t = none

-- DEFAULT_BUDGET and HARD_BUDGET_CAPS
unfoldable pub full_budget : BudgetRequest → Option Budget
unfolding budget_from capped
full_budget wanted =
    budget_from (capped 10 20 wanted.iterations_wanted) (capped 25 50 wanted.tool_calls_wanted)
      (capped 50_000 100_000 wanted.tokens_wanted)

abbrev pub ttl_or_default : Option ℕ → ℕ
ttl_or_default none = 900
ttl_or_default (some zero) = 900
ttl_or_default (some (suc n)) = suc n

-- The arguments of `create_session` that decide something.
pub record SessionRequest : Type 0 where
  pub wanted : BudgetRequest
  pub ttl_seconds : Option ℕ
  pub depth : ℕ
  pub is_chained : Bool
  pub depth_limit : ℕ
  pub tools : Option (List Text)

-- UPDATE agent_session SET … WHERE urn = …
abbrev pub update_session : (Session → Session) → Option Session → Option Session
update_session f none = none
update_session f (some s) = some (f s)

abbrev pub is_running : SessionStatus → Bool
is_running running = true
is_running completed = false
is_running aborted = false

module _ {J : Type 0} where
  abbrev pub started : SessionRequest → ℕ → Option Budget → Option (Rows J)
  started q now none = none
  started q now (some b) = some (record {
    session = some (record {
      status = running;
      budget = b;
      consumed = record { iterations = 0; tool_calls = 0; tokens = 0 };
      expires_at = now + ttl_or_default q.ttl_seconds;
      chain_trigger = q.is_chained;
      causation_depth = q.depth;
      max_chain_depth = min (max 1 q.depth_limit) 10;
      allowed_tools = q.tools;
    });
    turns = [];
    events = [];
    invoked = [];
    now = now;
  })

  -- The rows of the new session, where `none` is a ValueError that writes nothing
  unfoldable pub create_session : SessionRequest → ℕ → Option (Rows J)
  unfolding full_budget
  create_session q now =
      if q.is_chained && ltb (min (max 1 q.depth_limit) 10) q.depth
      then none
      else started q now (full_budget q.wanted)

  unfoldable pub finish_session : SessionStatus → Consumed → Rows J → Rows J
  finish_session status consumed rows = record rows {
    session = update_session (λ s. record s { status = status; consumed = consumed }) rows.session;
    events = rows.events ++ (record { final_status = status; calls = consumed.tool_calls } ∷ []);
  }

  unfoldable pub sweep_expired_sessions : Rows J → Rows J
  sweep_expired_sessions rows = record rows {
    session =
        update_session
          (λ s.
            if is_running s.status && ltb s.expires_at rows.now
            then record s { status = aborted }
            else s)
          rows.session;
  }
