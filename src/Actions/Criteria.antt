-- ===== src/Actions/Criteria.antt =====
-- services/knowledge/app/actions/declarative_criteria.py: `_OPERATORS`, `_evaluate_criteria` and
-- `_evaluate_one_criterion`. How Python compares two JSON values is a parameter.
pub mod Formula
use holon.Prelude.{
  ℕ, Bool, true, false, not, Option, none, some, String, List, [], ◌∷◌, str_eq, if◌then◌else◌,
}
use holon.Prelude.Text.{Text}
use holon.Prelude.Exec.{Outcome, returned, raised}
use holon.Actions.Json.{Value, null, text, scalar, object, Fields, find}

pub data Order : Type 0 where
  gt gte lt lte : Order

-- `==`, the truth value, the four order tests and `in` on JSON values, where `none` is a TypeError.
pub record Python : Type 0 where
  pub truthy : Value → Bool
  pub equal : Value → Value → Bool
  pub ordered : Order → Value → Value → Option Bool
  pub contained : Value → Value → Option Bool

mutual
  -- The optional text of each is its `message`.
  pub data Criterion : Type 0 where
    all any : Option Text → Criteria → Criterion
    principal property : Option Text → Text → String → Value → Criterion

  pub data Criteria : Type 0 where
    end : Criteria
    also : Criterion → Criteria → Criteria

pub data Message : Type 0 where
  custom : Text → Message
  any_failed principal_unavailable : Message
  principal_failed property_failed : Text → String → Value → Value → Message

pub data Fault : Type 0 where
  type_error key_error : Fault

abbrev pub is_null : Value → Bool
is_null null = true
is_null (text t) = false
is_null (scalar t) = false
is_null (object fields) = false

abbrev or_type_error : Option Bool → Outcome Fault Bool
or_type_error none = raised type_error
or_type_error (some b) = returned b

-- `custom or default`
abbrev pub message : Option Text → Message → Message
message none m = m
message (some []) m = m
message (some (c ∷ s)) m = custom (c ∷ s)

-- What a leaf makes of its test. A criterion on the principal takes a KeyError for a failure, one
-- on a property does not catch it.
verdict : Bool → Option Text → Message → Outcome Fault Bool → Outcome Fault (Option Message)
verdict catches own m (returned true) = returned none
verdict catches own m (returned false) = returned (some (message own m))
verdict catches own m (raised type_error) = returned (some (message own m))
verdict catches own m (raised key_error) =
    if catches then returned (some (message own m)) else raised key_error

abbrev pub get : Text → Fields → Value
get key fields = elim (find key fields) [ none ↦ null | some v ↦ v ]

-- `custom or err`, of the first child that failed
failing : Option Text → Outcome Fault (Option Message) → Outcome Fault (Option Message)
failing own (returned none) = returned none
failing own (returned (some m)) = returned (some (message own m))
failing own (raised f) = raised f

-- `errors[0] if errors else …`
abbrev first_error : Option Message → Message
first_error none = any_failed
first_error (some m) = m

-- The loops go on with the remaining children, once a child's outcome is there.
all_next :
    Outcome Fault (Option Message) → Outcome Fault (Option Message) → Outcome Fault (Option Message)
all_next (returned none) rest = rest
all_next (returned (some m)) rest = returned (some m)
all_next (raised f) rest = raised f

any_next :
    Option Message
    → Outcome Fault (Option Message)
    → (Option Message → Outcome Fault (Option Message))
    → Outcome Fault (Option Message)
any_next first (returned none) rest = returned none
any_next none (returned (some m)) rest = rest (some m)
any_next (some e) (returned (some m)) rest = rest (some e)
any_next first (raised f) rest = raised f

module _ (py : Python) where
  -- `actual is not None and actual > expected`, and so on
  abbrev guarded : Order → Value → Value → Outcome Fault Bool
  guarded order actual expected =
      if is_null actual then returned false else or_type_error (py.ordered order actual expected)

  -- `_OPERATORS[operator](actual, expected)`; nothing is in `expected or []` for a falsy value.
  unfoldable pub operate : String → Value → Value → Outcome Fault Bool
  operate operator actual expected =
      if str_eq operator "eq"
      then returned (py.equal actual expected)
      else if str_eq operator "neq"
      then returned (not (py.equal actual expected))
      else if str_eq operator "gt"
      then guarded gt actual expected
      else if str_eq operator "gte"
      then guarded gte actual expected
      else if str_eq operator "lt"
      then guarded lt actual expected
      else if str_eq operator "lte"
      then guarded lte actual expected
      else if str_eq operator "in"
      then (if py.truthy expected
          then or_type_error (py.contained actual expected)
          else returned false)
      else raised key_error

  check_principal :
      Option Text → Text → String → Value → Option (Text → Value) → Outcome Fault (Option Message)
  unfolding verdict
  check_principal own field operator expected none =
      returned (some (message own principal_unavailable))
  check_principal own field operator expected (some attribute) =
      verdict true own (principal_failed field operator expected (attribute field))
        (operate operator (attribute field) expected)

  module _ (who : Option (Text → Value)) (instance_row : Fields) where
    unfoldable mutual
      unfolding verdict check_principal failing all_next any_next

      pub evaluate_one_criterion : Criterion → Outcome Fault (Option Message)
      evaluate_one_criterion (all own children) = failing own (evaluate_criteria children)
      evaluate_one_criterion (any own children) = evaluate_any own none children
      evaluate_one_criterion (principal own field operator expected) =
          check_principal own field operator expected who
      evaluate_one_criterion (property own name operator expected) =
          let actual = get name instance_row in
          verdict false own (property_failed name operator expected actual)
            (operate operator actual expected)

      -- `_evaluate_criteria`, which is also the loop of an `all`
      pub evaluate_criteria : Criteria → Outcome Fault (Option Message)
      evaluate_criteria end = returned none
      evaluate_criteria (also c children) =
          all_next (evaluate_one_criterion c) (evaluate_criteria children)

      -- The loop of an `any`, with its first error so far
      pub evaluate_any : Option Text → Option Message → Criteria → Outcome Fault (Option Message)
      evaluate_any own first end = returned (some (message own (first_error first)))
      evaluate_any own first (also c children) =
          any_next first (evaluate_one_criterion c) (λ e. evaluate_any own e children)
