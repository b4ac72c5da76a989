-- ===== src/Actions/Criteria/Formula.antt =====
-- declarative_criteria.py: the criteria as a Boolean formula over their leaves.
use holon.Prelude.{◌≡◌, refl, Bool, true, false, ◌&&◌, ◌||◌, Option, none, some, String, arith}
use holon.Prelude.Text.{Text}
use holon.Prelude.Exec.{Outcome, returned, raised}
use holon.Actions.Json.{Value, Fields}
use holon.Actions.Criteria.{
  Python, Criterion, all, any, principal, property, Criteria, end, also, Message, Fault, type_error,
  key_error, operate, verdict, get, check_principal, failing, all_next, any_next,
  evaluate_one_criterion, evaluate_criteria, evaluate_any,
}

-- A test that raises counts as failed.
abbrev pub succeeds : Outcome Fault Bool → Bool
succeeds (returned b) = b
succeeds (raised f) = false

-- The evaluation returned, and the message is None exactly if `holds`.
abbrev pub Decides : Bool → Outcome Fault (Option Message) → Type 0
Decides holds (returned none) = holds ≡ true
Decides holds (returned (some m)) = holds ≡ false
Decides holds (raised f) = ⊥

abbrev pub is_key_error : Outcome Fault Bool → Bool
is_key_error (returned b) = false
is_key_error (raised type_error) = false
is_key_error (raised key_error) = true

module _ (py : Python) (who : Option (Text → Value)) (instance_row : Fields) where
  abbrev pub principal_passes : Text → String → Value → Option (Text → Value) → Bool
  principal_passes field operator expected none = false
  principal_passes field operator expected (some attribute) =
      succeeds (operate py operator (attribute field) expected)

  unfoldable mutual
    -- The criterion read as a formula, without messages and without an order of evaluation.
    pub satisfies : Criterion → Bool
    satisfies (all own children) = satisfies_all children
    satisfies (any own children) = satisfies_any children
    satisfies (principal own field operator expected) = principal_passes field operator expected who
    satisfies (property own name operator expected) =
        succeeds (operate py operator (get name instance_row) expected)

    pub satisfies_all : Criteria → Bool
    satisfies_all end = true
    satisfies_all (also c children) = satisfies c && satisfies_all children

    pub satisfies_any : Criteria → Bool
    satisfies_any end = false
    satisfies_any (also c children) = satisfies c || satisfies_any children

  unfoldable mutual
    -- No criterion on a property has an operator outside `_OPERATORS`.
    pub IsKnown : Criterion → Type 0
    IsKnown (all own children) = AllKnown children
    IsKnown (any own children) = AllKnown children
    IsKnown (principal own field operator expected) = Unit
    IsKnown (property own name operator expected) =
        is_key_error (operate py operator (get name instance_row) expected) ≡ false

    pub AllKnown : Criteria → Type 0
    AllKnown end = Unit
    AllKnown (also c children) = IsKnown c × AllKnown children

  verdict-Decides :
      (catches : Bool) (own : Option Text) (m : Message) (r : Outcome Fault Bool)
      → (catches ≡ false → is_key_error r ≡ false)
      → Decides (succeeds r) (verdict catches own m r)
  unfolding verdict
  verdict-Decides catches own m (returned true) h = refl
  verdict-Decides catches own m (returned false) h = refl
  verdict-Decides catches own m (raised type_error) h = refl
  verdict-Decides true own m (raised key_error) h = refl
  verdict-Decides false own m (raised key_error) h = ground (arith, h refl)

  check_principal-Decides :
      (own : Option Text) (field : Text) (operator : String) (expected : Value)
      (w : Option (Text → Value))
      → Decides
          (principal_passes field operator expected w)
          (check_principal py own field operator expected w)
  unfolding check_principal
  check_principal-Decides own field operator expected none = refl
  check_principal-Decides own field operator expected (some attribute) =
      verdict-Decides true own _ _ (λ e. ground (arith, e))

  failing-Decides :
      (own : Option Text) (b : Bool) (r : Outcome Fault (Option Message))
      → Decides b r
      → Decides b (failing own r)
  unfolding failing
  failing-Decides own b (returned none) h = h
  failing-Decides own b (returned (some m)) h = h
  failing-Decides own b (raised f) h = h

  all_next-Decides :
      (a b : Bool) (r s : Outcome Fault (Option Message))
      → Decides a r
      → Decides b s
      → Decides (a && b) (all_next r s)
  unfolding all_next
  all_next-Decides a b (returned none) s ha hb = rw ha hb
  all_next-Decides a b (returned (some m)) s ha hb = rw ha refl
  all_next-Decides a b (raised f) s ha hb = elim ha [ ]

  any_next-Decides :
      (first : Option Message) (a b : Bool) (r : Outcome Fault (Option Message))
      (rest : Option Message → Outcome Fault (Option Message))
      → Decides a r
      → ((e : Option Message) → Decides b (rest e))
      → Decides (a || b) (any_next first r rest)
  unfolding any_next
  any_next-Decides first a b (returned none) rest ha hb = rw ha refl
  any_next-Decides none a b (returned (some m)) rest ha hb = rw ha (hb (some m))
  any_next-Decides (some e) a b (returned (some m)) rest ha hb = rw ha (hb (some e))
  any_next-Decides first a b (raised f) rest ha hb = elim ha [ ]

  mutual
    unfolding satisfies IsKnown evaluate_one_criterion

    evaluate_one_criterion-Decides :
        (c : Criterion)
        → IsKnown c
        → Decides (satisfies c) (evaluate_one_criterion py who instance_row c)
    evaluate_one_criterion-Decides (all own children) k =
        failing-Decides own _ _ (evaluate_criteria-Decides children k)
    evaluate_one_criterion-Decides (any own children) k = evaluate_any-Decides own none children k
    evaluate_one_criterion-Decides (principal own field operator expected) k =
        check_principal-Decides own field operator expected who
    evaluate_one_criterion-Decides (property own name operator expected) k =
        verdict-Decides false own _ _ (λ e. k)

    evaluate_criteria-Decides :
        (cs : Criteria)
        → AllKnown cs
        → Decides (satisfies_all cs) (evaluate_criteria py who instance_row cs)
    evaluate_criteria-Decides end k = refl
    evaluate_criteria-Decides (also c cs) k =
        all_next-Decides _ _ _ _ (evaluate_one_criterion-Decides c k.0)
          (evaluate_criteria-Decides cs k.1)

    evaluate_any-Decides :
        (own : Option Text) (first : Option Message) (cs : Criteria)
        → AllKnown cs
        → Decides (satisfies_any cs) (evaluate_any py who instance_row own first cs)
    evaluate_any-Decides own first end k = refl
    evaluate_any-Decides own first (also c cs) k =
        any_next-Decides first _ _ _ _ (evaluate_one_criterion-Decides c k.0)
          (λ e. evaluate_any-Decides own e cs k.1)

  -- `_evaluate_criteria` finds no failure exactly if the formula of the criteria holds, a conjunction
  -- with nested `all` and `any` groups, where a leaf whose test raises a TypeError counts as
  -- failed; it never raises if every operator on a property is one of `_OPERATORS`.
  pub evaluate_criteria_lem :
      (cs : Criteria)
      → AllKnown cs
      → Decides (satisfies_all cs) (evaluate_criteria py who instance_row cs)
  evaluate_criteria_lem cs k = evaluate_criteria-Decides cs k
