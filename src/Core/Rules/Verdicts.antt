-- ===== src/Core/Rules/Verdicts.antt =====
-- Which states and actions satisfy a ruleset: an independent description, and that `validate_rules`
-- decides it.
use pcag.Base.{
  Option-cases, ◌≡◌, ◌↔◌, ◌⊎◌, inl, inr, refl, true, false, Option, none, some, List, [], ◌∷◌, ◌++◌,
  arith,
}
use pcag.Core.Json.{
  Number, Json, Items, Arith, num, obj, nil, cons, lookup, eq_json, get_nested_value,
}
use pcag.Core.Integrity.{is_null}
use pcag.Core.Rules.{
  breaks_as, Order, lt, gt, Operator, ordered, eq, ne, RuleType, threshold, range, enum,
  forbidden_combination, RuleCondition, Rule, Source, order, mismatches, contains, breaks_bound,
  any_pair, breaks, all_match, has_conditions, evaluate_source,
}

module _ {F : Type 0} (ops : Arith F) where
  -- A comparison that is defined and true.
  abbrev pub Holds : Json F → Operator → Json F → Type 0
  Holds a (ordered o) b = order ops o a b ≡ some true
  Holds a eq b = eq_json ops a b ≡ true
  Holds a ne b = eq_json ops a b ≡ false

  -- A comparison with the bound, if there is one, that is defined and false.
  abbrev pub Within : Order → Json F → Option (Number F) → Type 0
  Within o v none = Unit {0}
  Within o v (some m) = order ops o v (num m) ≡ some false

  abbrev pub Among : Json F → Items F → Type 0
  Among v nil = ⊥
  Among v (cons x xs) = (eq_json ops v x ≡ true) ⊎ Among v xs

  abbrev operator_of : Option Operator → Operator
  operator_of none = eq
  operator_of (some op) = op

  -- A value obeys a rule.
  abbrev pub ObeysAs : RuleType → Rule F → Json F → Type 0
  ObeysAs threshold r v = Holds v (operator_of r.operator) r.value
  ObeysAs range r v = Within lt v r.min × Within gt v r.max
  ObeysAs enum r v = Among v r.allowed_values
  ObeysAs forbidden_combination r v = any_pair ops v r.forbidden_pairs ≡ false

  abbrev pub AllMatch : List (RuleCondition F) → Json F → Type 0
  AllMatch [] d = Unit {0}
  AllMatch (c ∷ cs) d =
      (is_null (get_nested_value d c.field) ≡ false)
      × Holds (get_nested_value d c.field) c.operator c.value
      × AllMatch cs d

  -- A source complies with a rule: not all its conditions match, or the field, where the source has
  -- it, obeys.
  abbrev pub Complies : Rule F → Json F → Type 0
  Complies r d =
      (has_conditions ops r ≡ true → ¬ AllMatch r.conditions d)
      × (has_conditions ops r ≡ false
          → is_null (get_nested_value d r.target_field) ≡ false
          → ObeysAs r.type r (get_nested_value d r.target_field))

  -- The dictionaries of an action that a rule is applied to: its parameters, and itself.
  abbrev pub params_of : Option (Json F) → List (Json F)
  params_of (some (obj fs)) = obj fs ∷ []
  params_of _ = []

  abbrev pub dicts_of : Json F → List (Json F)
  dicts_of (obj fs) = params_of (lookup "params" fs) ++ obj fs ∷ []
  dicts_of _ = []

  abbrev pub all_dicts : Items F → List (Json F)
  all_dicts nil = []
  all_dicts (cons a as') = dicts_of a ++ all_dicts as'

  abbrev pub AllComply : Rule F → List (Json F) → Type 0
  AllComply r [] = Unit {0}
  AllComply r (d ∷ ds) = Complies r d × AllComply r ds

  -- Some source has the rule's field.
  abbrev pub Present : Rule F → List (Json F) → Type 0
  Present r [] = ⊥
  Present r (d ∷ ds) = (is_null (get_nested_value d r.target_field) ≡ false) ⊎ Present r ds

  abbrev pub Satisfied : Rule F → Json F → Items F → Type 0
  Satisfied r snapshot actions =
      AllComply r (snapshot ∷ all_dicts actions)
      × (Present r (snapshot ∷ all_dicts actions) ⊎ (r.type ≡ forbidden_combination))

  abbrev pub AllSatisfied : List (Rule F) → Json F → Items F → Type 0
  AllSatisfied [] snapshot actions = Unit {0}
  AllSatisfied (r ∷ rs) snapshot actions =
      Satisfied r snapshot actions × AllSatisfied rs snapshot actions

  mismatches_iff :
      (a : Json F) (op : Operator) (b : Json F) → (mismatches ops a op b ≡ false) ↔ Holds a op b
  mismatches_iff a (ordered o) b = (ground arith, ground arith)
  mismatches_iff a eq b = (ground arith, ground arith)
  mismatches_iff a ne b = ((λ h. h), (λ h. h))

  contains_iff : (v : Json F) (xs : Items F) → (contains ops v xs ≡ true) ↔ Among v xs
  unfolding contains
  contains_iff v nil = ((λ h. cc), (λ h. absurd h))
  contains_iff v (cons x xs) =
      (ground (arith, (contains_iff v xs).0), ground (arith, (contains_iff v xs).1))

  bound_iff :
      (o : Order) (v : Json F) (m : Option (Number F))
      → (breaks_bound ops o v m ≡ false) ↔ Within o v m
  bound_iff o v none = ((λ h. tt), (λ h. refl))
  bound_iff o v (some m) = (ground arith, ground arith)

  breaks_as_iff :
      (t : RuleType) (r : Rule F) (v : Json F) → (breaks_as ops t r v ≡ false) ↔ ObeysAs t r v
  breaks_as_iff threshold r v = elim (Option-cases r.operator) [
    | inl e ↦ rw e (mismatches_iff v eq r.value)
    | inr (op, e) ↦ rw e (mismatches_iff v op r.value)
  ]
  breaks_as_iff range r v = (
    ground (arith, (bound_iff lt v r.min).0, (bound_iff gt v r.max).0),
    ground (arith, (bound_iff lt v r.min).1, (bound_iff gt v r.max).1),
  )
  breaks_as_iff enum r v = (
    ground (arith, (contains_iff v r.allowed_values).0),
    ground (arith, (contains_iff v r.allowed_values).1),
  )
  breaks_as_iff forbidden_combination r v = ((λ h. h), (λ h. h))

  breaks_iff : (r : Rule F) (v : Json F) → (breaks ops r v ≡ false) ↔ ObeysAs r.type r v
  unfolding breaks
  breaks_iff r v = breaks_as_iff r.type r v

  all_match_iff :
      (cs : List (RuleCondition F)) (d : Json F) → (all_match ops cs d ≡ true) ↔ AllMatch cs d
  unfolding all_match
  all_match_iff [] d = ((λ h. tt), (λ h. refl))
  all_match_iff (c ∷ cs) d = (
    ground (
      arith,
      (all_match_iff cs d).0,
      (mismatches_iff (get_nested_value d c.field) c.operator c.value).0,
    ),
    ground (
      arith,
      (all_match_iff cs d).1,
      (mismatches_iff (get_nested_value d c.field) c.operator c.value).1,
    ),
  )

  pub source_iff :
      (r : Rule F) (s : Source) (d : Json F) → (evaluate_source ops r s d ≡ []) ↔ Complies r d
  unfolding evaluate_source
  source_iff r s d = (
    ground (
      arith,
      (all_match_iff r.conditions d).1,
      (breaks_iff r (get_nested_value d r.target_field)).0,
    ),
    ground (
      arith,
      (all_match_iff r.conditions d).0,
      (breaks_iff r (get_nested_value d r.target_field)).1,
    ),
  )
