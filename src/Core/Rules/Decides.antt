-- ===== src/Core/Rules/Decides.antt =====
-- `validate_rules` decides which states and actions satisfy a ruleset.
use pcag.Base.{
  nil_of_append, ℕ, ◌+◌, ◌≡◌, ◌↔◌, ◌⊎◌, inl, inr, refl, Bool, true, false, Option, none, some, List,
  [], ◌∷◌, ◌++◌, arith, Bool-cases,
}
use pcag.Core.Json.{Json, Items, Arith, null, bool, num, str, arr, obj, nil, cons, lookup}
use pcag.Core.Rules.{
  action_field, if_missing, is_forbidden, sensor, action, RuleType, forbidden_combination, Rule,
  Source, RuleViolation, has_conditions, look, join, look_action, look_params, look_actions,
  check_rule, validate_rules,
}
use pcag.Core.Rules.Verdicts.{
  AllComply, Present, source_iff, dicts_of, params_of, all_dicts, Satisfied, AllSatisfied,
}

module _ {F : Type 0} (ops : Arith F) where
  AllComply-append :
      (r : Rule F) (ds es : List (Json F))
      → AllComply ops r (ds ++ es) ↔ (AllComply ops r ds × AllComply ops r es)
  AllComply-append r [] es = ((λ h. (tt, h)), (λ h. h.1))
  AllComply-append r (d ∷ ds) es = (
    (λ h. let (a, b) = (AllComply-append r ds es).0 h.1 in ((h.0, a), b)),
    (λ h. (h.0.0, (AllComply-append r ds es).1 (h.0.1, h.1))),
  )

  Present-append :
      (r : Rule F) (ds es : List (Json F))
      → Present ops r (ds ++ es) ↔ (Present ops r ds ⊎ Present ops r es)
  Present-append r [] es = ((λ h. inr h), elim [ inl h ↦ absurd h | inr h ↦ h ])
  Present-append r (d ∷ ds) es =
      (ground (arith, (Present-append r ds es).0), ground (arith, (Present-append r ds es).1))

  -- What the loop over some sources finds out about them.
  -- A source adds no violation exactly if it complies, and then counts as found if it has the
  -- field, or is exempt.
  abbrev Finds : Rule F → List (Json F) → List RuleViolation × Bool → Type 0
  Finds r ds (vs, found) =
      ((vs ≡ []) ↔ AllComply ops r ds)
      × (vs ≡ [] → found ≡ true → Present ops r ds ⊎ (has_conditions ops r ≡ true))
      × (Present ops r ds → found ≡ true)

  none-Finds : (r : Rule F) → Finds r [] ([], false)
  none-Finds r = (((λ h. tt), (λ h. refl)), (λ e f. cc), (λ h. absurd h))

  join-Finds :
      (r : Rule F) (ds es : List (Json F)) (x y : List RuleViolation × Bool)
      → Finds r ds x
      → Finds r es y
      → Finds r (ds ++ es) (join ops x y)
  join-Finds r ds es (vs, a) (ws, b) f g = (
    (
      (λ h. let (p, q) = nil_of_append vs ws h in (AllComply-append r ds es).1 (f.0.0 p, g.0.0 q)),
      (λ h. let (p, q) = (AllComply-append r ds es).0 h in rw (f.0.1 p) (g.0.1 q)),
    ),
    (λ h k.
        let (p, q) = nil_of_append vs ws h in
        ground (arith, f.1 p, g.1 q, (Present-append r ds es).1)),
    (λ h. ground (arith, (Present-append r ds es).0 h, f.2, g.2)),
  )

  look-Finds :
      (r : Rule F) (s : Source) (d : Json F) (exempt : Bool)
      → (exempt ≡ true → has_conditions ops r ≡ true)
      → Finds r (d ∷ []) (look ops r s d exempt)
  look-Finds r s d exempt e = (
    ((λ h. ((source_iff ops r s d).0 h, tt)), (λ h. (source_iff ops r s d).1 h.0)),
    (λ h k. ground (arith, e)),
    (λ h. ground arith),
  )

  look_params-Finds :
      (r : Rule F) (idx : ℕ) (p : Option (Json F))
      → Finds r (params_of ops p) (look_params ops r idx p)
  look_params-Finds r idx none = none-Finds r
  look_params-Finds r idx (some (obj fs)) = look-Finds r (action idx) (obj fs) _ (λ h. h)
  look_params-Finds r idx (some null) = none-Finds r
  look_params-Finds r idx (some (bool b)) = none-Finds r
  look_params-Finds r idx (some (num n)) = none-Finds r
  look_params-Finds r idx (some (str s)) = none-Finds r
  look_params-Finds r idx (some (arr xs)) = none-Finds r

  look_action-Finds :
      (r : Rule F) (idx : ℕ) (a : Json F) → Finds r (dicts_of ops a) (look_action ops r idx a)
  look_action-Finds r idx (obj fs) =
      join-Finds r (params_of ops (lookup "params" fs)) (obj fs ∷ []) _ _
        (look_params-Finds r idx (lookup "params" fs))
        (look-Finds r (action_field idx) (obj fs) false (λ h. cc))
  look_action-Finds r idx null = none-Finds r
  look_action-Finds r idx (bool b) = none-Finds r
  look_action-Finds r idx (num n) = none-Finds r
  look_action-Finds r idx (str s) = none-Finds r
  look_action-Finds r idx (arr xs) = none-Finds r

  look_actions-Finds :
      (r : Rule F) (idx : ℕ) (as' : Items F)
      → Finds r (all_dicts ops as') (look_actions ops r idx as')
  unfolding look_actions
  look_actions-Finds r idx nil = none-Finds r
  look_actions-Finds r idx (cons a as') =
      join-Finds r (dicts_of ops a) (all_dicts ops as') _ _ (look_action-Finds r idx a)
        (look_actions-Finds r (idx + 1) as')

  is_forbidden_iff : (t : RuleType) → (is_forbidden ops t ≡ true) ↔ (t ≡ forbidden_combination)
  is_forbidden_iff t = (ground arith, ground arith)

  conditions-forbidden : (r : Rule F) → has_conditions ops r ≡ true → r.type ≡ forbidden_combination
  conditions-forbidden r h = (is_forbidden_iff r.type).0 (ground arith)

  if_missing-Finds :
      (r : Rule F) (ds : List (Json F)) (x : List RuleViolation × Bool)
      → Finds r ds x
      → (if_missing ops r x ≡ [])
        ↔ (AllComply ops r ds × (Present ops r ds ⊎ (r.type ≡ forbidden_combination)))
  if_missing-Finds r ds (vs, true) f = (
    (λ h. (f.0.0 h, elim (f.1 h refl) [ inl p ↦ inl p | inr c ↦ inr (conditions-forbidden r c) ])),
    (λ h. f.0.1 h.0),
  )
  if_missing-Finds r ds (vs, false) f = elim (Bool-cases (is_forbidden ops r.type)) [
    | inl e ↦ rw e ((λ h. (f.0.0 h, inr ((is_forbidden_iff r.type).0 e))), (λ h. f.0.1 h.0))
    | inr e ↦ rw e (
      (λ h. cc (nil_of_append vs _ h).1),
      (λ h. elim h.1 [ inl p ↦ cc (f.2 p) | inr t ↦ cc (e, (is_forbidden_iff r.type).1 t) ]),
    )
  ]

  check_rule_iff :
      (r : Rule F) (snapshot : Json F) (actions : Items F)
      → (check_rule ops r snapshot actions ≡ []) ↔ Satisfied ops r snapshot actions
  unfolding check_rule
  check_rule_iff r snapshot actions = if_missing-Finds r (snapshot ∷ all_dicts ops actions) _ (
      join-Finds r (snapshot ∷ []) (all_dicts ops actions) _ _
        (look-Finds r sensor snapshot _ (λ h. h)) (look_actions-Finds r 0 actions))

  -- `validate_rules` answers SAFE exactly if every rule is satisfied: the sensors, each action's
  -- parameters and each action itself comply with it, and some of them has the rule's field unless
  -- the rule forbids a combination.
  pub validate_rules_iff :
      (snapshot : Json F) (actions : Items F) (rules : List (Rule F))
      → (validate_rules ops snapshot actions rules ≡ []) ↔ AllSatisfied ops rules snapshot actions
  unfolding validate_rules
  validate_rules_iff snapshot actions [] = ((λ h. tt), (λ h. refl))
  validate_rules_iff snapshot actions (r ∷ rs) = (
    (λ h.
        let (p, q) = nil_of_append _ _ h in
        ((check_rule_iff r snapshot actions).0 p, (validate_rules_iff snapshot actions rs).0 q)),
    (λ h.
        rw ((check_rule_iff r snapshot actions).1 h.0)
          ((validate_rules_iff snapshot actions rs).1 h.1)),
  )
