-- ===== src/Reactor/Bounds.antt =====
-- The rules as intervals, the states that a simulation goes through, and what a SAFE verdict says.
use pcag.Reactor.{
  first_broken, check_min, check_rule, Broken, check_constraints, check_range, between, beyond,
  broken, check_threshold, check_lower, optional_float, check_upper, present, text_or,
  check_operator, field_value, is_text, is_upper, Values, is_lower, Numerics,
}
use pcag.Base.{
  bound, step_of, subst, ◌>>=◌, ◌≡◌, inl, inr, refl, sym, ap, arith, str_eq, String, Bool, true,
  false, Option, none, some, List, [], ◌∷◌, ◌∙◌, eq_iff, if◌then◌else◌, Bool-cases,
}
use pcag.Core.Json.{Json, Number, Fields, Arith, lookup}

module _ {F : Type 0} (ops : Arith F) (numerics : Numerics F) where
  abbrev pub AtLeast : Option (Number F) → Number F → Type 0
  AtLeast none v = Unit {0}
  AtLeast (some low) v = ops.ltb v low ≡ false

  abbrev pub AtMost : Option (Number F) → Number F → Type 0
  AtMost none v = Unit {0}
  AtMost (some high) v = ops.ltb high v ≡ false

  abbrev pub bound_if : Bool → Option (Json F) → Option (Number F)
  bound_if true (some l) = numerics.float_of l
  bound_if _ _ = none

  -- The operators that bound a field from above, and from below.
  abbrev pub is_upper_text : Option String → Bool
  is_upper_text (some op) = if str_eq op "lt" then true else str_eq op "lte"
  is_upper_text none = false

  abbrev pub is_lower_text : Option String → Bool
  is_lower_text (some op) = if str_eq op "gt" then true else str_eq op "gte"
  is_lower_text none = false

  is_upper-text : (op : String) → is_upper op ≡ is_upper_text (some op)
  is_upper-text op = ground arith

  is_lower-text : (op : String) → is_lower op ≡ is_lower_text (some op)
  is_lower-text op = ground arith

  abbrev pub operator_of : Fields F → Option String
  operator_of rule = text_or "lte" (lookup "operator" rule)

  -- The interval of a rule: a threshold bounds one side, a range both.
  abbrev pub upper_bound : Fields F → Option (Number F)
  upper_bound rule =
      if is_text (lookup "type" rule) "threshold"
      then bound_if (is_upper_text (operator_of rule)) (present (lookup "value" rule))
      else bound_if (is_text (lookup "type" rule) "range") (present (lookup "max" rule))

  abbrev pub lower_bound : Fields F → Option (Number F)
  lower_bound rule =
      if is_text (lookup "type" rule) "threshold"
      then bound_if (is_lower_text (operator_of rule)) (present (lookup "value" rule))
      else bound_if (is_text (lookup "type" rule) "range") (present (lookup "min" rule))

  abbrev pub Inside : Fields F → Option (Number F) → Type 0
  Inside rule none = Unit {0}
  Inside rule (some v) = AtLeast (lower_bound rule) v × AtMost (upper_bound rule) v

  abbrev pub target_of : Fields F → Option String
  target_of rule = text_or "" (lookup "target_field" rule)

  -- Each rule on a field of the state has the field in its interval.
  abbrev pub Within : Values F → List (Fields F) → Type 0
  Within v [] = Unit {0}
  Within v (rule ∷ rules) = Inside rule (target_of rule >>= λ t. field_value v t) × Within v rules

  upper-not-lower : (op : String) → is_upper op ≡ true → is_lower op ≡ false
  upper-not-lower op h = ground (
    arith,
    eq_iff op "lte",
    eq_iff op "lt",
    eq_iff op "gte",
    eq_iff op "gt",
    eq_iff "lte" "gte",
    eq_iff "lte" "gt",
    eq_iff "lt" "gte",
    eq_iff "lt" "gt",
    h,
  )

  AtMost-some :
      (l : Json F) (v x : Number F)
      → numerics.float_of l ≡ some x
      → ops.ltb x v ≡ false
      → AtMost (numerics.float_of l) v
  AtMost-some l v x e h = subst (λ (o : Option (Number F)). AtMost o v) (sym e) h

  AtLeast-some :
      (l : Json F) (v x : Number F)
      → numerics.float_of l ≡ some x
      → ops.ltb v x ≡ false
      → AtLeast (numerics.float_of l) v
  AtLeast-some l v x e h = subst (λ (o : Option (Number F)). AtLeast o v) (sym e) h

  not_found : {A : Type 0} (b : Bool) (a : A) → (if b then some a else none) ≡ none → b ≡ false
  not_found true a h = cc
  not_found false a h = refl

  none-Inside :
      (v : Number F) (b c : Bool) → AtLeast (bound_if b none) v × AtMost (bound_if c none) v
  none-Inside v true true = (tt, tt)
  none-Inside v true false = (tt, tt)
  none-Inside v false true = (tt, tt)
  none-Inside v false false = (tt, tt)

  none_false :
      (v : Number F) (low high : Option (Json F))
      → AtLeast (bound_if false low) v × AtMost (bound_if false high) v
  none_false v none none = (tt, tt)
  none_false v none (some h) = (tt, tt)
  none_false v (some l) none = (tt, tt)
  none_false v (some l) (some h) = (tt, tt)

  upper-Inside :
      (rule : Fields F) (v : Number F) (l : Json F)
      → (numerics.float_of l >>= λ x. some (check_upper ops numerics rule v x)) ≡ some none
      → AtMost (numerics.float_of l) v
  upper-Inside rule v l h =
      let (x, e, k) = bound (numerics.float_of l) (check_upper ops numerics rule v) none h in
      AtMost-some l v x e (not_found _ _ k)

  lower-Inside :
      (rule : Fields F) (v : Number F) (l : Json F)
      → (numerics.float_of l >>= λ x. some (check_lower ops numerics rule v x)) ≡ some none
      → AtLeast (numerics.float_of l) v
  lower-Inside rule v l h =
      let (x, e, k) = bound (numerics.float_of l) (check_lower ops numerics rule v) none h in
      AtLeast-some l v x e (not_found _ _ k)

  operator-Inside :
      (rule : Fields F) (v : Number F) (l : Json F) (op : String)
      → check_operator ops numerics rule v l op ≡ some none
      → AtLeast (bound_if (is_lower op) (some l)) v × AtMost (bound_if (is_upper op) (some l)) v
  operator-Inside rule v l op h = elim (Bool-cases (is_upper op)) [
    | inl u ↦ let k = rw u at h in rw (u, upper-not-lower op u) (tt, upper-Inside rule v l k)
    | inr u ↦ elim (Bool-cases (is_lower op)) [
      | inl w ↦ let k = rw (u, w) at h in rw (u, w) (lower-Inside rule v l k, tt)
      | inr w ↦ rw (u, w) (tt, tt)
    ]
  ]

  text-Inside :
      (v : Number F) (l : Json F) (op : String)
      → AtLeast (bound_if (is_lower op) (some l)) v × AtMost (bound_if (is_upper op) (some l)) v
      → AtLeast (bound_if (is_lower_text (some op)) (some l)) v
        × AtMost (bound_if (is_upper_text (some op)) (some l)) v
  text-Inside v l op (low, high) = (
    subst (λ (b : Bool). AtLeast (bound_if b (some l)) v) (is_lower-text op) low,
    subst (λ (b : Bool). AtMost (bound_if b (some l)) v) (is_upper-text op) high,
  )

  threshold-Inside :
      (rule : Fields F) (v : Number F) (limit : Option (Json F))
      → check_threshold ops numerics rule v limit ≡ some none
      → AtLeast (bound_if (is_lower_text (operator_of rule)) limit) v
        × AtMost (bound_if (is_upper_text (operator_of rule)) limit) v
  threshold-Inside rule v none h =
      none-Inside v (is_lower_text (operator_of rule)) (is_upper_text (operator_of rule))
  threshold-Inside rule v (some l) h =
      let (op, e, k) = step_of (operator_of rule) (check_operator ops numerics rule v l) none h in
      subst
        (λ (o : Option String).
          AtLeast (bound_if (is_lower_text o) (some l)) v
          × AtMost (bound_if (is_upper_text o) (some l)) v)
        (sym e) (text-Inside v l op (operator-Inside rule v l op k))

  high-Inside :
      (rule : Fields F) (v : Number F) (low : Option (Number F)) (high : Option (Json F))
      → (optional_float ops numerics high >>= λ h. some (
          if beyond ops numerics false h v
          then broken ops numerics rule v (between low h)
          else none))
        ≡ some none
      → AtMost (bound_if true high) v
  high-Inside rule v low none h = tt
  high-Inside rule v low (some m) h =
      let (o, e, k) =
        bound (optional_float ops numerics (some m))
          (λ (t : Option (Number F)).
            if beyond ops numerics false t v
            then broken ops numerics rule v (between low t)
            else none)
          none h in
      let (x, p, q) = bound (numerics.float_of m) (λ (t : Number F). some t) o e in
      AtMost-some m v x p (not_found _ _ (rw (← q) at k))

  range-Inside :
      (rule : Fields F) (v : Number F)
      → check_range ops numerics rule v ≡ some none
      → AtLeast (bound_if true (present (lookup "min" rule))) v
        × AtMost (bound_if true (present (lookup "max" rule))) v
  range-Inside rule v h = low_cases (present (lookup "min" rule)) h
    where
      low_cases :
          (low : Option (Json F))
          → (optional_float ops numerics low >>= λ l. check_min ops numerics rule v l) ≡ some none
          → AtLeast (bound_if true low) v × AtMost (bound_if true (present (lookup "max" rule))) v
      low_cases none k = (tt, high-Inside rule v none (present (lookup "max" rule)) k)
      low_cases (some l) k =
          let (o, e, k') =
            step_of (optional_float ops numerics (some l)) (check_min ops numerics rule v) none k in
          let (x, p, q) = bound (numerics.float_of l) (λ (t : Number F). some t) o e in
          let k2 : check_min ops numerics rule v (some x) ≡ some none =
            ap (check_min ops numerics rule v) q ∙ k' in
          elim (Bool-cases (ops.ltb v x)) [
            | inl y ↦
                let (h', _, n) =
                  bound (optional_float ops numerics (present (lookup "max" rule))) _ none
                    (rw y at k2) in
                cc
            | inr y ↦ (
              AtLeast-some l v x p y,
              high-Inside rule v (some x) (present (lookup "max" rule)) (rw y at k2),
            )
          ]

  rule-Inside :
      (rule : Fields F) (o : Option (Number F))
      → check_rule ops numerics rule o ≡ some none
      → Inside rule o
  rule-Inside rule none h = tt
  rule-Inside rule (some v) h = elim (Bool-cases (is_text (lookup "type" rule) "threshold")) [
    | inl t ↦ rw t (threshold-Inside rule v (present (lookup "value" rule)) (rw t at h))
    | inr t ↦ elim (Bool-cases (is_text (lookup "type" rule) "range")) [
      | inl r ↦ rw (t, r) (range-Inside rule v (rw (t, r) at h))
      | inr r ↦ rw (t, r) (none_false v (present (lookup "min" rule)) (present (lookup "max" rule)))
    ]
  ]

  no_first :
      (b : Option (Broken F)) (rest : Option (Option (Broken F)))
      → first_broken ops numerics b rest ≡ some none
      → (b ≡ none) × (rest ≡ some none)
  no_first none rest h = (refl, h)
  no_first (some b) rest h = cc

  pub check_constraints-Within :
      (v : Values F) (rules : List (Fields F))
      → check_constraints ops numerics v rules ≡ some none
      → Within v rules
  unfolding check_constraints
  check_constraints-Within v [] h = tt
  check_constraints-Within v (rule ∷ rules) h =
      let (t, e, k) = step_of (target_of rule) _ none h in
      let (b, p, q) = step_of (check_rule ops numerics rule (field_value v t)) _ none k in
      let (n, r) = no_first b (check_constraints ops numerics v rules) q in
      (
        subst (λ (o : Option String). Inside rule (o >>= λ t. field_value v t)) (sym e)
            (rule-Inside rule (field_value v t) (p ∙ ap (λ (x : Option (Broken F)). some x) n)),
        check_constraints-Within v rules r,
      )
