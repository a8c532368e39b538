-- ===== src/Core/Cbf/InBounds.antt =====
-- What a rule asks of a number, and what the margin of the CBF validator says of it:
-- pcag/core/services/cbf_validator.py.
use pcag.Base.{
  ◌≡◌, ◌≢◌, ◌⊎◌, inl, inr, refl, true, false, Option, none, some, Bool-cases, Option-cases,
}
use pcag.Core.Int.{pos, negsuc}
use pcag.Core.Json.{null, bool, num, str, arr, Number, Json, Arith, int, float, obj, number_of}
use pcag.Core.Rules.{
  Rule, RuleType, Operator, Order, threshold, range, enum, forbidden_combination, ordered, lt, lte,
  gt, gte, eq, ne,
}
use pcag.Core.Cbf.{
  Limits, Margin, raises, no_barrier, barrier, state_value, margin_as, margin, threshold_margin,
  range_margin, operator_or_lte, min_number,
}

-- What the validator relies on of the numbers, none of them a NaN.
pub record NumberLaws {F : Type 0} (ops : Arith F) (limits : Limits F) : Type 0 where
  pub leb_refl : (a : Number F) → ops.leb a a ≡ true
  pub leb_trans : (a b c : Number F) → ops.leb a b ≡ true → ops.leb b c ≡ true → ops.leb a c ≡ true
  pub ltb_leb : (a b : Number F) → ops.ltb a b ≡ true → ops.leb a b ≡ true
  pub ltb_false : (a b : Number F) → ops.ltb a b ≡ false → ops.leb b a ≡ true
  pub minus_one : ops.leb (int (pos 0)) (int (negsuc 0)) ≡ false
  -- A difference that is not negative is one from a number that is not greater.
  pub leb_of_sub :
      (a b : Number F) → ops.leb (int (pos 0)) (ops.sub a b) ≡ true → ops.leb b a ≡ true
  pub neg_inf : ops.leb (int (pos 0)) (float limits.neg_inf) ≡ false

pub Margin-cases :
    {F : Type 0} (m : Margin F)
    → (m ≡ raises) ⊎ ((m ≡ no_barrier) ⊎ ((b : Number F) × (m ≡ barrier b)))
Margin-cases raises = inl refl
Margin-cases no_barrier = inr (inl refl)
Margin-cases (barrier b) = inr (inr (b, refl))

module _ {F : Type 0} (ops : Arith F) (limits : Limits F) (laws : NumberLaws ops limits) where
  abbrev pub NonNegative : Number F → Type 0
  NonNegative b = ops.leb (int (pos 0)) b ≡ true

  pub min_number-le :
      (a b : Number F)
      → (ops.leb (min_number ops limits a b) a ≡ true)
        × (ops.leb (min_number ops limits a b) b ≡ true)
  unfolding min_number
  min_number-le a b = elim (Bool-cases (ops.ltb b a)) [
    | inl e ↦ rw e (laws.ltb_leb b a e, laws.leb_refl b)
    | inr e ↦ rw e (laws.leb_refl a, laws.ltb_false b a e)
  ]

  -- A number on the right side of a limit; `lt` and `gt` admit the limit itself.
  abbrev pub AtLimit : Order → Number F → Number F → Type 0
  AtLimit lt v limit = ops.leb v limit ≡ true
  AtLimit lte v limit = ops.leb v limit ≡ true
  AtLimit gt v limit = ops.leb limit v ≡ true
  AtLimit gte v limit = ops.leb limit v ≡ true

  -- A threshold with an order has a number as its limit, which `v` keeps to. An equality has no
  -- margin.
  abbrev pub Limited : Operator → Option (Number F) → Number F → Type 0
  Limited (ordered o) limit v = (l : Number F) × (limit ≡ some l) × AtLimit o v l
  Limited eq limit v = Unit {0}
  Limited ne limit v = Unit {0}

  abbrev pub or_lte : Option Operator → Operator
  or_lte none = ordered lte
  or_lte (some op) = op

  -- What a rule asks of the number `v`. Enumerations and forbidden combinations are no barriers.
  abbrev pub InBounds : RuleType → Rule F → Number F → Type 0
  InBounds threshold r v = Limited (or_lte r.operator) (number_of r.value) v
  InBounds range r v =
      (low : Number F) × (high : Number F) × (r.min ≡ some low)
      × (r.max ≡ some high)
      × (ops.leb low v ≡ true)
      × (ops.leb v high ≡ true)
  InBounds enum r v = Unit {0}
  InBounds forbidden_combination r v = Unit {0}

  -- The field of the rule is a number in the state, and in the bounds of the rule.
  abbrev pub Kept : Json F → Rule F → Type 0
  Kept state r =
      (v : Number F) × (number_of (state_value limits state r.target_field) ≡ some v)
      × InBounds r.type r v

  -- What a margin that is not negative, or that is not computed, means.
  abbrev Passes : Margin F → Type 0
  Passes m = (m ≢ raises) × ((b : Number F) → m ≡ barrier b → NonNegative b)

  threshold-Limited :
      (op : Operator) (limit : Option (Number F)) (v : Number F)
      → Passes (threshold_margin ops limits op limit v)
      → Limited op limit v
  threshold-Limited (ordered lt) (some l) v h = (l, refl, laws.leb_of_sub l v (h.1 _ refl))
  threshold-Limited (ordered lte) (some l) v h = (l, refl, laws.leb_of_sub l v (h.1 _ refl))
  threshold-Limited (ordered gt) (some l) v h = (l, refl, laws.leb_of_sub v l (h.1 _ refl))
  threshold-Limited (ordered gte) (some l) v h = (l, refl, laws.leb_of_sub v l (h.1 _ refl))
  threshold-Limited (ordered o) none v h = absurd (h.0 refl)
  threshold-Limited eq limit v h = tt
  threshold-Limited ne limit v h = tt

  value-Limited :
      (op : Option Operator) (value : Json F) (v : Number F)
      → Passes (elim value [
        | null ↦ raises
        | limit ↦ threshold_margin ops limits (operator_or_lte ops limits op) (number_of limit) v
      ])
      → Limited (or_lte op) (number_of value) v
  value-Limited op null v h = absurd (h.0 refl)
  value-Limited none (bool b) v h = threshold-Limited (ordered lte) (number_of (bool b)) v h
  value-Limited none (num n) v h = threshold-Limited (ordered lte) (number_of (num n)) v h
  value-Limited none (str s) v h = threshold-Limited (ordered lte) (number_of (str s)) v h
  value-Limited none (arr xs) v h = threshold-Limited (ordered lte) (number_of (arr xs)) v h
  value-Limited none (obj fs) v h = threshold-Limited (ordered lte) (number_of (obj fs)) v h
  value-Limited (some op) (bool b) v h = threshold-Limited op (number_of (bool b)) v h
  value-Limited (some op) (num n) v h = threshold-Limited op (number_of (num n)) v h
  value-Limited (some op) (str s) v h = threshold-Limited op (number_of (str s)) v h
  value-Limited (some op) (arr xs) v h = threshold-Limited op (number_of (arr xs)) v h
  value-Limited (some op) (obj fs) v h = threshold-Limited op (number_of (obj fs)) v h

  range-InBounds :
      (low high : Option (Number F)) (v : Number F)
      → Passes (range_margin ops limits low high v)
      → (l : Number F) × (m : Number F) × (low ≡ some l)
        × (high ≡ some m)
        × (ops.leb l v ≡ true)
        × (ops.leb v m ≡ true)
  range-InBounds none high v h = absurd (h.0 refl)
  range-InBounds (some l) none v h = absurd (h.0 refl)
  range-InBounds (some l) (some m) v h =
      let (p, q) = min_number-le (ops.sub v l) (ops.sub m v) in
      let k = h.1 _ refl in
      (
        l,
        m,
        refl,
        refl,
        laws.leb_of_sub v l (laws.leb_trans _ _ _ k p),
        laws.leb_of_sub m v (laws.leb_trans _ _ _ k q),
      )

  margin_as-InBounds :
      (t : RuleType) (r : Rule F) (v : Number F)
      → Passes (margin_as ops limits t r v)
      → InBounds t r v
  margin_as-InBounds threshold r v h = value-Limited r.operator r.value v h
  margin_as-InBounds range r v h = range-InBounds r.min r.max v h
  margin_as-InBounds enum r v h = tt
  margin_as-InBounds forbidden_combination r v h = tt

  pub margin-Kept :
      (r : Rule F) (state : Json F)
      → (margin ops limits r state ≢ raises)
      → ((b : Number F) → margin ops limits r state ≡ barrier b → NonNegative b)
      → Kept state r
  unfolding margin
  margin-Kept r state h k =
      elim (Option-cases (number_of (state_value limits state r.target_field))) [
        | inl e ↦ cc (k (float limits.neg_inf) (rw e refl), laws.neg_inf)
        | inr (v, e) ↦ (v, e, margin_as-InBounds r.type r v (λ q. h (rw e q), λ b q. k b (rw e q)))
      ]
