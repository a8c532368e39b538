-- ===== src/Core/Integrity/Window.antt =====
-- Which proof packages `check_integrity` accepts, and for how long.
use pcag.Base.{
  String, ◌≡◌, ◌≢◌, ◌↔◌, refl, true, false, Bool-cases, inl, inr, Option, none, some, List, [], ◌∷◌,
  arith, eq_iff, if◌then◌else◌,
}
use pcag.Core.Int.{pos, ℤ, negsuc, ◌-ℤ◌, ◌≤ℤ◌, ltb_ℤ, -ℤ_parts}
use pcag.Core.Json.{
  Json, Arith, Number, int, null, bool, num, str, arr, obj, number_of, eq_json, get_nested_value,
}
use pcag.Core.Integrity.{
  Method, absolute, percentage, is_null, numbers_diverge, values_diverge, DivergenceThreshold,
  timestamp_expired, Evidence, hashes_differ, diverges, any_diverges, check_integrity,
}

module _ {F : Type 0} (ops : Arith F) where
  -- The difference of two numbers keeps to a threshold: the difference itself, or its percentage of
  -- the size of the first number, of which 0 admits no difference.
  abbrev pub Close : Method → Number F → Number F → Number F → Type 0
  Close absolute max p c = ops.ltb max (ops.abs (ops.sub c p)) ≡ false
  Close percentage max p c =
      (ops.eqb p (int (pos 0)) ≡ true → ops.ltb (int (pos 0)) (ops.abs (ops.sub c p)) ≡ false)
      × (ops.eqb p (int (pos 0)) ≡ false
          → ops.ltb max (ops.mul (ops.div (ops.abs (ops.sub c p)) (ops.abs p)) ops.hundred) ≡ false)

  -- Two numbers are close; other values are equal.
  abbrev pub Similar :
      DivergenceThreshold F → Json F → Json F → Option (Number F) → Option (Number F) → Type 0
  Similar t proof current (some p) (some c) = Close t.method t.max_divergence p c
  Similar t proof current (some p) none = eq_json ops proof current ≡ true
  Similar t proof current none (some c) = eq_json ops proof current ≡ true
  Similar t proof current none none = eq_json ops proof current ≡ true

  -- Neither value is missing, and they are similar.
  abbrev pub Holds : DivergenceThreshold F → Json F → Json F → Type 0
  Holds t proof current =
      (proof ≢ null)
      × (current ≢ null)
      × Similar t proof current (number_of proof) (number_of current)

  -- Every threshold holds for the values that it names in the two snapshots.
  abbrev pub AllWithin : Json F → Json F → List (DivergenceThreshold F) → Type 0
  AllWithin proof current [] = Unit {0}
  AllWithin proof current (t ∷ ts) =
      Holds t (get_nested_value proof t.sensor_type) (get_nested_value current t.sensor_type)
      × AllWithin proof current ts

  -- What a proof package needs at `now`: the active policy's version, the current sensor hash if
  -- both hashes are there, an age between -5000 ms and the limit, and every threshold kept.
  pub record Fits (e : Evidence F) (now : ℤ) : Type 0 where
    pub version : e.proof_policy_version ≡ e.active_policy_version
    pub hash :
        (p c : String)
        → e.proof_sensor_snapshot_hash ≡ some p
        → e.current_sensor_snapshot_hash ≡ some c
        → p ≡ c
    pub fresh : now -ℤ e.proof_timestamp_ms ≤ℤ e.timestamp_max_age_ms
    pub not_future : negsuc 4999 ≤ℤ now -ℤ e.proof_timestamp_ms
    pub sensors :
        AllWithin e.proof_sensor_snapshot e.current_sensor_snapshot e.divergence_thresholds

  is_null-null : (v : Json F) → is_null v ≡ false → v ≢ null
  is_null-null v h e = cc

  null-is_null : (v : Json F) → v ≢ null → is_null v ≡ false
  null-is_null null h = absurd (h refl)
  null-is_null (bool b) h = refl
  null-is_null (num n) h = refl
  null-is_null (str s) h = refl
  null-is_null (arr xs) h = refl
  null-is_null (obj fs) h = refl

  diverge-Close :
      (t : DivergenceThreshold F) (p c : Number F)
      → numbers_diverge ops t p c ≡ false
      → Close t.method t.max_divergence p c
  diverge-Close t p c h = by_method t.method h
    where
      by_method :
          (m : Method)
          → numbers_diverge ops (record t { method = m }) p c ≡ false
          → Close m t.max_divergence p c
      by_method absolute h = h
      by_method percentage h = (λ e. rw e at h, λ e. rw e at h)

  Close-diverge :
      (t : DivergenceThreshold F) (p c : Number F)
      → Close t.method t.max_divergence p c
      → numbers_diverge ops t p c ≡ false
  Close-diverge t p c h = by_method t.method h
    where
      by_method :
          (m : Method)
          → Close m t.max_divergence p c
          → numbers_diverge ops (record t { method = m }) p c ≡ false
      by_method absolute h = h
      by_method percentage h = elim (Bool-cases (ops.eqb p (int (pos 0)))) [
        | inl e ↦ rw e (h.0 e)
        | inr e ↦ rw e (h.1 e)
      ]

  diverge-Similar :
      (t : DivergenceThreshold F) (v w : Json F) (p c : Option (Number F))
      → values_diverge ops t v w p c ≡ false
      → Similar t v w p c
  diverge-Similar t v w (some p) (some c) h = diverge-Close t p c h
  diverge-Similar t v w (some p) none h = ground (arith, h)
  diverge-Similar t v w none (some c) h = ground (arith, h)
  diverge-Similar t v w none none h = ground (arith, h)

  Similar-diverge :
      (t : DivergenceThreshold F) (v w : Json F) (p c : Option (Number F))
      → Similar t v w p c
      → values_diverge ops t v w p c ≡ false
  Similar-diverge t v w (some p) (some c) h = Close-diverge t p c h
  Similar-diverge t v w (some p) none h = rw h refl
  Similar-diverge t v w none (some c) h = rw h refl
  Similar-diverge t v w none none h = rw h refl

  value-Holds :
      (t : DivergenceThreshold F) (v w : Json F)
      → (if is_null v
          then true
          else if is_null w
          then true
          else values_diverge ops t v w (number_of v) (number_of w))
        ≡ false
      → Holds t v w
  value-Holds t v w h = elim (Bool-cases (is_null v)) [
    | inl e ↦ cc (rw e at h)
    | inr e ↦ elim (Bool-cases (is_null w)) [
      | inl f ↦ cc (rw (e, f) at h)
      | inr f ↦ (
        is_null-null v e,
        is_null-null w f,
        diverge-Similar t v w (number_of v) (number_of w) (rw (e, f) at h),
      )
    ]
  ]

  diverges-Holds :
      (proof current : Json F) (t : DivergenceThreshold F)
      → diverges ops proof current t ≡ false
      → Holds t (get_nested_value proof t.sensor_type) (get_nested_value current t.sensor_type)
  unfolding diverges
  diverges-Holds proof current t h = value-Holds t _ _ h

  Holds-diverges :
      (proof current : Json F) (t : DivergenceThreshold F)
      → Holds t (get_nested_value proof t.sensor_type) (get_nested_value current t.sensor_type)
      → diverges ops proof current t ≡ false
  unfolding diverges
  Holds-diverges proof current t (h, k, l) =
      rw (null-is_null _ h, null-is_null _ k) (Similar-diverge t _ _ _ _ l)

  any_diverges-AllWithin :
      (p c : Json F) (ts : List (DivergenceThreshold F))
      → any_diverges ops p c ts ≡ false
      → AllWithin p c ts
  unfolding any_diverges
  any_diverges-AllWithin p c [] h = tt
  any_diverges-AllWithin p c (t ∷ ts) h = elim (Bool-cases (diverges ops p c t)) [
    | inl e ↦ cc (rw e at h)
    | inr e ↦ (diverges-Holds p c t e, any_diverges-AllWithin p c ts (rw e at h))
  ]

  AllWithin-any_diverges :
      (p c : Json F) (ts : List (DivergenceThreshold F))
      → AllWithin p c ts
      → any_diverges ops p c ts ≡ false
  unfolding any_diverges
  AllWithin-any_diverges p c [] h = refl
  AllWithin-any_diverges p c (t ∷ ts) h =
      rw (Holds-diverges p c t h.0) (AllWithin-any_diverges p c ts h.1)

  accepted-Fits : (e : Evidence F) (now : ℤ) → check_integrity ops e now ≡ none → Fits e now
  unfolding check_integrity
  accepted-Fits e now h = record {
    version = ground (arith, eq_iff e.proof_policy_version e.active_policy_version);
    hash = λ p c hp hc. ground (arith, eq_iff p c);
    fresh = ground arith;
    not_future = ground arith;
    sensors =
        any_diverges-AllWithin e.proof_sensor_snapshot e.current_sensor_snapshot
          e.divergence_thresholds (ground arith);
  }

  hashes-agree :
      (p c : Option String)
      → ((a b : String) → p ≡ some a → c ≡ some b → a ≡ b)
      → hashes_differ p c ≡ false
  hashes-agree none c h = refl
  hashes-agree (some a) none h = refl
  hashes-agree (some a) (some b) h = ground (arith, h a b, eq_iff a b)

  Fits-accepted : (e : Evidence F) (now : ℤ) → Fits e now → check_integrity ops e now ≡ none
  unfolding check_integrity
  Fits-accepted e now f = ground (
    arith,
    f.version,
    f.fresh,
    f.not_future,
    eq_iff e.proof_policy_version e.active_policy_version,
    hashes-agree e.proof_sensor_snapshot_hash e.current_sensor_snapshot_hash f.hash,
    AllWithin-any_diverges e.proof_sensor_snapshot e.current_sensor_snapshot e.divergence_thresholds
        f.sensors,
  )

  -- `check_integrity` accepts exactly the proof packages that fit: of the active policy version and,
  -- where both hashes are given, with the current sensor hash, at most as old as the limit and at most
  -- 5000 ms in the future, and with each threshold's value in neither snapshot missing, close to the
  -- current one if both are numbers, and equal to it if not.
  pub check_integrity_iff :
      (e : Evidence F) (now : ℤ) → (check_integrity ops e now ≡ none) ↔ Fits e now
  check_integrity_iff e now = (accepted-Fits e now, Fits-accepted e now)

  -- A proof package that is accepted once stays accepted until its age passes the limit, and is
  -- expired from then on, if neither the policy nor the sensors change.
  pub accepted_until :
      (e : Evidence F) (now later : ℤ)
      → now ≤ℤ later
      → check_integrity ops e now ≡ none
      → check_integrity ops e later ≡ (
          if ltb_ℤ e.timestamp_max_age_ms (later -ℤ e.proof_timestamp_ms)
          then some timestamp_expired
          else none)
  unfolding check_integrity
  accepted_until e now later le h =
      let past : ltb_ℤ (later -ℤ e.proof_timestamp_ms) (negsuc 4999) ≡ false = ground (
        arith,
        (accepted-Fits e now h).not_future,
        -ℤ_parts now e.proof_timestamp_ms,
        -ℤ_parts later e.proof_timestamp_ms,
      ) in
      ground (arith, past)
