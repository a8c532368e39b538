-- ===== src/Agv/Paths.antt =====
-- `_generate_simple_path` between integer positions ends at the target.
use pcag.Agv.{count, Position, along_y, approach, along_x, last_of, generate_simple_path, Moves}
use pcag.Core.Json.{Number, int, Arith}
use pcag.Core.Int.{pos, ◌-ℤ◌, negsuc, neg_part, pos_part, ltb_ℤ, -ℤ_parts, ℤ}
use pcag.Base.{
  ◌-◌, ℕ, ◌+◌, ◌≤◌, ◌≡◌, inl, inr, refl, arith, zero, suc, Bool, true, false, some, List, [], ◌∷◌,
  ◌++◌, if◌then◌else◌, Bool-cases, ◌==◌,
}

abbrev pub eqb_ℤ : ℤ → ℤ → Bool
eqb_ℤ a b = pos_part a + neg_part b == pos_part b + neg_part a

-- |a - b|
abbrev pub distance : ℤ → ℤ → ℕ
distance a b =
    (pos_part a + neg_part b - (pos_part b + neg_part a))
    + (pos_part b + neg_part a - (pos_part a + neg_part b))

-- What Python's integers do.
pub record IntLaws {F : Type 0} (ops : Arith F) (moves : Moves F) : Type 0 where
  pub eqb_int : (a b : ℤ) → ops.eqb (int a) (int b) ≡ eqb_ℤ a b
  pub ltb_int : (a b : ℤ) → ops.ltb (int a) (int b) ≡ ltb_ℤ a b
  pub plus_one_int : (a : ℤ) → moves.plus_one (int a) ≡ int (a -ℤ negsuc 0)
  pub minus_one_int : (a : ℤ) → moves.minus_one (int a) ≡ int (a -ℤ pos 1)

eqb_ℤ-sound : (a b : ℤ) → eqb_ℤ a b ≡ true → a ≡ b
eqb_ℤ-sound (pos a) (pos b) h = let e : a ≡ b = ground (arith, h) in rw e refl
eqb_ℤ-sound (pos a) (negsuc b) h = absurd (ground (arith, h))
eqb_ℤ-sound (negsuc a) (pos b) h = absurd (ground (arith, h))
eqb_ℤ-sound (negsuc a) (negsuc b) h = let e : a ≡ b = ground (arith, h) in rw e refl

toward : ℤ → ℤ → ℤ
toward x t = if ltb_ℤ x t then x -ℤ negsuc 0 else x -ℤ pos 1

toward-unit : (x t : ℤ) → distance x (toward x t) ≡ 1
unfolding toward
toward-unit x t = ground (arith, -ℤ_parts x (negsuc 0), -ℤ_parts x (pos 1))

toward-nearer : (x t : ℤ) → eqb_ℤ x t ≡ false → distance (toward x t) t + 1 ≡ distance x t
unfolding toward
toward-nearer x t h = ground (arith, -ℤ_parts x (negsuc 0), -ℤ_parts x (pos 1))

-- From one integer to another by steps of one.
abbrev Line : ℤ → List ℤ → ℤ → Type 0
Line x [] t = x ≡ t
Line x (x' ∷ xs) t = (distance x x' ≡ 1) × Line x' xs t

module _ {F : Type 0} where
  abbrev ints : List ℤ → List (Number F)
  ints [] = []
  ints (x ∷ xs) = int x ∷ ints xs

  -- A path of integer positions, each one unit from the one before along one axis.
  abbrev pub Walk : ℤ → ℤ → List (Position F) → ℤ → ℤ → Type 0
  Walk x y [] target_x target_y = (x ≡ target_x) × (y ≡ target_y)
  Walk x y (p ∷ ps) target_x target_y =
      (x' : ℤ) × (y' : ℤ) × (p ≡ (int x', int y'))
      × (distance x x' + distance y y' ≡ 1)
      × Walk x' y' ps target_x target_y

  last_of-Line : (x t : ℤ) (xs : List ℤ) → Line x xs t → last_of (int x) (ints xs) ≡ int t
  unfolding last_of
  last_of-Line x t [] h = rw h refl
  last_of-Line x t (x' ∷ xs) h = last_of-Line x' t xs h.1

  along_x-Walk :
      (x y tx ty : ℤ) (xs : List ℤ) (ps : List (Position F))
      → Line x xs tx
      → Walk tx y ps tx ty
      → Walk x y (along_x (int y) (ints xs) ++ ps) tx ty
  unfolding along_x
  along_x-Walk x y tx ty [] ps h w = rw h w
  along_x-Walk x y tx ty (x' ∷ xs) ps h w =
      (x', y, refl, omega (arith, h.0), along_x-Walk x' y tx ty xs ps h.1 w)

  count-along_y : (x : Number F) (ys : List ℤ) → count (along_y x (ints ys)) ≡ count ys
  unfolding along_y
  count-along_y x [] = refl
  count-along_y x (y ∷ ys) = rw (count-along_y x ys) refl

  count-along_x :
      (y : Number F) (xs : List ℤ) (ps : List (Position F))
      → count (along_x y (ints xs) ++ ps) ≡ count xs + count ps
  unfolding along_x
  count-along_x y [] ps = omega arith
  count-along_x y (x ∷ xs) ps = omega (arith, count-along_x y xs ps)

module _ {F : Type 0} (ops : Arith F) (moves : Moves F) (laws : IntLaws ops moves) where
  along_y-Walk :
      (x y t : ℤ) (ys : List ℤ) → Line y ys t → Walk {F = F} x y (along_y (int x) (ints ys)) x t
  unfolding along_y
  along_y-Walk x y t [] h = (refl, h)
  along_y-Walk x y t (y' ∷ ys) h = (x, y', refl, omega (arith, h.0), along_y-Walk x y' t ys h.1)

  step_toward :
      (x t : ℤ)
      → (if ops.ltb (int x) (int t) then moves.plus_one (int x) else moves.minus_one (int x))
        ≡ int (toward x t)
  unfolding toward
  step_toward x t = elim (Bool-cases (ltb_ℤ x t)) [
    | inl e ↦ rw (laws.ltb_int x t, e) (laws.plus_one_int x)
    | inr e ↦ rw (laws.ltb_int x t, e) (laws.minus_one_int x)
  ]

  approach-Line :
      (fuel : ℕ) (x t : ℤ)
      → distance x t ≤ fuel
      → (xs : List ℤ) × (approach ops moves fuel (int x) (int t) ≡ some (ints xs))
        × Line x xs t
        × (count xs ≡ distance x t)
  unfolding approach
  approach-Line zero x t h =
      let e : eqb_ℤ x t ≡ true = ground (arith, h) in
      ([], rw (approach, laws.eqb_int x t, e) refl, eqb_ℤ-sound x t e, omega (arith, h))
  approach-Line (suc fuel) x t h = elim (Bool-cases (eqb_ℤ x t)) [
    | inl e ↦ ([], rw (approach, laws.eqb_int x t, e) refl, eqb_ℤ-sound x t e, ground (arith, e))
    | inr e ↦
        let (xs, p, l, c) =
          approach-Line fuel (toward x t) t (omega (arith, h, toward-nearer x t e)) in
        (
          toward x t ∷ xs,
          rw (approach, laws.eqb_int x t, e, step_toward x t, p) refl,
          (toward-unit x t, l),
          omega (arith, c, toward-nearer x t e),
        )
  ]

  -- From an integer position to an integer target the two loops end, after as many rounds as the
  -- coordinates differ by: the path has one position for each round, goes by steps of one along one
  -- axis, and ends at the target.
  pub generate_simple_path-Walk :
      (fuel : ℕ) (x y target_x target_y : ℤ)
      → distance x target_x ≤ fuel
      → distance y target_y ≤ fuel
      → (path : List (Position F)) × (generate_simple_path ops moves fuel
            (int x, int y)
            (int target_x, int target_y)
          ≡ some path)
        × Walk x y path target_x target_y
        × (count path ≡ distance x target_x + distance y target_y)
  unfolding generate_simple_path
  generate_simple_path-Walk fuel x y tx ty h k =
      let (xs, p, l, c) = approach-Line fuel x tx h in
      let (ys, q, m, d) = approach-Line fuel y ty k in
      (
        along_x (int y) (ints xs) ++ along_y (int tx) (ints ys),
        rw (generate_simple_path, p, q, last_of-Line x tx xs l) refl,
        along_x-Walk x y tx ty xs _ l (along_y-Walk tx y ty ys m),
        omega (
          arith,
          count-along_x (int y) xs (along_y (int tx) (ints ys)),
          count-along_y (int tx) ys,
          c,
          d,
        ),
      )
