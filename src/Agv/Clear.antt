-- ===== src/Agv/Clear.antt =====
-- What a SAFE verdict of the simulation says of every step.
use pcag.Core.Consensus.{safe}
use pcag.Agv.Cycles.{swaps}
use pcag.Agv.Detect.{
  judge, simulation, min_step, validate_trajectory, simulate, first_violation_step, verdict_of,
  report, on_obstacle, outside, detect_step_violations, coordinate_of, detect_edge_swap_conflicts,
  swaps_with, detect_ranges, breaks_range, detect_collisions, detect_grid, too_close_to,
}
use pcag.Agv.{
  max_length, Action, positions_for_step, same_position, get_agv, ByAgv, Position, RangeRule, Grid,
  Violation, Moves,
}
use pcag.Core.Int.{pos}
use pcag.Core.Json.{int, Fields, Number, Arith}
use pcag.Base.{
  bound, ap, nil_of_append, nil_of_append, ℕ, ◌+◌, ◌≤◌, ◌<◌, ◌≡◌, inl, inr, refl, ap, arith, zero,
  suc, String, Bool, true, false, not, ◌&&◌, ◌||◌, Option, none, some, List, [], ◌∷◌, Bool-cases,
  ◌==◌,
}

module _ {F : Type 0} (ops : Arith F) (moves : Moves F) where
  -- Both coordinates are equal.
  abbrev pub IsAt : Position F → Position F → Type 0
  IsAt (x, y) (u, v) = (ops.eqb x u ≡ true) × (ops.eqb y v ≡ true)

  -- An AGV keeps its distance from each of those after it, and does not change places with one.
  abbrev pub Apart :
      Number F → String → Position F → ByAgv (Position F) → ByAgv (Position F) → Type 0
  Apart d a p [] next = Unit {0}
  Apart d a p ((b, q) ∷ ps) next =
      (ops.ltb
          (moves.root (moves.add (moves.square (ops.sub p.0 q.0)) (moves.square (ops.sub p.1 q.1))))
          d
        ≡ false)
      × (IsAt (get_agv a p next) q → IsAt (get_agv b q next) p → IsAt p q)
      × Apart d a p ps next

  abbrev pub AllApart : Number F → ByAgv (Position F) → ByAgv (Position F) → Type 0
  AllApart d [] next = Unit {0}
  AllApart d ((a, p) ∷ ps) next = Apart d a p ps next × AllApart d ps next

  -- From 0 on, and below the width and the height.
  abbrev pub InGrid : Grid F → Position F → Type 0
  InGrid grid (x, y) =
      (ops.ltb x (int (pos 0)) ≡ false)
      × (ops.leb (int grid.width) x ≡ false)
      × (ops.ltb y (int (pos 0)) ≡ false)
      × (ops.leb (int grid.height) y ≡ false)

  abbrev pub FreeOf : Position F → List (Position F) → Type 0
  FreeOf p [] = Unit {0}
  FreeOf p (o ∷ os) = ¬ IsAt o p × FreeOf p os

  -- Each AGV is on the grid and on no obstacle.
  abbrev pub OnGrid : Grid F → ByAgv (Position F) → Type 0
  OnGrid grid [] = Unit {0}
  OnGrid grid ((a, p) ∷ ps) = InGrid grid p × FreeOf p grid.obstacles × OnGrid grid ps

  abbrev pub InRange : RangeRule F → ByAgv (Position F) → Type 0
  InRange r [] = Unit {0}
  InRange r ((a, p) ∷ ps) =
      (ops.ltb (coordinate_of ops moves r.target p) r.min ≡ false)
      × (ops.ltb r.max (coordinate_of ops moves r.target p) ≡ false)
      × InRange r ps

  abbrev pub InRanges : List (RangeRule F) → ByAgv (Position F) → Type 0
  InRanges [] ps = Unit {0}
  InRanges (r ∷ rs) ps = InRange r ps × InRanges rs ps

  abbrev pub ClearStep :
      Grid F → List (RangeRule F) → ByAgv (Position F) → ByAgv (Position F) → Type 0
  ClearStep grid rules now next =
      AllApart grid.min_distance now next × OnGrid grid now × InRanges rules now

  nil_of_report : (b : Bool) (v : Violation) → report b v ≡ [] → b ≡ false
  nil_of_report true v h = cc
  nil_of_report false v h = refl

  or_false : (a b : Bool) → a || b ≡ false → (a ≡ false) × (b ≡ false)
  or_false true b h = cc
  or_false false b h = (refl, h)

  outside-InGrid :
      (grid : Grid F) (p : Position F) → outside ops moves grid p ≡ false → InGrid grid p
  outside-InGrid grid (x, y) h =
      let (l, r) = or_false _ _ h in
      let (h1, h2) = or_false _ _ l in let (h3, h4) = or_false _ _ r in (h1, h2, h3, h4)

  IsAt-same_position : (p q : Position F) → IsAt p q → same_position ops moves p q ≡ true
  IsAt-same_position (x, y) (u, v) h = ground (arith, h.0, h.1)

  same_position-IsAt : (p q : Position F) → same_position ops moves p q ≡ true → IsAt p q
  same_position-IsAt (x, y) (u, v) h = (ground (arith, h), ground (arith, h))

  obstacles-FreeOf :
      (p : Position F) (os : List (Position F)) → on_obstacle ops moves p os ≡ false → FreeOf p os
  unfolding on_obstacle
  obstacles-FreeOf p [] h = tt
  obstacles-FreeOf p (o ∷ os) h = elim (Bool-cases (same_position ops moves o p)) [
    | inl e ↦ cc
    | inr e ↦ (λ at. cc (IsAt-same_position o p at), obstacles-FreeOf p os (rw e at h))
  ]

  no_swap :
      (p q p' q' : Position F)
      → swaps ops moves p q p' q' && not (same_position ops moves p q) ≡ false
      → IsAt p' q
      → IsAt q' p
      → IsAt p q
  no_swap p q p' q' h u v =
      let a = IsAt-same_position p' q u in
      let b = IsAt-same_position q' p v in same_position-IsAt p q (ground (arith, h, a, b))

  collisions-Apart :
      (d : Number F) (a : String) (p : Position F) (ps next : ByAgv (Position F))
      → too_close_to ops moves d a p ps ≡ []
      → swaps_with ops moves a p ps next ≡ []
      → Apart d a p ps next
  unfolding too_close_to swaps_with
  collisions-Apart d a p [] next h k = tt
  collisions-Apart d a p ((b, q) ∷ ps) next h k =
      let (h1, h2) = nil_of_append _ _ h in
      let (k1, k2) = nil_of_append _ _ k in
      (
        nil_of_report _ _ h1,
        λ u v. no_swap p q _ _ (nil_of_report _ _ k1) u v,
        collisions-Apart d a p ps next h2 k2,
      )

  collisions-AllApart :
      (d : Number F) (ps next : ByAgv (Position F))
      → detect_collisions ops moves d ps ≡ []
      → detect_edge_swap_conflicts ops moves ps next ≡ []
      → AllApart d ps next
  unfolding detect_collisions detect_edge_swap_conflicts
  collisions-AllApart d [] next h k = tt
  collisions-AllApart d ((a, p) ∷ ps) next h k =
      let (h1, h2) = nil_of_append _ _ h in
      let (k1, k2) = nil_of_append _ _ k in
      (collisions-Apart d a p ps next h1 k1, collisions-AllApart d ps next h2 k2)

  grid-OnGrid :
      (grid : Grid F) (ps : ByAgv (Position F))
      → detect_grid ops moves grid ps ≡ []
      → OnGrid grid ps
  unfolding detect_grid
  grid-OnGrid grid [] h = tt
  grid-OnGrid grid ((a, p) ∷ ps) h =
      let (h1, rest) = nil_of_append _ _ h in
      let (h2, h3) = nil_of_append _ _ rest in
      (
        outside-InGrid grid p (nil_of_report _ _ h2),
        obstacles-FreeOf p grid.obstacles (nil_of_report _ _ h1),
        grid-OnGrid grid ps h3,
      )

  range-InRange :
      (r : RangeRule F) (ps : ByAgv (Position F)) → breaks_range ops moves r ps ≡ [] → InRange r ps
  unfolding breaks_range
  range-InRange r [] h = tt
  range-InRange r ((a, p) ∷ ps) h =
      let (h1, h2) = nil_of_append _ _ h in
      let (u, v) = or_false _ _ (nil_of_report _ _ h1) in (u, v, range-InRange r ps h2)

  ranges-InRanges :
      (rs : List (RangeRule F)) (ps : ByAgv (Position F))
      → detect_ranges ops moves rs ps ≡ []
      → InRanges rs ps
  unfolding detect_ranges
  ranges-InRanges [] ps h = tt
  ranges-InRanges (r ∷ rs) ps h =
      let (h1, h2) = nil_of_append _ _ h in (range-InRange r ps h1, ranges-InRanges rs ps h2)

  none-ClearStep :
      (grid : Grid F) (rules : List (RangeRule F)) (now next : ByAgv (Position F))
      → detect_step_violations ops moves grid rules now next ≡ []
      → ClearStep grid rules now next
  none-ClearStep grid rules now next h =
      let (h1, r1) = nil_of_append _ _ h in
      let (h2, r2) = nil_of_append _ _ r1 in
      let (h3, r3) = nil_of_append _ _ r2 in
      let (h4, h5) = nil_of_append _ _ r3 in
      (collisions-AllApart _ now next h1 h2, grid-OnGrid grid now h4, ranges-InRanges rules now h5)

  -- The violations of step `n` of a simulation.
  abbrev violations_at :
      Grid F
      → List (RangeRule F)
      → ByAgv (Position F)
      → ByAgv (List (Position F))
      → ℕ
      → List Violation
  violations_at grid rules ps paths n =
      detect_step_violations ops moves grid rules (positions_for_step n ps paths)
        (positions_for_step (min_step (n + 1) (max_length paths)) ps paths)

  first_of-none :
      (n : ℕ) (vs : List Violation) (steps : List (ℕ × List Violation))
      → first_violation_step ((n, vs) ∷ steps) ≡ none
      → (vs ≡ []) × (first_violation_step steps ≡ none)
  unfolding first_violation_step
  first_of-none n [] steps h = (refl, h)
  first_of-none n (v ∷ vs) steps h = cc

  simulate-none :
      (grid : Grid F) (rules : List (RangeRule F)) (ps : ByAgv (Position F))
      → (paths : ByAgv (List (Position F))) (step left n : ℕ)
      → first_violation_step (simulate ops moves grid rules ps paths step left) ≡ none
      → step ≤ n
      → n < step + left
      → violations_at grid rules ps paths n ≡ []
  unfolding simulate
  simulate-none grid rules ps paths step zero n h p q = absurd (omega (arith, p, q))
  simulate-none grid rules ps paths step (suc left) n h p q =
      let (here, later) = first_of-none _ _ _ h in
      elim (Bool-cases (step == n)) [
        | inl e ↦ let e' : n ≡ step = ground (arith, e) in rw e' here
        | inr e ↦
            simulate-none grid rules ps paths (step + 1) left n later (ground (arith, e, p))
              (ground (arith, q))
      ]

  safe-none : (o : Option ℕ) → verdict_of o ≡ safe → o ≡ none
  safe-none none h = refl
  safe-none (some n) h = cc

  -- If the backend answers SAFE, it has simulated positions and paths for the state and the actions
  -- in which, at every step up to the length of the longest path, every two AGVs have no smaller
  -- distance (the root of the sum of two squares) than the minimal one, and do not change places by
  -- the next step, every AGV is on the grid, from 0 to below its width and height, and on no obstacle,
  -- and every range rule on a coordinate holds.
  pub validate_trajectory-ClearStep :
      (fuel : ℕ) (grid : Grid F) (rules : List (RangeRule F)) (state : Fields F)
      → (as' : List (Action F)) (first : Option ℕ)
      → validate_trajectory ops moves fuel grid rules state as' ≡ some (safe, first)
      → (ps : ByAgv (Position F)) × (paths : ByAgv (List (Position F))) × (simulation ops moves fuel
            grid rules state as'
          ≡ some (ps, paths))
        × ((n : ℕ)
            → n ≤ max_length paths
            → ClearStep grid rules
                (positions_for_step n ps paths)
                (positions_for_step (min_step (n + 1) (max_length paths)) ps paths))
  unfolding validate_trajectory
  validate_trajectory-ClearStep fuel grid rules state as' first h =
      let ((ps, paths), e, q) =
        bound (simulation ops moves fuel grid rules state as') (judge ops moves grid rules)
          (safe, first) h in
      (
        ps,
        paths,
        e,
        λ n p. none-ClearStep grid rules _ _ (
            simulate-none grid rules ps paths 0 (max_length paths + 1) n
              (safe-none _ (ap (λ v. v.0) q)) (omega arith) (omega (arith, p))),
      )
