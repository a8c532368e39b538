-- ===== src/Agv/Detect.antt =====
-- `_detect_step_violations` and what it calls, `validate_trajectory`.
use pcag.Core.Consensus.{unsafe, safe, Verdict}
use pcag.Core.Int.{pos}
use pcag.Agv.Cycles.{swaps, detect_deadlock_cycles}
use pcag.Agv.{
  position_x, position_y, extract_agv_paths, extract_agv_positions, max_length, Action,
  edge_swap_conflict, grid_boundary, positions_for_step, obstacle_collision, out_of_range, get_agv,
  min_distance, same_position, Grid, Position, RangeRule, ByAgv, Axis, Violation, Moves,
}
use pcag.Core.Json.{Fields, int, Number, Arith}
use pcag.Base.{
  ◌>>=◌, ℕ, ◌+◌, zero, suc, String, Bool, true, false, not, ◌&&◌, ◌||◌, Option, none, some, List,
  [], ◌∷◌, ◌++◌, if◌then◌else◌, ltb,
}

abbrev pub report : Bool → Violation → List Violation
report b v = if b then v ∷ [] else []

abbrev pub min_step : ℕ → ℕ → ℕ
min_step a b = if ltb b a then b else a

abbrev pub verdict_of : Option ℕ → Verdict
verdict_of none = safe
verdict_of (some n) = unsafe

-- Which step is the first with a violation, if one is: then the verdict is UNSAFE.
unfoldable pub first_violation_step : List (ℕ × List Violation) → Option ℕ
first_violation_step [] = none
first_violation_step ((n, []) ∷ steps) = first_violation_step steps
first_violation_step ((n, v ∷ vs) ∷ steps) = some n

module _ {F : Type 0} (arith : Arith F) (moves : Moves F) where
  -- `agv_a` against those after it.
  unfoldable pub swaps_with :
      String → Position F → ByAgv (Position F) → ByAgv (Position F) → List Violation
  swaps_with a p [] next = []
  swaps_with a p ((b, q) ∷ ps) next =
      report
        (swaps arith moves p q (get_agv a p next) (get_agv b q next)
          && not (same_position arith moves p q))
        (edge_swap_conflict a b)
      ++ swaps_with a p ps next

  unfoldable pub detect_edge_swap_conflicts :
      ByAgv (Position F) → ByAgv (Position F) → List Violation
  detect_edge_swap_conflicts [] next = []
  detect_edge_swap_conflicts ((a, p) ∷ ps) next =
      swaps_with a p ps next ++ detect_edge_swap_conflicts ps next

  -- `((xa - xb) ** 2 + (ya - yb) ** 2) ** 0.5`
  abbrev pub distance : Position F → Position F → Number F
  distance p q =
      moves.root (moves.add (moves.square (arith.sub p.0 q.0)) (moves.square (arith.sub p.1 q.1)))

  unfoldable pub too_close_to : Number F → String → Position F → ByAgv (Position F) → List Violation
  too_close_to d a p [] = []
  too_close_to d a p ((b, q) ∷ ps) =
      report (arith.ltb (distance p q) d) (min_distance a b) ++ too_close_to d a p ps

  unfoldable pub detect_collisions : Number F → ByAgv (Position F) → List Violation
  detect_collisions d [] = []
  detect_collisions d ((a, p) ∷ ps) = too_close_to d a p ps ++ detect_collisions d ps

  unfoldable pub on_obstacle : Position F → List (Position F) → Bool
  on_obstacle p [] = false
  on_obstacle p (o ∷ os) = if same_position arith moves o p then true else on_obstacle p os

  abbrev pub outside : Grid F → Position F → Bool
  outside grid (x, y) =
      arith.ltb x (int (pos 0))
      || arith.leb (int grid.width) x
      || (arith.ltb y (int (pos 0)) || arith.leb (int grid.height) y)

  unfoldable pub detect_grid : Grid F → ByAgv (Position F) → List Violation
  detect_grid grid [] = []
  detect_grid grid ((a, p) ∷ ps) =
      report (on_obstacle p grid.obstacles) (obstacle_collision a)
      ++ (report (outside grid p) (grid_boundary a) ++ detect_grid grid ps)

  abbrev pub coordinate_of : Axis → Position F → Number F
  coordinate_of position_x p = p.0
  coordinate_of position_y p = p.1

  unfoldable pub breaks_range : RangeRule F → ByAgv (Position F) → List Violation
  breaks_range r [] = []
  breaks_range r ((a, p) ∷ ps) =
      let v = coordinate_of r.target p in
      report (arith.ltb v r.min || arith.ltb r.max v) (out_of_range r.rule_id) ++ breaks_range r ps

  unfoldable pub detect_ranges : List (RangeRule F) → ByAgv (Position F) → List Violation
  detect_ranges [] ps = []
  detect_ranges (r ∷ rs) ps = breaks_range r ps ++ detect_ranges rs ps

  abbrev pub detect_step_violations :
      Grid F → List (RangeRule F) → ByAgv (Position F) → ByAgv (Position F) → List Violation
  detect_step_violations grid rules now next =
      detect_collisions grid.min_distance now
      ++ (detect_edge_swap_conflicts now next
          ++ (detect_deadlock_cycles arith moves now next
              ++ (detect_grid grid now ++ detect_ranges rules now)))

  -- The loop over the steps, `left` of them from `step` on, with the number of each.
  unfoldable pub simulate :
      Grid F
      → List (RangeRule F)
      → ByAgv (Position F)
      → ByAgv (List (Position F))
      → ℕ
      → ℕ
      → List (ℕ × List Violation)
  simulate grid rules ps paths step zero = []
  simulate grid rules ps paths step (suc left) =
      (
        step,
        detect_step_violations grid rules (positions_for_step step ps paths)
            (positions_for_step (min_step (step + 1) (max_length paths)) ps paths),
      )
      ∷ simulate grid rules ps paths (step + 1) left

  abbrev pub simulation :
      ℕ
      → Grid F
      → List (RangeRule F)
      → Fields F
      → List (Action F)
      → Option (ByAgv (Position F) × ByAgv (List (Position F)))
  simulation fuel grid rules state as' = do
    ps ← extract_agv_positions grid state
    paths ← extract_agv_paths arith moves fuel grid as' ps
    some (ps, paths)

  -- The verdict and the step of the first violation.
  abbrev pub judge :
      Grid F
      → List (RangeRule F)
      → ByAgv (Position F) × ByAgv (List (Position F))
      → Verdict × Option ℕ
  judge grid rules (ps, paths) =
      let first = first_violation_step (simulate grid rules ps paths 0 (max_length paths + 1)) in
      (verdict_of first, first)

  unfoldable pub validate_trajectory :
      ℕ → Grid F → List (RangeRule F) → Fields F → List (Action F) → Option (Verdict × Option ℕ)
  validate_trajectory fuel grid rules state as' =
      simulation fuel grid rules state as' >>= λ s. some (judge grid rules s)
