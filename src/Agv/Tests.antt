-- ===== src/Agv/Tests.antt =====
-- Two AGVs on a grid of four by three, with integer coordinates.
use pcag.Agv.Clear.{validate_trajectory-ClearStep, ClearStep}
use pcag.Core.Consensus.{unsafe, safe}
use pcag.Agv.Cycles.{
  emitted, same_texts, sorted, insert_text, without, waits_for, traverse, from_node, contains,
  occupant, wait_for, cycles, detect_deadlock_cycles,
}
use pcag.Agv.Paths.{generate_simple_path-Walk, distance, eqb_ℤ, Walk, IntLaws}
use pcag.Core.Int.{neg_part, pos_part, ◌+ℤ◌, negsuc, ◌-ℤ◌, ltb_ℤ, pos, ℤ}
use pcag.Agv.Detect.{
  detect_collisions, breaks_range, too_close_to, swaps_with, detect_grid, detect_ranges,
  on_obstacle, detect_edge_swap_conflicts, first_violation_step, simulate, min_step, simulation,
  validate_trajectory,
}
use pcag.Core.Json.{lookup, obj, float, num, int, field, end, Arith, Number}
use pcag.Agv.{
  suc, at_or_last, put_agv, points, last_of, along_y, along_x, approach, action_paths,
  configured_paths, configured_positions, observed_positions, extract_agv_positions, get_agv,
  positions_for_step, count, max_length, move_to, AgvConf, generate_simple_path, deadlock_cycle,
  Action, Moves, Position, Grid, ByAgv,
}
use pcag.Base.{
  if◌then◌else◌, leb, zero, suc, ◌*◌, ℕ, ◌+◌, ◌≤◌, ◌≡◌, refl, arith, String, Bool, not, none, some,
  List, [], ◌∷◌,
}

abbrev whole : Number ℕ → ℤ
whole (int a) = a
whole (float n) = pos n

abbrev leb_ℤ : ℤ → ℤ → Bool
leb_ℤ a b = not (ltb_ℤ b a)

abbrev integers : Arith ℕ
integers = record {
  sub = λ a b. int (whole a -ℤ whole b);
  abs = λ a. a;
  mul = λ a b. a;
  div = λ a b. a;
  ltb = λ a b. ltb_ℤ (whole a) (whole b);
  leb = λ a b. leb_ℤ (whole a) (whole b);
  eqb = λ a b. eqb_ℤ (whole a) (whole b);
  hundred = float 100;
}

-- The root of a square number, and of others the next integer below it; `k` is as large.
abbrev root_below : ℕ → ℕ → ℕ
root_below zero n = 0
root_below (suc k) n =
    let rest = root_below k n in if leb ((k + 1) * (k + 1)) n then k + 1 else rest

abbrev moves : Moves ℕ
moves = record {
  plus_one = λ a. int (whole a -ℤ negsuc 0);
  minus_one = λ a. int (whole a -ℤ pos 1);
  add = λ a b. int (whole a +ℤ whole b);
  square = λ a.
      int (pos (pos_part (whole a) * pos_part (whole a) + neg_part (whole a) * neg_part (whole a)));
  root = λ a. int (pos (root_below (pos_part (whole a)) (pos_part (whole a))));
}

laws : IntLaws integers moves
laws = record {
  eqb_int = λ a b. refl;
  ltb_int = λ a b. refl;
  plus_one_int = λ a. refl;
  minus_one_int = λ a. refl;
}

abbrev at : ℕ → ℕ → Position ℕ
at x y = (int (pos x), int (pos y))

abbrev conf : Position ℕ → AgvConf ℕ
conf p = record { position = p; path = [] }

abbrev grid : Grid ℕ
grid = record {
  width = pos 4;
  height = pos 3;
  obstacles = at 1 1 ∷ [];
  agvs = ("agv_01", conf (at 0 0)) ∷ ("agv_02", conf (at 3 2)) ∷ [];
  min_distance = int (pos 1);
}

abbrev to : String → ℕ → ℕ → Action ℕ
to k x y =
    move_to k (field "target_x" (num (int (pos x))) (field "target_y" (num (int (pos y))) end))

-- Both go around the obstacle.
around :
    validate_trajectory integers moves 5 grid [] end (to "agv_01" 2 0 ∷ to "agv_02" 0 2 ∷ [])
    ≡ some (safe, none)
unfolding validate_trajectory extract_agv_positions observed_positions configured_positions
    configured_paths action_paths generate_simple_path approach along_x along_y last_of points
    lookup put_agv at_or_last positions_for_step max_length simulate first_violation_step
    detect_edge_swap_conflicts swaps_with detect_collisions too_close_to detect_grid on_obstacle
    detect_ranges breaks_range detect_deadlock_cycles cycles traverse waits_for without contains
    from_node insert_text sorted same_texts emitted occupant wait_for get_agv ◌-ℤ◌
around = refl

-- The second AGV runs over the obstacle at its second step.
through :
    validate_trajectory integers moves 5 grid []
      (field "agv_02" (obj (field "x" (num (int (pos 3))) (field "y" (num (int (pos 1))) end))) end)
      (to "agv_02" 0 1 ∷ [])
    ≡ some (unsafe, some 2)
unfolding validate_trajectory extract_agv_positions observed_positions configured_positions
    configured_paths action_paths generate_simple_path approach along_x along_y last_of points
    lookup put_agv at_or_last positions_for_step max_length simulate first_violation_step
    detect_edge_swap_conflicts swaps_with detect_collisions too_close_to detect_grid on_obstacle
    detect_ranges breaks_range detect_deadlock_cycles cycles traverse waits_for without contains
    from_node insert_text sorted same_texts emitted occupant wait_for get_agv ◌-ℤ◌
through = refl

-- Three AGVs in a ring, each waiting for the next.
ring :
    detect_deadlock_cycles integers moves
      (("a", at 0 0) ∷ ("b", at 1 0) ∷ ("c", at 0 1) ∷ [])
      (("a", at 1 0) ∷ ("b", at 0 1) ∷ ("c", at 0 0) ∷ [])
    ≡ deadlock_cycle ("a" ∷ "b" ∷ "c" ∷ []) ∷ []
unfolding detect_deadlock_cycles cycles traverse waits_for without contains from_node insert_text
    sorted same_texts emitted occupant wait_for get_agv ◌-ℤ◌
ring = refl

validate_trajectory-ClearStep_example :
    (ps : ByAgv (Position ℕ)) × (paths : ByAgv (List (Position ℕ))) × (simulation integers moves 5
        grid [] end
        (to "agv_01" 2 0 ∷ to "agv_02" 0 2 ∷ [])
      ≡ some (ps, paths))
    × ((n : ℕ)
        → n ≤ max_length paths
        → ClearStep integers moves grid []
            (positions_for_step n ps paths)
            (positions_for_step (min_step (n + 1) (max_length paths)) ps paths))
validate_trajectory-ClearStep_example =
    validate_trajectory-ClearStep integers moves 5 grid [] end
      (to "agv_01" 2 0 ∷ to "agv_02" 0 2 ∷ []) none around

generate_simple_path-Walk_example :
    (path : List (Position ℕ)) × (generate_simple_path integers moves 5 (at 3 0) (at 0 2)
      ≡ some path)
    × Walk (pos 3) (pos 0) path (pos 0) (pos 2)
    × (count path ≡ distance (pos 3) (pos 0) + distance (pos 0) (pos 2))
generate_simple_path-Walk_example =
    generate_simple_path-Walk integers moves laws 5 (pos 3) (pos 0) (pos 0) (pos 2) (omega arith)
      (omega arith)
