-- ===== src/Agv.antt =====
-- pcag/plugins/simulation/discrete_event.py: `DiscreteEventBackend`, the validator of the moves of
-- AGVs on a grid. The configuration is what `initialize` keeps of it; the events, the times and the
-- visualization are left out.
pub mod Cycles
pub mod Detect
pub mod Paths
pub mod Clear
mod Tests
use text.Mathlib.Text.{starts_with}
use pcag.Core.Int.{pos, ℤ}
use pcag.Core.Json.{
  end, nil, obj, number_of, cons, arr, Items, Json, lookup, field, int, Fields, Number, Arith,
}
use pcag.Base.{
  ◌>>=◌, ℕ, ◌+◌, ◌≤◌, ◌<◌, ◌≡◌, ◌≢◌, ◌↔◌, ◌⊎◌, inl, inr, refl, sym, ap, arith, zero, suc, String,
  Bool, true, false, not, ◌&&◌, ◌||◌, Option, none, some, List, [], ◌∷◌, ◌++◌, ◌∙◌, str_eq, eq_iff,
  if◌then◌else◌, Bool-cases, Option-cases, ltb, leb, ◌==◌,
}

abbrev pub Position : Type 0 → Type 0
Position F = Number F × Number F

-- A dictionary from the identifiers of AGVs, in insertion order.
abbrev pub ByAgv : Type 0 → Type 0
ByAgv A = List (String × A)

-- `x + 1`, `x - 1`, `x + y`, `x ** 2` and `x ** 0.5`, for numbers where these do not overflow.
pub record Moves (F : Type 0) : Type 0 where
  pub plus_one : Number F → Number F
  pub minus_one : Number F → Number F
  pub add : Number F → Number F → Number F
  pub square : Number F → Number F
  pub root : Number F → Number F

pub record AgvConf (F : Type 0) : Type 0 where
  pub position : Position F
  pub path : List (Position F)

pub record Grid (F : Type 0) : Type 0 where
  pub width : ℤ
  pub height : ℤ
  pub obstacles : List (Position F)
  pub agvs : ByAgv (AgvConf F)
  pub min_distance : Number F

-- An entry of the action sequence. Of a `move_to` the identifier of the AGV, "agv_01" if it names
-- none, and the parameters.
pub data Action (F : Type 0) : Type 0 where
  other : Action F
  move_to : String → Fields F → Action F

pub data Axis : Type 0 where
  position_x position_y : Axis

-- A rule of type `range` on a coordinate with both its bounds, the only rules that are looked at.
pub record RangeRule (F : Type 0) : Type 0 where
  pub rule_id : String
  pub target : Axis
  pub min : Number F
  pub max : Number F

pub data Violation : Type 0 where
  min_distance edge_swap_conflict : String → String → Violation
  deadlock_cycle : List String → Violation
  obstacle_collision grid_boundary : String → Violation
  out_of_range : String → Violation

module _ {A : Type 0} where
  unfoldable pub put_agv : String → A → ByAgv A → ByAgv A
  put_agv k a [] = (k, a) ∷ []
  put_agv k a ((j, b) ∷ xs) = if str_eq j k then (j, a) ∷ xs else (j, b) ∷ put_agv k a xs

  -- `d.get(key, default)`
  unfoldable pub get_agv : String → A → ByAgv A → A
  get_agv k default [] = default
  get_agv k default ((j, b) ∷ xs) = if str_eq j k then b else get_agv k default xs

  -- `path[n]` of a list, or what `last` says past its end.
  unfoldable pub at_or_last : ℕ → List A → A → A
  at_or_last n [] last = last
  at_or_last zero (x ∷ xs) last = x
  at_or_last (suc n) (x ∷ xs) last = at_or_last n xs x

  abbrev pub count : List A → ℕ
  count [] = 0
  count (x ∷ xs) = count xs + 1

module _ {F : Type 0} where
  unfoldable pub along_x : Number F → List (Number F) → List (Position F)
  along_x y [] = []
  along_x y (x ∷ xs) = (x, y) ∷ along_x y xs

  unfoldable pub along_y : Number F → List (Number F) → List (Position F)
  along_y x [] = []
  along_y x (y ∷ ys) = (x, y) ∷ along_y x ys

  unfoldable pub last_of : Number F → List (Number F) → Number F
  last_of x [] = x
  last_of x (x' ∷ xs) = last_of x' xs

  abbrev pair_of : Option (Number F) → Option (Number F) → Option (Position F)
  pair_of (some x) (some y) = some (x, y)
  pair_of _ _ = none

  -- A list of two numbers.
  abbrev point : Json F → Option (Position F)
  point (arr (cons x (cons y nil))) = pair_of (number_of x) (number_of y)
  point _ = none

  unfoldable pub points : Items F → Option (List (Position F))
  points nil = some []
  points (cons x xs) = do p ← point x; ps ← points xs; some (p ∷ ps)

  abbrev path_points : Json F → Option (List (Position F))
  path_points (arr xs) = points xs
  path_points _ = none

  -- `value.get("x", 0)`: a coordinate that is no number raises when it is compared.
  abbrev coordinate : Option (Json F) → Option (Number F)
  coordinate none = some (int (pos 0))
  coordinate (some v) = number_of v

  unfoldable pub configured_positions : ByAgv (AgvConf F) → ByAgv (Position F)
  configured_positions [] = []
  configured_positions ((k, c) ∷ cs) = (k, c.position) ∷ configured_positions cs

  abbrev place : String → Option (Position F) → ByAgv (Position F) → Option (ByAgv (Position F))
  place k none ps = none
  place k (some p) ps = some (put_agv k p ps)

  unfoldable pub observed_positions : Fields F → ByAgv (Position F) → Option (ByAgv (Position F))
  observed_positions end ps = some ps
  observed_positions (field k (obj fs) state) ps =
      let placed = place k (pair_of (coordinate (lookup "x" fs)) (coordinate (lookup "y" fs))) ps in
      let rest = observed_positions state ps in
      if starts_with k "agv_" then (placed >>= observed_positions state) else rest
  observed_positions (field k v state) ps = observed_positions state ps

  -- `_extract_agv_positions`. `none` is an exception, now or when a position is compared.
  unfoldable pub extract_agv_positions : Grid F → Fields F → Option (ByAgv (Position F))
  extract_agv_positions grid state = do
    ps ← observed_positions state (configured_positions grid.agvs)
    elim (lookup "position_x" state) [
      | none ↦ some ps
      | some x ↦ place "agv_01" (pair_of (number_of x) (coordinate (lookup "position_y" state))) ps
    ]

  unfoldable pub configured_paths : ByAgv (AgvConf F) → ByAgv (List (Position F))
  configured_paths [] = []
  configured_paths ((k, c) ∷ cs) = elim c.path [
    | [] ↦ configured_paths cs
    | p ∷ ps ↦ (k, p ∷ ps) ∷ configured_paths cs
  ]

  abbrev put_path :
      String → Option (List (Position F)) → ByAgv (List (Position F)) → ByAgv (List (Position F))
  put_path k none paths = paths
  put_path k (some path) paths = put_agv k path paths

  abbrev pub position_at : ℕ → Position F → List (Position F) → Position F
  position_at zero start path = start
  position_at (suc n) start path = at_or_last n path start

  unfoldable pub positions_for_step :
      ℕ → ByAgv (Position F) → ByAgv (List (Position F)) → ByAgv (Position F)
  positions_for_step step [] paths = []
  positions_for_step step ((k, start) ∷ ps) paths =
      (k, position_at step start (get_agv k [] paths)) ∷ positions_for_step step ps paths

  unfoldable pub max_length : ByAgv (List (Position F)) → ℕ
  max_length [] = 0
  max_length ((k, path) ∷ paths) =
      if ltb (max_length paths) (count path) then count path else max_length paths

module _ {F : Type 0} (arith : Arith F) (moves : Moves F) where
  abbrev pub same_position : Position F → Position F → Bool
  same_position p q = arith.eqb p.0 q.0 && arith.eqb p.1 q.1

  -- One of the two loops of `_generate_simple_path`, for at most `fuel` rounds: the values that the
  -- coordinate takes.
  unfoldable pub approach : ℕ → Number F → Number F → Option (List (Number F))
  approach zero x target = if arith.eqb x target then some [] else none
  approach (suc fuel) x target =
      let x' = if arith.ltb x target then moves.plus_one x else moves.minus_one x in
      let rest = approach fuel x' target in
      if arith.eqb x target then some [] else (rest >>= λ xs. some (x' ∷ xs))

  unfoldable pub generate_simple_path : ℕ → Position F → Position F → Option (List (Position F))
  generate_simple_path fuel (x, y) (target_x, target_y) = do
    xs ← approach fuel x target_x
    ys ← approach fuel y target_y
    some (along_x y xs ++ along_y (last_of x xs) ys)

  -- The path of one `move_to`: `some none` if it names neither a path nor a target.
  abbrev path_of :
      ℕ
      → Position F
      → Option (Json F)
      → Option (Json F)
      → Option (Json F)
      → Option (Option (List (Position F)))
  path_of fuel current (some path) x y = path_points path >>= λ ps. some (some ps)
  path_of fuel current none (some x) (some y) = do
    target ← pair_of (number_of x) (number_of y)
    ps ← generate_simple_path fuel current target
    some (some ps)
  path_of fuel current none _ _ = some none

  -- The loop over the actions. `none` is an exception, or a path that is not generated in `fuel`
  -- rounds.
  unfoldable pub action_paths :
      ℕ
      → ByAgv (Position F)
      → List (Action F)
      → ByAgv (List (Position F))
      → Option (ByAgv (List (Position F)))
  action_paths fuel ps [] paths = some paths
  action_paths fuel ps (other ∷ as') paths = action_paths fuel ps as' paths
  action_paths fuel ps (move_to k params ∷ as') paths = do
    path ←
        path_of fuel (get_agv k (int (pos 0), int (pos 0)) ps) (lookup "path" params)
          (lookup "target_x" params) (lookup "target_y" params)
    action_paths fuel ps as' (put_path k path paths)

  abbrev pub extract_agv_paths :
      ℕ → Grid F → List (Action F) → ByAgv (Position F) → Option (ByAgv (List (Position F)))
  extract_agv_paths fuel grid as' ps = action_paths fuel ps as' (configured_paths grid.agvs)
