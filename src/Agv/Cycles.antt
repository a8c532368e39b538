-- ===== src/Agv/Cycles.antt =====
-- `_detect_deadlock_cycles`: AGVs that wait for each other in a ring.
use pcag.Core.Int.{pos}
use pcag.Agv.{
  inr, inl, Option-cases, arith, count, deadlock_cycle, get_agv, same_position, Position, ByAgv,
  Violation, Moves,
}
use pcag.Core.Json.{int, Arith}
use Prim.Native.String.{compare}
use Prim.Native.Nat.{Ordering}
use pcag.Base.{
  refl, ◌+◌, ◌≤◌, ◌≡◌, ℕ, zero, suc, String, Bool, true, false, not, ◌&&◌, ◌||◌, Option, none, some,
  List, [], ◌∷◌, ◌++◌, str_eq, if◌then◌else◌, leb,
}

abbrev pub WaitFor : Type 0
WaitFor = List (String × String)

unfoldable pub waits_for : String → WaitFor → Option String
waits_for k [] = none
waits_for k ((j, b) ∷ ws) = if str_eq j k then some b else waits_for k ws

unfoldable pub without : String → WaitFor → WaitFor
without k [] = []
without k ((j, b) ∷ ws) = if str_eq j k then ws else (j, b) ∷ without k ws

unfoldable pub contains : String → List String → Bool
contains k [] = false
contains k (j ∷ js) = if str_eq j k then true else contains k js

-- The `while` loop: from `node` on along the waits that are not passed yet, with the nodes passed
-- and the node where it stops. Each round takes away one wait.
unfoldable pub traverse : ℕ → WaitFor → String → List String → List String × String
traverse zero ws node passed = (passed, node)
traverse (suc fuel) ws node passed = elim (waits_for node ws) [
  | none ↦ (passed, node)
  | some next ↦ traverse fuel (without node ws) next (passed ++ node ∷ [])
]

without-count :
    (k b : String) (ws : WaitFor) → waits_for k ws ≡ some b → count (without k ws) + 1 ≡ count ws
unfolding without waits_for
without-count k b [] h = cc
without-count k b ((j, c) ∷ ws) h = ground (arith, without-count k b ws)

-- As many rounds as there are waits are enough: another changes nothing.
traverse-enough :
    (fuel : ℕ) (ws : WaitFor) (node : String) (passed : List String)
    → count ws ≤ fuel
    → traverse (suc fuel) ws node passed ≡ traverse fuel ws node passed
unfolding traverse waits_for
traverse-enough zero [] node passed h = refl
traverse-enough zero (w ∷ ws) node passed h = absurd (omega (arith, h))
traverse-enough (suc fuel) ws node passed h = elim (Option-cases (waits_for node ws)) [
  | inl e ↦ rw (traverse, e) refl
  | inr (next, e) ↦
      rw (traverse, e)
        (traverse-enough fuel (without node ws) next (passed ++ node ∷ [])
          (omega (arith, h, without-count node next ws e)))
]

-- `traversal[seen_index[node]:]`
unfoldable pub from_node : String → List String → List String
from_node k [] = []
from_node k (j ∷ js) = if str_eq j k then j ∷ js else from_node k js

unfoldable pub insert_text : String → List String → List String
insert_text k [] = k ∷ []
insert_text k (j ∷ js) = elim (compare k j) [ Ordering.gt ↦ j ∷ insert_text k js | _ ↦ k ∷ j ∷ js ]

unfoldable pub sorted : List String → List String
sorted [] = []
sorted (k ∷ ks) = insert_text k (sorted ks)

unfoldable pub same_texts : List String → List String → Bool
same_texts [] [] = true
same_texts (j ∷ js) (k ∷ ks) = str_eq j k && same_texts js ks
same_texts _ _ = false

unfoldable pub emitted : List String → List (List String) → Bool
emitted key [] = false
emitted key (k ∷ ks) = if same_texts k key then true else emitted key ks

module _ {F : Type 0} (arith : Arith F) (moves : Moves F) where
  abbrev pub swaps : Position F → Position F → Position F → Position F → Bool
  swaps a b next_a next_b = same_position arith moves next_a b && same_position arith moves next_b a

  -- `occupancy.get(position)`: the last AGV that stands there.
  unfoldable pub occupant : Position F → ByAgv (Position F) → Option String
  occupant p [] = none
  occupant p ((k, q) ∷ ps) =
      let here = if same_position arith moves q p then some k else none in
      elim (occupant p ps) [ some j ↦ some j | none ↦ here ]

  abbrev blocked_by : String → Option String → Option String
  blocked_by k none = none
  blocked_by k (some b) = if str_eq b "" || str_eq b k then none else some b

  abbrev add_wait : String → Option String → WaitFor → WaitFor
  add_wait k none ws = ws
  add_wait k (some b) ws = (k, b) ∷ ws

  unfoldable pub wait_for : ByAgv (Position F) → ByAgv (Position F) → ByAgv (Position F) → WaitFor
  wait_for now [] next = []
  wait_for now ((k, p) ∷ ps) next =
      let q = get_agv k p next in
      let ws = wait_for now ps next in
      if same_position arith moves q p then ws else add_wait k (blocked_by k (occupant q now)) ws

  -- Two AGVs that change places, which the edge conflicts report.
  abbrev is_swap : ByAgv (Position F) → ByAgv (Position F) → List String → Bool
  is_swap now next (a ∷ b ∷ []) =
      let origin : Position F = (int (pos 0), int (pos 0)) in
      let p = get_agv a origin now in
      let q = get_agv b origin now in swaps p q (get_agv a p next) (get_agv b q next)
  is_swap now next _ = false

  abbrev pub reported :
      ByAgv (Position F) → ByAgv (Position F) → List (List String) → List String → Bool
  reported now next keys cycle =
      leb 2 (count cycle) && not (is_swap now next cycle) && not (emitted (sorted cycle) keys)

  -- The loop over the AGVs that wait.
  unfoldable pub cycles :
      ByAgv (Position F)
      → ByAgv (Position F)
      → WaitFor
      → WaitFor
      → List String
      → List (List String)
      → List Violation
  cycles now next ws [] visited keys = []
  cycles now next ws ((start, b) ∷ starts) visited keys =
      let (passed, node) = traverse (count ws) ws start [] in
      let cycle = from_node node passed in
      let skip = cycles now next ws starts in
      if contains start visited
      then skip visited keys
      else (if reported now next keys cycle
          then deadlock_cycle cycle ∷ skip (visited ++ passed) (sorted cycle ∷ keys)
          else skip (visited ++ passed) keys)

  unfoldable pub detect_deadlock_cycles : ByAgv (Position F) → ByAgv (Position F) → List Violation
  detect_deadlock_cycles now next = let ws = wait_for now now next in cycles now next ws ws [] []
