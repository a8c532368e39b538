-- ===== src/Reactor/Sound.antt =====
-- A SAFE verdict rests on a whole simulation whose states all keep to the rules.
use pcag.Reactor.Validate.{
  first_scan, fractions, current_values, validate_trajectory, make_result, rendered, finish,
  run_all, after_solve, run,
}
use pcag.Reactor.Bounds.{check_constraints-Within, Within}
use pcag.Core.Int.{pos, ◌+ℤ◌, ℤ}
use pcag.Reactor.{check_constraints, Broken, Values, Numerics}
use pcag.Base.{
  bound, step_of, nil_of_append, ◌>>=◌, ℕ, ◌+◌, ◌≡◌, refl, sym, ap, arith, Bool, true, false,
  Option, none, some, List, [], ◌∷◌, ◌++◌, ◌∙◌, if◌then◌else◌,
}
use pcag.Core.Consensus.{safe, indeterminate}
use pcag.Core.Json.{Json, Number, Fields, Arith, lookup}
use pcag.Reactor.Simulation.{
  ending_verdict, Result, Violation, count, record_segment, max_one, or_empty,
  apply_action_controls, floor_div, drop_first, int_or, action_dict, solve_segment, values_at,
  Solver, with_violation, Viewer, Sample, Integrator, record_samples, completed, solver_failed,
  timed_out, Ending, Scan,
}

module _ {F : Type 0} (ops : Arith F) (numerics : Numerics F) where
  -- The states after the first of a segment, and the last of them.
  abbrev pub states : Number F → Number F → List (Sample F) → List (Values F)
  states h c [] = []
  states h c (x ∷ xs) = values_at ops numerics h c x ∷ states h c xs

  abbrev pub last_state : Values F → List (Values F) → Values F
  last_state now [] = now
  last_state now (v ∷ vs) = last_state v vs

  abbrev pub AllWithin : List (Fields F) → List (Values F) → Type 0
  AllWithin rules [] = Unit {0}
  AllWithin rules (v ∷ vs) = Within ops numerics v rules × AllWithin rules vs

  AllWithin-append :
      (rules : List (Fields F)) (vs ws : List (Values F))
      → AllWithin rules vs
      → AllWithin rules ws
      → AllWithin rules (vs ++ ws)
  AllWithin-append rules [] ws h k = k
  AllWithin-append rules (v ∷ vs) ws h k = (h.0, AllWithin-append rules vs ws h.1 k)

  current-with_violation :
      (step : ℕ) (t : ℤ) (b : Option (Broken F)) (scan : Scan F)
      → (with_violation ops numerics step t b scan).current ≡ scan.current
  current-with_violation step t none scan = refl
  current-with_violation step t (some b) scan = refl

  none_added :
      (step : ℕ) (t : ℤ) (b : Option (Broken F)) (scan : Scan F)
      → (with_violation ops numerics step t b scan).violations ≡ []
      → (b ≡ none) × (scan.violations ≡ [])
  none_added step t none scan h = (refl, h)
  none_added step t (some b) scan h = cc (nil_of_append scan.violations _ h).1

  record_samples-current :
      (rules : List (Fields F)) (total : ℤ) (step : ℕ) (h c : Number F) (xs : List (Sample F))
      → (scan out : Scan F) → record_samples ops numerics rules total step h c xs scan ≡ some out
      → out.current ≡ last_state scan.current (states h c xs)
  unfolding record_samples
  record_samples-current rules total step h c [] scan out e = cc
  record_samples-current rules total step h c (x ∷ xs) scan out e =
      let (b, p, q) =
        step_of (check_constraints ops numerics (values_at ops numerics h c x) rules) _ out e in
      record_samples-current rules total step h c xs _ out q
      ∙ ap (λ (v : Values F). last_state v (states h c xs)) (current-with_violation step _ b _)

  record_samples-AllWithin :
      (rules : List (Fields F)) (total : ℤ) (step : ℕ) (h c : Number F) (xs : List (Sample F))
      → (scan out : Scan F) → record_samples ops numerics rules total step h c xs scan ≡ some out
      → out.violations ≡ []
      → (scan.violations ≡ []) × AllWithin rules (states h c xs)
  unfolding record_samples
  record_samples-AllWithin rules total step h c [] scan out e n = (ground (arith, e, n), tt)
  record_samples-AllWithin rules total step h c (x ∷ xs) scan out e n =
      let v = values_at ops numerics h c x in
      let (b, p, q) = step_of (check_constraints ops numerics v rules) _ out e in
      let (k, all) = record_samples-AllWithin rules total step h c xs _ out q n in
      let (none_found, before) = none_added step _ b _ k in
      (
        before,
        (
          check_constraints-Within ops numerics v rules
              (p ∙ ap (λ (t : Option (Broken F)). some t) none_found),
          all,
        ),
      )

module _ {F : Type 0} where
  in_time :
      (b : Bool) (scan out : Scan F) (rest : Option (Ending × Scan F))
      → (if b then some (timed_out, scan) else rest) ≡ some (completed, out)
      → rest ≡ some (completed, out)
  in_time true scan out rest h = cc
  in_time false scan out rest h = h

  no_violations :
      (ending : Ending) (vs : List (Violation F))
      → ending_verdict ending (count vs) ≡ safe
      → (ending ≡ completed) × (vs ≡ [])
  unfolding count
  no_violations completed [] h = (refl, refl)
  no_violations completed (v ∷ vs) h = cc
  no_violations solver_failed vs h = cc
  no_violations timed_out vs h = cc

module _ {F : Type 0} (ops : Arith F) (numerics : Numerics F) where
  -- A simulation that is complete, and what its states keep to.
  abbrev pub Sound : List (Fields F) → Option (List (Values F)) → Type 0
  Sound rules o = (vs : List (Values F)) × (o ≡ some vs) × AllWithin ops numerics rules vs

  solved :
      (rules : List (Fields F)) (total : ℤ) (step : ℕ) (fracs : Number F × Number F)
      → (scan out : Scan F) (k : Scan F → Option (Ending × Scan F)) (o : Option (List (Sample F)))
      → after_solve ops numerics rules total step fracs scan k o ≡ some (completed, out)
      → (samples : List (Sample F)) × (scan' : Scan F) × (o ≡ some samples)
        × (record_segment ops numerics rules total step fracs.0 fracs.1 samples scan ≡ some scan')
        × (k scan' ≡ some (completed, out))
  solved rules total step fracs scan out k none e = cc
  solved rules total step fracs scan out k (some samples) e =
      let (scan', er, ek) =
        step_of (record_segment ops numerics rules total step fracs.0 fracs.1 samples scan) k
          (completed, out) e in
      (samples, scan', refl, er, ek)

module _ {F : Type 0} (ops : Arith F) (numerics : Numerics F) (solve_ivp : Integrator F) where
  -- The states that the actions lead through, if every segment is solved; nothing is checked.
  unfoldable pub simulated :
      Solver F → ℤ → List (Json F) → Number F × Number F → Values F → Option (List (Values F))
  simulated s default [] fracs now = some []
  simulated s default (a ∷ as') fracs now = do
    action ← action_dict ops numerics a
    duration ← int_or ops numerics default (lookup "duration_ms" action)
    fracs' ←
        apply_action_controls ops numerics (lookup "action_type" action)
          (or_empty ops numerics (lookup "params" action)) fracs.0 fracs.1
    samples ← solve_segment ops numerics solve_ivp s fracs'.0 fracs'.1 now duration
    let passed = states ops numerics fracs'.0 fracs'.1 (drop_first samples)
    rest ← simulated s default as' fracs' (last_state ops numerics now passed)
    some (passed ++ rest)

  unfoldable pub simulated_all :
      Solver F → List (Json F) → Number F × Number F → Values F → Option (List (Values F))
  simulated_all s [] fracs now = do
    samples ← solve_segment ops numerics solve_ivp s fracs.0 fracs.1 now s.horizon_ms
    some (states ops numerics fracs.0 fracs.1 (drop_first samples))
  simulated_all s (a ∷ as') fracs now =
      simulated s (floor_div s.horizon_ms (max_one (count (a ∷ as')))) (a ∷ as') fracs now

  simulated-cons :
      (s : Solver F) (default : ℤ) (a : Json F) (as' : List (Json F))
      (fracs fracs' : Number F × Number F)
      → (now next : Values F) (action : Fields F) (duration : ℤ) (samples : List (Sample F))
      → (vs : List (Values F)) → action_dict ops numerics a ≡ some action
      → int_or ops numerics default (lookup "duration_ms" action) ≡ some duration
      → apply_action_controls ops numerics
          (lookup "action_type" action)
          (or_empty ops numerics (lookup "params" action))
          fracs.0
          fracs.1
        ≡ some fracs'
      → solve_segment ops numerics solve_ivp s fracs'.0 fracs'.1 now duration ≡ some samples
      → next
        ≡ last_state ops numerics now (states ops numerics fracs'.0 fracs'.1 (drop_first samples))
      → simulated s default as' fracs' next ≡ some vs
      → simulated s default (a ∷ as') fracs now
        ≡ some (states ops numerics fracs'.0 fracs'.1 (drop_first samples) ++ vs)
  unfolding simulated
  simulated-cons s default a as' fracs fracs' now next action duration samples vs ea ed ef es en
        ev =
      let rest = ap (λ (t : Values F). simulated s default as' fracs' t) (sym en) ∙ ev in
      rw (simulated, ea, ed, ef, es, rest) refl

module _ {F : Type 0} (ops : Arith F) (numerics : Numerics F) (solve_ivp : Integrator F)
    (late : ℕ → Bool) where
  run-Sound :
      (s : Solver F) (rules : List (Fields F)) (default : ℤ) (actions : List (Json F)) (step : ℕ)
      → (total : ℤ) (fracs : Number F × Number F) (scan out : Scan F)
      → run ops numerics solve_ivp late s rules default actions step total fracs scan
        ≡ some (completed, out)
      → out.violations ≡ []
      → (scan.violations ≡ [])
        × Sound ops numerics rules
            (simulated ops numerics solve_ivp s default actions fracs scan.current)
  unfolding run simulated
  run-Sound s rules default [] step total fracs scan out e n =
      (ground (arith, e, n), ([], refl, tt))
  run-Sound s rules default (a ∷ as') step total fracs scan out e n =
      let (action, ea, e1) = step_of (action_dict ops numerics a) _ (completed, out) e in
      let (duration, ed, e2) =
        step_of (int_or ops numerics default (lookup "duration_ms" action)) _ (completed, out) e1 in
      let (fracs', ef, e3) =
        step_of
          (apply_action_controls ops numerics (lookup "action_type" action)
            (or_empty ops numerics (lookup "params" action)) fracs.0 fracs.1)
          _ (completed, out) e2 in
      let (samples, scan', es, er, e4) =
        solved ops numerics rules total step fracs' scan out _ _ e3 in
      let (n1, (vs, ev, all)) =
        run-Sound s rules default as' (step + 1) (total +ℤ duration) fracs' scan' out
          (in_time (late step) scan' out _ e4) n in
      let passed = drop_first samples in
      let (n0, here) =
        record_samples-AllWithin ops numerics rules total step fracs'.0 fracs'.1 passed scan scan'
          er n1 in
      (
        n0,
        (
          states ops numerics fracs'.0 fracs'.1 passed ++ vs,
          simulated-cons ops numerics solve_ivp s default a as' fracs fracs' scan.current
              scan'.current action duration samples vs ea ed ef es
              (record_samples-current ops numerics rules total step fracs'.0 fracs'.1 passed scan
                scan' er)
              ev,
          AllWithin-append ops numerics rules _ vs here all,
        ),
      )

  run_all-Sound :
      (s : Solver F) (rules : List (Fields F)) (actions : List (Json F))
      → (fracs : Number F × Number F) (scan out : Scan F)
      → run_all ops numerics solve_ivp late s rules actions fracs scan ≡ some (completed, out)
      → out.violations ≡ []
      → Sound ops numerics rules (simulated_all ops numerics solve_ivp s actions fracs scan.current)
  unfolding run_all simulated_all
  run_all-Sound s rules [] fracs scan out e n =
      let (samples, scan', es, er, ek) = solved ops numerics rules (pos 0) 0 fracs scan out _ _ e in
      let same : scan'.violations ≡ [] = ground (arith, ek, n) in
      let (n0, here) =
        record_samples-AllWithin ops numerics rules (pos 0) 0 fracs.0 fracs.1 (drop_first samples)
          scan scan' er same in
      (states ops numerics fracs.0 fracs.1 (drop_first samples), rw es refl, here)
  run_all-Sound s rules (a ∷ as') fracs scan out e n =
      (run-Sound s rules _ (a ∷ as') 0 (pos 0) fracs scan out e n).1

module _ {F : Type 0} (ops : Arith F) (numerics : Numerics F) (viewer : Viewer F) where
  finish-completed :
      (rules : List (Fields F)) (ending : Ending) (scan : Scan F) (result : Result F)
      → finish ops numerics viewer rules (ending, scan) ≡ some result
      → result.verdict ≡ safe
      → (ending ≡ completed) × (scan.violations ≡ [])
  finish-completed rules completed scan result e h =
      let (shown, _, k) =
        bound
          (rendered ops numerics viewer rules (ending_verdict completed (count scan.violations))
            scan)
          (make_result ops numerics completed scan) result e in
      no_violations completed scan.violations (ap (λ (r : Result F). r.verdict) k ∙ h)
  finish-completed rules solver_failed scan result e h =
      let k : make_result ops numerics solver_failed scan false ≡ result = cc in
      let v : indeterminate ≡ safe = ap (λ (r : Result F). r.verdict) k ∙ h in cc
  finish-completed rules timed_out scan result e h =
      let k : make_result ops numerics timed_out scan false ≡ result = cc in
      let v : indeterminate ≡ safe = ap (λ (r : Result F). r.verdict) k ∙ h in cc

module _ {F : Type 0} (ops : Arith F) (numerics : Numerics F) (solve_ivp : Integrator F)
    (viewer : Viewer F) (late : ℕ → Bool) where
  -- If the simulation of an initialized solver ends with the verdict SAFE, then the current state has
  -- its four values, every segment of the actions, or of the horizon without actions, was solved, and
  -- each state after the first of its segment has every field that a rule is on in the rule's interval.
  -- Of the current state itself, where the first segment starts, this is not said.
  pub validate_trajectory-Sound :
      (s s' : Solver F) (state : Fields F) (actions : List (Json F)) (rules : List (Fields F))
      → (result : Result F) → s.initialized ≡ true
      → validate_trajectory ops numerics solve_ivp viewer late s state actions rules
        ≡ some (s', result)
      → result.verdict ≡ safe
      → (now : Values F) × (current_values ops numerics state ≡ some now)
        × Sound ops numerics rules
            (simulated_all ops numerics solve_ivp s actions (fractions ops numerics now) now)
  unfolding validate_trajectory
  validate_trajectory-Sound s s' state actions rules result i e h =
      let e0 = simp i at e in
      let (now, en, e1) = step_of (current_values ops numerics state) _ (s', result) e0 in
      let ((ending, out), er, e2) =
        step_of
          (run_all ops numerics solve_ivp late s rules actions (fractions ops numerics now)
            (first_scan ops numerics now))
          _ (s', result) e1 in
      let (r, ef, e3) = bound (finish ops numerics viewer rules (ending, out)) _ (s', result) e2 in
      let same : r ≡ result = cc in
      let (c, n) =
        finish-completed ops numerics viewer rules ending out r ef
          (ap (λ (t : Result F). t.verdict) same ∙ h) in
      (
        now,
        en,
        run_all-Sound ops numerics solve_ivp late s rules actions (fractions ops numerics now)
            (first_scan ops numerics now) out (er ∙ ap (λ (t : Ending). some (t, out)) c) n,
      )
