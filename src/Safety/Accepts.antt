-- ===== src/Safety/Accepts.antt =====
-- What a SAFE answer of the Safety Cluster rests on.
use pcag.Core.Rules.Decides.{validate_rules_iff}
use pcag.Core.Consensus.Modes.{unanimity}
use pcag.Core.Rules.Verdicts.{AllSatisfied}
use pcag.Core.Cbf.Margins.{validate_safety-AllKept, KeptAlong, AllKept, DistinctIds}
use pcag.Core.Cbf.InBounds.{NumberLaws}
use pcag.Core.Rules.{Rule, RuleViolation}
use pcag.Safety.{
  cbf_actions, run_rules_validator, on_sim, judged, items_of, run_simulation_validator,
  build_consensus_config, consensus_mode, all_allowed, run_cbf_validator, run_safety_validation,
  ConsensusDict, build_ruleset, SafetyResult, AssetPolicy, rules_verdict, Backends, run_validators,
}
use pcag.Core.Consensus.{
  evaluate_consensus, weighted, ConsensusConfig, effective_mode, Verdict, safe, Floats,
}
use pcag.Core.Cbf.{validate_safety, StateMapping, Limits}
use pcag.Core.Json.{obj, Fields, Arith}
use pcag.Base.{
  bound, ap, sym, ◌∙◌, Bool-cases, step_of, ◌≡◌, ◌≢◌, inl, inr, refl, true, none, some, List, [],
  ◌∷◌,
}

module _ {F : Type 0} (arith : Arith F) (limits : Limits F) (floats : Floats F) where
  rules_verdict-safe :
      (vs : List RuleViolation) → rules_verdict arith limits floats vs ≡ safe → vs ≡ []
  rules_verdict-safe [] h = refl
  rules_verdict-safe (v ∷ vs) h = cc

  -- Three verdicts and a configuration that the answer is made from.
  abbrev pub Judged :
      Backends F
      → AssetPolicy F
      → List StateMapping
      → Fields F
      → List (Fields F)
      → SafetyResult F
      → Type 0
  Judged b policy ms state as' r =
      (rules : List (Rule F)) × (cbf : Verdict) × (sim : Verdict) × (config : ConsensusConfig F)
      × (build_ruleset b.parse_rule policy.ruleset_raw ≡ some rules)
      × (run_cbf_validator arith limits floats state as' rules ms ≡ some cbf)
      × (run_simulation_validator b policy.simulation state as' rules ≡ some sim)
      × (build_consensus_config arith limits floats policy.consensus ≡ some config)
      × (r
          ≡ judged arith limits floats (
              evaluate_consensus floats policy.sil_level config
                (run_rules_validator arith limits floats state as' rules) cbf sim))

  run_validators-Judged :
      (b : Backends F) (policy : AssetPolicy F) (ms : List StateMapping) (state : Fields F)
      → (as' : List (Fields F)) (r : SafetyResult F)
      → run_validators arith limits floats b policy ms state as' ≡ some r
      → Judged b policy ms state as' r
  unfolding run_validators
  run_validators-Judged b policy ms state as' r h =
      let (rules, p, h1) = step_of (build_ruleset b.parse_rule policy.ruleset_raw) _ r h in
      let (cbf, q, h2) =
        step_of (run_cbf_validator arith limits floats state as' rules ms) _ r h1 in
      let (sim, s, h3) =
        step_of (run_simulation_validator b policy.simulation state as' rules) _ r h2 in
      let (config, t, h4) =
        step_of (build_consensus_config arith limits floats policy.consensus) _ r h3 in
      (rules, cbf, sim, config, p, q, s, t, cc)

  -- The mappings are not empty: else the service raises.
  mapped-Judged :
      (b : Backends F) (policy : AssetPolicy F) (ms : List StateMapping) (state : Fields F)
      → (as' : List (Fields F)) (r : SafetyResult F)
      → (elim ms [
        | [] ↦ none
        | m ∷ rest ↦ run_validators arith limits floats b policy (m ∷ rest) state as'
      ])
        ≡ some r
      → Judged b policy ms state as' r
  mapped-Judged b policy [] state as' r h = cc
  mapped-Judged b policy (m ∷ ms) state as' r h =
      run_validators-Judged b policy (m ∷ ms) state as' r h

  run_safety-Judged :
      (b : Backends F) (policy : AssetPolicy F) (ms : List StateMapping) (state : Fields F)
      → (as' : List (Fields F)) (r : SafetyResult F)
      → run_safety_validation arith limits floats b policy ms state as' ≡ some r
      → r.final_verdict ≡ safe
      → (all_allowed policy.allowed_action_types as' ≡ true) × Judged b policy ms state as' r
  unfolding run_safety_validation
  run_safety-Judged b policy ms state as' r h v =
      elim (Bool-cases (all_allowed policy.allowed_action_types as')) [
        | inr e ↦ cc
        | inl e ↦ (e, mapped-Judged b policy ms state as' r (rw (run_safety_validation, e) at h))
      ]

  config-mode :
      (d : ConsensusDict F) (config : ConsensusConfig F)
      → build_consensus_config arith limits floats d ≡ some config
      → config.mode ≡ consensus_mode d.mode
  config-mode d config h =
      let (o, p, q) = bound (on_sim d.on_sim_indeterminate) _ config h in ap (λ c. c.mode) (sym q)

  -- What the validators have found when the answer is SAFE.
  abbrev pub Accepted :
      (laws : NumberLaws arith limits)
      → Backends F
      → AssetPolicy F
      → List StateMapping
      → Fields F
      → List (Fields F)
      → Type 0
  Accepted laws b policy ms state as' =
      (rules : List (Rule F)) × (build_ruleset b.parse_rule policy.ruleset_raw ≡ some rules)
      × AllSatisfied arith rules (obj state) (items_of as')
      × (DistinctIds rules
          → AllKept arith limits laws (obj state) rules
            × KeptAlong arith limits laws rules ms (cbf_actions as') state)
      × (run_simulation_validator b policy.simulation state as' rules ≡ some safe)

  -- If the Safety Cluster answers SAFE and its consensus is not in the mode WEIGHTED, every action
  -- has a listed type, if any are listed, every rule of the profile that parses is satisfied by the
  -- state and the actions, the simulation answered SAFE for these rules, and, if no two of them have
  -- one identifier, each is kept by the current and by every projected state. Entries of the profile
  -- that do not parse are not among the rules. No number is a NaN (NumberLaws).
  pub run_safety_validation-Accepted :
      (laws : NumberLaws arith limits) (b : Backends F) (policy : AssetPolicy F)
      → (ms : List StateMapping) (state : Fields F) (as' : List (Fields F)) (r : SafetyResult F)
      → run_safety_validation arith limits floats b policy ms state as' ≡ some r
      → r.final_verdict ≡ safe
      → effective_mode policy.sil_level (consensus_mode policy.consensus.mode) ≢ weighted
      → (all_allowed policy.allowed_action_types as' ≡ true) × Accepted laws b policy ms state as'
  run_safety_validation-Accepted laws b policy ms state as' r h v w =
      let (e, (rules, cbf, sim, config, p, q, s, t, u)) =
        run_safety-Judged b policy ms state as' r h v in
      let m : effective_mode policy.sil_level config.mode ≢ weighted =
        rw (config-mode policy.consensus config t) w in
      let (x, y, z) =
        (unanimity floats policy.sil_level config _ cbf sim m).0
          (sym (ap (λ c. c.final_verdict) u) ∙ v) in
      let (res, i, j) =
        bound (validate_safety arith limits state (cbf_actions as') rules ms) (λ c. c.verdict) cbf
          q in
      (
        e,
        (
          rules,
          p,
          (validate_rules_iff arith (obj state) (items_of as') rules).0 (rules_verdict-safe _ x),
          (λ d.
              validate_safety-AllKept arith limits laws state (cbf_actions as') rules ms res d i
                (j ∙ y)),
          s ∙ ap some z,
        ),
      )
