-- ===== src/Safety.antt =====
-- pcag/apps/safety_cluster/service.py: `run_safety_validation`, which runs the rules validator, the
-- CBF validator and a simulation backend on a request and combines their verdicts. An exception is
-- `none`; the explanations, the details of the validators and the times are left out.
pub mod Accepts
mod Tests
use pcag.Core.Cbf.{validate_safety, StateMapping, CbfAction, Limits}
use pcag.Core.Rules.{validate_rules, RuleViolation, Rule}
use pcag.Core.Consensus.{
  ignore, evaluate_consensus, worst_case, unsafe, safe, weighted, treat_as_unsafe, ConsensusConfig,
  indeterminate, fail_closed, all_of, Floats, ConsensusResult, renormalize, auto, Weights, Verdict,
  OnSimIndeterminate, ConsensusMode,
}
use pcag.Core.Json.{cons, str, obj, lookup, Arith, Items, Json, Fields, nil, end}
use pcag.Base.{
  weight, ◌>>=◌, ℕ, ◌+◌, ◌≤◌, ◌<◌, ◌≡◌, ◌≢◌, ◌↔◌, ◌⊎◌, inl, inr, refl, sym, ap, arith, zero, suc,
  String, Bool, true, false, not, ◌&&◌, ◌||◌, Option, none, some, List, [], ◌∷◌, ◌++◌, ◌∙◌, str_eq,
  eq_iff, if◌then◌else◌, Bool-cases, Option-cases, ltb, leb, ◌==◌,
}

-- The section `consensus` of a profile, with what is missing as `none`.
pub record ConsensusDict (F : Type 0) : Type 0 where
  pub mode : Option String
  pub weights : Option (Weights F)
  pub threshold : Option F
  pub on_sim_indeterminate : Option String

-- The parts of an asset's profile that the service reads.
pub record AssetPolicy (F : Type 0) : Type 0 where
  pub allowed_action_types : List String
  pub sil_level : ℕ
  pub consensus : ConsensusDict F
  pub ruleset_raw : Items F
  pub simulation : Fields F

-- What one simulation backend does with a configuration, the state, the actions and the rules: an
-- answer, or an exception. `isaac` is `none` while the backend is not connected. `configure` is
-- `build_runtime_sim_config` with the runtime context of the request, and `parse_rule` is
-- `Rule(**item)`.
abbrev pub Backend : Type 0 → Type 0
Backend F = Fields F → Fields F → List (Fields F) → List (Rule F) → Option Verdict

pub record Backends (F : Type 0) : Type 0 where
  pub configure : Fields F → Option (Fields F)
  pub ode : Backend F
  pub discrete_event : Backend F
  pub isaac : Option (Backend F)
  pub parse_rule : Fields F → Option (Rule F)

pub record SafetyResult (F : Type 0) : Type 0 where
  pub final_verdict : Verdict
  -- `none` is FAIL_CLOSED before any validator has run
  pub consensus : Option (ConsensusResult F)

unfoldable pub member : String → List String → Bool
member k [] = false
member k (j ∷ js) = if str_eq j k then true else member k js

module _ {F : Type 0} where
  -- `action.get("action_type", "")`
  abbrev action_type : Fields F → Json F
  action_type a = elim (lookup "action_type" a) [ none ↦ str "" | some t ↦ t ]

  abbrev listed : Json F → List String → Bool
  listed (str t) allowed = member t allowed
  listed _ allowed = false

  unfoldable pub all_listed : List String → List (Fields F) → Bool
  all_listed allowed [] = true
  all_listed allowed (a ∷ as') = listed (action_type a) allowed && all_listed allowed as'

  -- An empty list allows every action.
  abbrev pub all_allowed : List String → List (Fields F) → Bool
  all_allowed [] as' = true
  all_allowed (t ∷ ts) as' = all_listed (t ∷ ts) as'

  unfoldable pub items_of : List (Fields F) → Items F
  items_of [] = nil
  items_of (a ∷ as') = cons (obj a) (items_of as')

  -- `action.get("params", {})`
  abbrev params_of : Option (Json F) → Json F
  params_of none = obj end
  params_of (some v) = v

  unfoldable pub cbf_actions : List (Fields F) → List (CbfAction F)
  cbf_actions [] = []
  cbf_actions (a ∷ as') =
      record { action_type = action_type a; params = params_of (lookup "params" a) }
      ∷ cbf_actions as'

  abbrev keep_valid : Option (Rule F) → List (Rule F) → List (Rule F)
  keep_valid none rs = rs
  keep_valid (some r) rs = r ∷ rs

  -- `_build_ruleset`: a dictionary that is no rule is skipped. What is no dictionary stays, and
  -- makes the validators raise.
  unfoldable pub build_ruleset : (Fields F → Option (Rule F)) → Items F → Option (List (Rule F))
  build_ruleset parse nil = some []
  build_ruleset parse (cons (obj fs) items) =
      build_ruleset parse items >>= λ rs. some (keep_valid (parse fs) rs)
  build_ruleset parse (cons x items) = none

  abbrev run_if : Option (Backend F) → Backend F
  run_if none config state as' rules = none
  run_if (some backend) config state as' rules = backend config state as' rules

  abbrev engine_of : Fields F → Json F
  engine_of config = elim (lookup "engine" config) [ none ↦ str "none" | some e ↦ e ]

  abbrev backend_named : Backends F → Json F → Backend F
  backend_named b (str e) =
      if str_eq e "ode_solver"
      then b.ode
      else if str_eq e "isaac_sim"
      then run_if b.isaac
      else if str_eq e "discrete_event"
      then b.discrete_event
      else if str_eq e "none"
      then (λ config state as' rules. some indeterminate)
      else (λ config state as' rules. none)
  backend_named b _ = λ config state as' rules. none

  -- `_run_simulation_validator`, with `_resolve_simulation_backend`.
  unfoldable pub run_simulation_validator :
      Backends F → Fields F → Fields F → List (Fields F) → List (Rule F) → Option Verdict
  run_simulation_validator b sim_config state as' rules =
      b.configure sim_config >>= λ config. backend_named b (engine_of config) config state as' rules

abbrev pub consensus_mode : Option String → ConsensusMode
consensus_mode none = auto
consensus_mode (some m) =
    if str_eq m "AND"
    then all_of
    else if str_eq m "WEIGHTED"
    then weighted
    else if str_eq m "WORST_CASE"
    then worst_case
    else auto

-- A text that is none of these is a validation error.
abbrev pub on_sim : Option String → Option OnSimIndeterminate
on_sim none = some renormalize
on_sim (some o) =
    if str_eq o "RENORMALIZE"
    then some renormalize
    else if str_eq o "FAIL_CLOSED"
    then some fail_closed
    else if str_eq o "TREAT_AS_UNSAFE"
    then some treat_as_unsafe
    else if str_eq o "IGNORE"
    then some ignore
    else none

module _ {F : Type 0} (arith : Arith F) (limits : Limits F) (floats : Floats F) where
  abbrev weights_or : Option (Weights F) → Weights F
  weights_or none =
      ("rules", floats.default_rules)
      ∷ ("cbf", floats.default_cbf)
      ∷ ("sim", floats.default_sim)
      ∷ []
  weights_or (some ws) = ws

  abbrev threshold_or : Option F → F
  threshold_or none = floats.half
  threshold_or (some t) = t

  abbrev pub build_consensus_config : ConsensusDict F → Option (ConsensusConfig F)
  build_consensus_config d = on_sim d.on_sim_indeterminate >>= λ o. some (record {
    mode = consensus_mode d.mode;
    weights = some (weights_or d.weights);
    threshold = some (threshold_or d.threshold);
    on_sim_indeterminate = o;
  })

  abbrev pub rules_verdict : List RuleViolation → Verdict
  rules_verdict [] = safe
  rules_verdict (v ∷ vs) = unsafe

  -- `_run_rules_validator`
  abbrev pub run_rules_validator : Fields F → List (Fields F) → List (Rule F) → Verdict
  run_rules_validator state as' rules =
      rules_verdict (validate_rules arith (obj state) (items_of as') rules)

  -- `_run_cbf_validator`
  abbrev pub run_cbf_validator :
      Fields F → List (Fields F) → List (Rule F) → List StateMapping → Option Verdict
  run_cbf_validator state as' rules ms =
      validate_safety arith limits state (cbf_actions as') rules ms >>= λ r. some r.verdict

  abbrev pub judged : ConsensusResult F → SafetyResult F
  judged r = record { final_verdict = r.final_verdict; consensus = some r }

  -- The validators, one after the other, and the consensus.
  unfoldable pub run_validators :
      Backends F
      → AssetPolicy F
      → List StateMapping
      → Fields F
      → List (Fields F)
      → Option (SafetyResult F)
  run_validators b policy ms state as' = do
    rules ← build_ruleset b.parse_rule policy.ruleset_raw
    cbf ← run_cbf_validator state as' rules ms
    sim ← run_simulation_validator b policy.simulation state as' rules
    config ← build_consensus_config policy.consensus
    some (
        judged (
          evaluate_consensus floats policy.sil_level config (run_rules_validator state as' rules)
            cbf sim))

  -- `run_safety_validation`, from the profile on.
  unfoldable pub run_safety_validation :
      Backends F
      → AssetPolicy F
      → List StateMapping
      → Fields F
      → List (Fields F)
      → Option (SafetyResult F)
  run_safety_validation b policy ms state as' =
      if all_allowed policy.allowed_action_types as'
      then (elim ms [ [] ↦ none | m ∷ rest ↦ run_validators b policy (m ∷ rest) state as' ])
      else some (record { final_verdict = unsafe; consensus = none })
