-- ===== src/Core/Consensus.antt =====
-- pcag/core/services/consensus_engine.py, with its models of pcag/core/models/common.py. The
-- floats are a parameter, with the operations and literals that the engine uses.
pub mod Modes
pub mod Monotone
use pcag.Base.{
  ℕ, suc, zero, String, Bool, true, false, ◌&&◌, ◌||◌, Option, none, some, List, [], ◌∷◌, leb, ◌==◌,
  str_eq, if◌then◌else◌,
}

pub data Verdict : Type 0 where
  safe unsafe indeterminate : Verdict

pub data ConsensusMode : Type 0 where
  auto all_of weighted worst_case : ConsensusMode

pub data OnSimIndeterminate : Type 0 where
  fail_closed renormalize treat_as_unsafe ignore : OnSimIndeterminate

-- The operations on floats, and the literals 0.0, 1.0, 0.5 and the default weights.
pub record Floats (F : Type 0) : Type 0 where
  pub add : F → F → F
  pub mul : F → F → F
  pub div : F → F → F
  pub leb : F → F → Bool
  pub is_positive : F → Bool
  pub zero : F
  pub one : F
  pub half : F
  pub default_rules : F
  pub default_cbf : F
  pub default_sim : F

abbrev pub Weights : Type 0 → Type 0
Weights F = List (String × F)

pub record ConsensusConfig (F : Type 0) : Type 0 where
  pub mode : ConsensusMode
  pub weights : Option (Weights F)
  pub threshold : Option F
  pub on_sim_indeterminate : OnSimIndeterminate

-- The explanation is left out.
pub record ConsensusResult (F : Type 0) : Type 0 where
  pub final_verdict : Verdict
  -- `none` is "UNKNOWN"
  pub mode_used : Option ConsensusMode
  pub weights_used : Option (Weights F)
  pub score : Option F
  pub threshold : Option F

abbrev pub is_safe : Verdict → Bool
is_safe safe = true
is_safe _ = false

abbrev pub is_unsafe : Verdict → Bool
is_unsafe unsafe = true
is_unsafe _ = false

abbrev pub is_indeterminate : Verdict → Bool
is_indeterminate indeterminate = true
is_indeterminate _ = false

-- The mode in effect: AUTO goes by the safety integrity level.
unfoldable pub effective_mode : ℕ → ConsensusMode → ConsensusMode
effective_mode sil auto = if leb 3 sil then all_of else if sil == 2 then weighted else worst_case
effective_mode sil mode = mode

abbrev verdict : Bool → Verdict
verdict true = safe
verdict false = unsafe

module _ {F : Type 0} (f : Floats F) where
  -- `weights.pop("sim", 0.0)`
  unfoldable pub without_sim : Weights F → Weights F
  without_sim [] = []
  without_sim ((k, w) ∷ ws) = if str_eq k "sim" then ws else (k, w) ∷ without_sim ws

  unfoldable pub sum_from : F → Weights F → F
  sum_from acc [] = acc
  sum_from acc ((k, w) ∷ ws) = sum_from (f.add acc w) ws

  unfoldable pub divide_all : F → Weights F → Weights F
  divide_all total [] = []
  divide_all total ((k, w) ∷ ws) = (k, f.div w total) ∷ divide_all total ws

  unfoldable pub renormalized : Weights F → Weights F
  renormalized ws =
      let rest = without_sim ws in
      let total = sum_from f.zero rest in
      if f.is_positive total then divide_all total rest else rest

  -- `config.weights or {…}`
  unfoldable pub configured : Option (Weights F) → Weights F
  configured (some (w ∷ ws)) = w ∷ ws
  configured _ = ("rules", f.default_rules) ∷ ("cbf", f.default_cbf) ∷ ("sim", f.default_sim) ∷ []

  abbrev effective : OnSimIndeterminate → Verdict → Weights F → Weights F
  effective renormalize indeterminate ws = renormalized ws
  effective _ _ ws = ws

  abbrev pub value : Verdict → F
  value safe = f.one
  value _ = f.zero

  unfoldable pub find : String → Weights F → Option F
  find k [] = none
  find k ((j, w) ∷ ws) = if str_eq j k then some w else find k ws

  -- `if key in weights: score += weights[key] * value`
  abbrev pub plus : F → Option F → F → F
  plus score none v = score
  plus score (some w) v = f.add score (f.mul w v)

  unfoldable pub score_of : Weights F → Verdict → Verdict → Verdict → F
  score_of ws rules cbf sim =
      plus (plus (plus f.zero (find "rules" ws) (value rules)) (find "cbf" ws) (value cbf))
        (find "sim" ws) (value sim)

  abbrev pub threshold_of : Option F → F
  threshold_of none = f.half
  threshold_of (some t) = t

  abbrev unanimous : ConsensusMode → Bool → ConsensusResult F
  unanimous mode passed = record {
    final_verdict = verdict passed;
    mode_used = some mode;
    weights_used = none;
    score = some (if passed then f.one else f.zero);
    threshold = none;
  }

  unfoldable pub evaluate_weighted :
      ConsensusConfig F → Verdict → Verdict → Verdict → ConsensusResult F
  evaluate_weighted config rules cbf sim =
      let ws = effective config.on_sim_indeterminate sim (configured config.weights) in
      let score = score_of ws rules cbf sim in
      let t = threshold_of config.threshold in
      record {
        final_verdict = verdict (f.leb t score);
        mode_used = some weighted;
        weights_used = some ws;
        score = some score;
        threshold = some t;
      }

  abbrev evaluate_in :
      ConsensusMode → ConsensusConfig F → Verdict → Verdict → Verdict → ConsensusResult F
  evaluate_in all_of config rules cbf sim =
      unanimous all_of (is_safe rules && (is_safe cbf && is_safe sim))
  evaluate_in worst_case config rules cbf sim =
      let any_unsafe = is_unsafe rules || (is_unsafe cbf || is_unsafe sim) in
      let any_indeterminate =
        is_indeterminate rules || (is_indeterminate cbf || is_indeterminate sim) in
      unanimous worst_case (if any_unsafe || any_indeterminate then false else true)
  evaluate_in weighted config rules cbf sim = evaluate_weighted config rules cbf sim
  -- no mode is AUTO by now: the branch `else` of the source, which blocks
  evaluate_in auto config rules cbf sim = record {
    final_verdict = unsafe;
    mode_used = none;
    weights_used = none;
    score = none;
    threshold = none;
  }

  unfoldable pub evaluate_consensus :
      ℕ → ConsensusConfig F → Verdict → Verdict → Verdict → ConsensusResult F
  unfolding effective_mode
  evaluate_consensus sil config rules cbf sim =
      evaluate_in (effective_mode sil config.mode) config rules cbf sim
