-- ===== src/Core/Consensus/Monotone.antt =====
-- The WEIGHTED mode: a better verdict never turns the result from SAFE to UNSAFE.
use pcag.Base.{String, ◌≡◌, ◌≢◌, ◌⊎◌, inl, inr, refl, true, Option, none, some, [], ◌∷◌, arith}
use pcag.Core.Consensus.{
  Verdict, safe, unsafe, indeterminate, renormalize, Floats, ConsensusConfig, Weights, configured,
  value, find, plus, score_of, evaluate_weighted, threshold_of,
}

-- What the mode relies on of the floats: rounded addition is monotone, `w * 1.0` is `w`, `w * 0.0`
-- is not above it for a weight that is not negative, and the order is a preorder. All of it holds
-- of finite IEEE doubles.
pub record FloatLaws {F : Type 0} (f : Floats F) : Type 0 where
  pub leb_refl : (a : F) → f.leb a a ≡ true
  pub leb_trans : (a b c : F) → f.leb a b ≡ true → f.leb b c ≡ true → f.leb a c ≡ true
  pub add_mono :
      (a b c d : F) → f.leb a b ≡ true → f.leb c d ≡ true → f.leb (f.add a c) (f.add b d) ≡ true
  pub mul_mono : (w : F) → f.leb f.zero w ≡ true → f.leb (f.mul w f.zero) (f.mul w f.one) ≡ true

-- A verdict that is at least as good: the same one, or SAFE.
abbrev pub Improves : Verdict → Verdict → Type 0
Improves v w = (w ≡ v) ⊎ (w ≡ safe)

module _ {F : Type 0} (f : Floats F) (laws : FloatLaws f) where
  abbrev pub NonNegative : Weights F → Type 0
  NonNegative [] = Unit {0}
  NonNegative ((k, w) ∷ ws) = (f.leb f.zero w ≡ true) × NonNegative ws

  find-NonNegative :
      (k : String) (ws : Weights F) (w : F)
      → NonNegative ws
      → find f k ws ≡ some w
      → f.leb f.zero w ≡ true
  unfolding find
  find-NonNegative k [] w n h = cc
  find-NonNegative k ((j, v) ∷ ws) w n h = ground (arith, find-NonNegative k ws w n.1)

  term_safe :
      (w : F) (v : Verdict)
      → f.leb f.zero w ≡ true
      → f.leb (f.mul w (value f v)) (f.mul w f.one) ≡ true
  term_safe w safe n = laws.leb_refl _
  term_safe w unsafe n = laws.mul_mono w n
  term_safe w indeterminate n = laws.mul_mono w n

  term_mono :
      (w : F) (v v' : Verdict)
      → f.leb f.zero w ≡ true
      → Improves v v'
      → f.leb (f.mul w (value f v)) (f.mul w (value f v')) ≡ true
  term_mono w v v' n (inl same) = rw same (laws.leb_refl _)
  term_mono w v v' n (inr better) = rw better (term_safe w v n)

  plus_mono :
      (k : String) (ws : Weights F) (a b : F) (v v' : Verdict)
      → NonNegative ws
      → f.leb a b ≡ true
      → Improves v v'
      → f.leb (plus f a (find f k ws) (value f v)) (plus f b (find f k ws) (value f v')) ≡ true
  plus_mono k ws a b v v' n h i = go (find f k ws) refl
    where
      go :
          (o : Option F)
          → find f k ws ≡ o
          → f.leb (plus f a o (value f v)) (plus f b o (value f v')) ≡ true
      go none e = h
      go (some w) e = laws.add_mono _ _ _ _ h (term_mono w v v' (find-NonNegative k ws w n e) i)

  score_mono :
      (ws : Weights F) (r c s r' c' s' : Verdict)
      → NonNegative ws
      → Improves r r'
      → Improves c c'
      → Improves s s'
      → f.leb (score_of f ws r c s) (score_of f ws r' c' s') ≡ true
  unfolding score_of
  score_mono ws r c s r' c' s' n hr hc hs =
      plus_mono "sim" ws _ _ s s' n
        (plus_mono "cbf" ws _ _ c c' n (plus_mono "rules" ws _ _ r r' n (laws.leb_refl f.zero) hr)
          hc)
        hs

  -- The weights of neither evaluation are renormalized.
  abbrev pub KeepsWeights : ConsensusConfig F → Verdict → Verdict → Type 0
  KeepsWeights config s s' =
      (config.on_sim_indeterminate ≢ renormalize) ⊎ ((s ≢ indeterminate) × (s' ≢ indeterminate))

  -- With weights that are not negative, and if the policy does not renormalize or neither simulation
  -- is INDETERMINATE, the WEIGHTED mode is monotone: verdicts that stay or become SAFE keep a SAFE
  -- result SAFE.
  pub weighted_mono :
      (config : ConsensusConfig F) (r c s r' c' s' : Verdict)
      → KeepsWeights config s s'
      → NonNegative (configured f config.weights)
      → Improves r r'
      → Improves c c'
      → Improves s s'
      → (evaluate_weighted f config r c s).final_verdict ≡ safe
      → (evaluate_weighted f config r' c' s').final_verdict ≡ safe
  unfolding evaluate_weighted
  weighted_mono config r c s r' c' s' keeps n hr hc hs h =
      let ws : Weights F = configured f config.weights in
      let t : F = threshold_of f config.threshold in
      let better = score_mono ws r c s r' c' s' n hr hc hs in
      let chain = laws.leb_trans t (score_of f ws r c s) (score_of f ws r' c' s') in
      elim keeps [
        | inl keeps_all ↦ ground (arith, keeps_all, better, chain)
        | inr (a, b) ↦ ground (arith, a, b, better, chain)
      ]
