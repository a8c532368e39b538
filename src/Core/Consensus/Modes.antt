-- ===== src/Core/Consensus/Modes.antt =====
-- What each mode of the consensus lets pass.
use pcag.Base.{ℕ, ◌≡◌, ◌≢◌, ◌↔◌, arith}
use pcag.Core.Consensus.{
  Verdict, safe, unsafe, indeterminate, ConsensusMode, auto, all_of, weighted, worst_case,
  OnSimIndeterminate, renormalize, fail_closed, Floats, ConsensusConfig, ConsensusResult,
  effective_mode, evaluate_weighted, evaluate_consensus,
}

module _ {F : Type 0} (f : Floats F) (sil : ℕ) (config : ConsensusConfig F) where
  -- In every mode in effect but WEIGHTED (so under AND, under WORST_CASE, and under AUTO unless the
  -- level is 2) the result is SAFE exactly if all three validators say SAFE.
  pub unanimity :
      (rules cbf sim : Verdict)
      → effective_mode sil config.mode ≢ weighted
      → ((evaluate_consensus f sil config rules cbf sim).final_verdict ≡ safe)
        ↔ ((rules ≡ safe) × (cbf ≡ safe) × (sim ≡ safe))
  unfolding evaluate_consensus
  unanimity rules cbf sim h = (ground arith, ground arith)

  -- Unless the policy renormalizes, a simulation that ends INDETERMINATE counts as one that ends
  -- UNSAFE, in every mode: the verdict and the score are the same.
  indeterminate-as-unsafe :
      (rules cbf : Verdict)
      → config.on_sim_indeterminate ≢ renormalize
      → ((evaluate_consensus f sil config rules cbf indeterminate).final_verdict
          ≡ (evaluate_consensus f sil config rules cbf unsafe).final_verdict)
        × ((evaluate_consensus f sil config rules cbf indeterminate).score
            ≡ (evaluate_consensus f sil config rules cbf unsafe).score)
  unfolding evaluate_consensus evaluate_weighted pcag.Core.Consensus.score_of
  indeterminate-as-unsafe rules cbf h = ground arith
