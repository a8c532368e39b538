-- ===== src/Core/AlternativeAction.antt =====
-- pcag/core/services/alternative_action.py: fallback actions from the `safe_state` of a policy's
-- `execution` section.
use pcag.Base.{ℕ, ◌+◌, String, Option, none, some, [], ◌∷◌}
use pcag.Core.Int.{pos}
use pcag.Core.Text.{concat, int_text}
use pcag.Core.Json.{Json, Items, Fields, lookup, str, obj, cons, nil, field, end}

module _ {F : Type 0} where
  abbrev get_or : Json F → Option (Json F) → Json F
  get_or default none = default
  get_or default (some v) = v

  -- The proposal for the action at `idx`.
  abbrev pub proposal : String → ℕ → Fields F → Json F
  proposal reason_code idx action = obj (
      field "proposal_id" (str (concat ("safe-state-" ∷ int_text (pos idx) ∷ []))) (
        field "action_type" (get_or (str "unknown") (lookup "action_type" action)) (
          field "params" (get_or (obj end) (lookup "params" action)) (
            field "rationale"
              (str (concat ("Derived from policy execution.safe_state for " ∷ reason_code ∷ [])))
              (field "source" (str "policy.safe_state") end)))))

  unfoldable pub proposals_from : String → ℕ → Items F → Items F
  proposals_from reason_code idx nil = nil
  proposals_from reason_code idx (cons (obj action) rest) =
      cons (proposal reason_code idx action) (proposals_from reason_code (idx + 1) rest)
  proposals_from reason_code idx (cons other rest) = proposals_from reason_code (idx + 1) rest

  -- `safe_state` is the list that the profile has, and none for a profile without one. The gateway
  -- always names a reason.
  unfoldable pub generate_alternative_actions : Items F → String → Items F
  generate_alternative_actions safe_state reason_code = proposals_from reason_code 0 safe_state
