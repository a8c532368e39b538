-- ===== src/Core/Cbf/Margins.antt =====
-- What a SAFE verdict of the CBF validator means.
use pcag.Core.Cbf.InBounds.{NumberLaws, Margin-cases, NonNegative, min_number-le, Kept, margin-Kept}
use pcag.Base.{
  eq_refl, ◌∙◌, ℕ, ◌+◌, String, ◌≡◌, inl, inr, refl, true, false, Option, none, some, List, [], ◌∷◌,
  arith, str_eq, eq_iff, Option-cases, if◌then◌else◌,
}
use pcag.Core.Int.{pos}
use pcag.Core.Json.{Number, Json, Fields, Arith, int, obj}
use pcag.Core.Rules.{Rule}
use pcag.Core.Consensus.{safe}
use pcag.Core.Cbf.{
  finish, start, current, Limits, StateMapping, CbfAction, Step, step, Barriers, CbfResult, margin,
  min_number, put_barrier, add_barriers, compute_barriers, create_projected_state, merge, min_from,
  min_values, Scan, account, scan, validate_safety,
}

abbrev pub Absent : {F : Type 0} → String → List (Rule F) → Type 0
Absent k [] = Unit {0}
Absent k (r ∷ rs) = (str_eq r.rule_id k ≡ false) × Absent k rs

-- No two rules have one identifier.
abbrev pub DistinctIds : {F : Type 0} → List (Rule F) → Type 0
DistinctIds [] = Unit {0}
DistinctIds (r ∷ rs) = Absent r.rule_id rs × DistinctIds rs

module _ {F : Type 0} (ops : Arith F) (limits : Limits F) (laws : NumberLaws ops limits) where
  abbrev AllAbove : Number F → Barriers F → Type 0
  AllAbove m [] = Unit {0}
  AllAbove m ((k, b) ∷ bs) = (ops.leb m b ≡ true) × AllAbove m bs

  AllAbove-le :
      (a m : Number F) (bs : Barriers F) → ops.leb a m ≡ true → AllAbove m bs → AllAbove a bs
  AllAbove-le a m [] h k = tt
  AllAbove-le a m ((j, b) ∷ bs) h k = (laws.leb_trans a m b h k.0, AllAbove-le a m bs h k.1)

  min_from-le :
      (m : Number F) (bs : Barriers F)
      → (ops.leb (min_from ops limits m bs) m ≡ true) × AllAbove (min_from ops limits m bs) bs
  unfolding min_from
  min_from-le m [] = (laws.leb_refl m, tt)
  min_from-le m ((k, b) ∷ bs) =
      let (p, q) = min_from-le (min_number ops limits m b) bs in
      let (u, v) = min_number-le ops limits laws m b in
      (laws.leb_trans _ _ _ p u, (laws.leb_trans _ _ _ p v, q))

  min_values-le : (bs : Barriers F) → AllAbove (min_values ops limits bs) bs
  min_values-le [] = tt
  min_values-le ((k, b) ∷ bs) = min_from-le b bs

  account-le :
      (bs : Barriers F) (at : Step) (s : Scan ops limits)
      → (ops.leb (account ops limits bs at s).min_barrier s.min_barrier ≡ true)
        × AllAbove (account ops limits bs at s).min_barrier bs
  unfolding account
  account-le bs at s =
      let (p, q) = min_number-le ops limits laws s.min_barrier (min_values ops limits bs) in
      (p, AllAbove-le _ _ bs q (min_values-le bs))

  find_barrier : String → Barriers F → Option (Number F)
  find_barrier k [] = none
  find_barrier k ((j, b) ∷ bs) = if str_eq j k then some b else find_barrier k bs

  find-put :
      (k j : String) (b : Number F) (bs : Barriers F)
      → find_barrier j (put_barrier ops limits k b bs)
        ≡ (if str_eq k j then some b else find_barrier j bs)
  unfolding find_barrier put_barrier
  find-put k j b [] = refl
  find-put k j b ((i, c) ∷ bs) =
      ground (arith, eq_iff k j, eq_iff i k, eq_iff i j, find-put k j b bs)

  find-AllAbove :
      (k : String) (m b : Number F) (bs : Barriers F)
      → find_barrier k bs ≡ some b
      → AllAbove m bs
      → ops.leb m b ≡ true
  unfolding find_barrier
  find-AllAbove k m b [] h a = cc
  find-AllAbove k m b ((j, c) ∷ bs) h a = ground (arith, find-AllAbove k m b bs)

  -- A rule of another identifier leaves a barrier alone.
  find-add :
      (k : String) (b : Number F) (rs : List (Rule F)) (state : Json F) (bs out : Barriers F)
      → Absent k rs
      → find_barrier k bs ≡ some b
      → add_barriers ops limits rs state bs ≡ some out
      → find_barrier k out ≡ some b
  unfolding add_barriers
  find-add k b [] state bs out fresh h e = cc
  find-add k b (r ∷ rs) state bs out fresh h e = elim (Margin-cases (margin ops limits r state)) [
    | inl q ↦ cc
    | inr (inl q) ↦ find-add k b rs state bs out fresh.1 h cc
    | inr (inr (c, q)) ↦
        find-add k b rs state (put_barrier ops limits r.rule_id c bs) out fresh.1
          (find-put r.rule_id k c bs ∙ rw fresh.0 h) cc
  ]

  abbrev pub AllKept : Json F → List (Rule F) → Type 0
  AllKept state [] = Unit {0}
  AllKept state (r ∷ rs) = Kept ops limits laws state r × AllKept state rs

  find-put_self :
      (k : String) (b : Number F) (bs : Barriers F)
      → find_barrier k (put_barrier ops limits k b bs) ≡ some b
  find-put_self k b bs = find-put k k b bs ∙ rw (eq_refl k) refl

  barrier-NonNegative :
      (k : String) (b : Number F) (rs : List (Rule F)) (state : Json F) (bs out : Barriers F)
      → Absent k rs
      → find_barrier k bs ≡ some b
      → AllAbove (int (pos 0)) out
      → add_barriers ops limits rs state bs ≡ some out
      → NonNegative ops limits laws b
  barrier-NonNegative k b rs state bs out fresh h a e =
      find-AllAbove k (int (pos 0)) b out (find-add k b rs state bs out fresh h e) a

  -- Barriers that are all non-negative come from rules that are kept.
  add-AllKept :
      (rs : List (Rule F)) (state : Json F) (bs out : Barriers F)
      → DistinctIds rs
      → AllAbove (int (pos 0)) out
      → add_barriers ops limits rs state bs ≡ some out
      → AllKept state rs
  unfolding add_barriers
  add-AllKept [] state bs out d a e = tt
  add-AllKept (r ∷ rs) state bs out d a e = elim (Margin-cases (margin ops limits r state)) [
    | inl q ↦ cc
    | inr (inl q) ↦ (
      margin-Kept ops limits laws r state (λ p. cc) (λ b p. cc),
      add-AllKept rs state bs out d.1 a cc,
    )
    | inr (inr (c, q)) ↦ (
      margin-Kept ops limits laws r state (λ p. cc)
          (λ b p.
            barrier-NonNegative r.rule_id b rs state (put_barrier ops limits r.rule_id b bs) out d.0
              (find-put_self r.rule_id b bs) a cc),
      add-AllKept rs state (put_barrier ops limits r.rule_id c bs) out d.1 a cc,
    )
  ]

  -- Every rule is kept in each state that the actions lead to, one after the other.
  abbrev pub KeptAlong : List (Rule F) → List StateMapping → List (CbfAction F) → Fields F → Type 0
  KeptAlong rules ms [] state = Unit {0}
  KeptAlong rules ms (a ∷ as') state =
      (next : Fields F) × (create_projected_state ops limits ms a state ≡ some next)
      × AllKept (obj next) rules
      × KeptAlong rules ms as' (merge state next)

  scan-KeptAlong :
      (rules : List (Rule F)) (ms : List StateMapping) (idx : ℕ) (actions : List (CbfAction F))
      → (state : Fields F) (s out : Scan ops limits) → DistinctIds rules
      → NonNegative ops limits laws out.min_barrier
      → scan ops limits rules ms idx actions state s ≡ some out
      → NonNegative ops limits laws s.min_barrier × KeptAlong rules ms actions state
  unfolding scan compute_barriers
  scan-KeptAlong rules ms idx [] state s out d h e = (cc, tt)
  scan-KeptAlong rules ms idx (a ∷ as') state s out d h e =
      elim (Option-cases (create_projected_state ops limits ms a state)) [
        | inl f ↦ cc
        | inr (next, f) ↦ elim (Option-cases (compute_barriers ops limits (obj next) rules)) [
          | inl q ↦ cc
          | inr (bs, q) ↦
              let (p, rest) =
                scan-KeptAlong rules ms (idx + 1) as' _ (account ops limits bs (step idx) s) out d h
                  cc in
              let (u, v) = account-le bs (step idx) s in
              (
                laws.leb_trans _ _ _ p u,
                (next, f, add-AllKept rules _ [] bs d (AllAbove-le _ _ bs p v) q, rest),
              )
        ]
      ]

  finish-NonNegative :
      (s : Scan ops limits)
      → (finish ops limits s).verdict ≡ safe
      → NonNegative ops limits laws s.min_barrier
  finish-NonNegative s h = ground (arith, laws.minus_one)

  -- If no two rules have one identifier and `validate_safety` answers SAFE, every rule is kept
  -- in the current state and in the state after each action: its field is a number there, not beyond
  -- the limit of a threshold with an order and between the limits of a range. No number is a NaN
  -- (NumberLaws).
  pub validate_safety-AllKept :
      (state : Fields F) (actions : List (CbfAction F)) (rules : List (Rule F))
      → (ms : List StateMapping) (res : CbfResult F) → DistinctIds rules
      → validate_safety ops limits state actions rules ms ≡ some res
      → res.verdict ≡ safe
      → AllKept (obj state) rules × KeptAlong rules ms actions state
  unfolding validate_safety compute_barriers
  validate_safety-AllKept state actions [] ms res d e h = cc
  validate_safety-AllKept state actions (r ∷ rs) ms res d e h =
      elim (Option-cases (compute_barriers ops limits (obj state) (r ∷ rs))) [
        | inl q ↦ cc
        | inr (bs, q) ↦
            elim (Option-cases (
              scan ops limits (r ∷ rs) ms 0 actions state
                (account ops limits bs current (start ops limits)))) [
                  | inl p ↦ cc
                  | inr (s, p) ↦
                      let (x, rest) =
                        scan-KeptAlong (r ∷ rs) ms 0 actions state _ s d (finish-NonNegative s cc)
                          p in
                      let (u, v) = account-le bs current (start ops limits) in
                      (add-AllKept (r ∷ rs) (obj state) [] bs d (AllAbove-le _ _ bs x v) q, rest)
                ]
      ]
