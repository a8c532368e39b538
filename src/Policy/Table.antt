-- ===== src/Policy/Table.antt =====
-- What the operations of the repository do to the rows that a lookup finds.
use pcag.Core.Json.{Fields}
use pcag.Core.Int.{ℤ}
use pcag.Policy.{deactivate_all, Table, set_active, get_policy, PolicyRecord, get_active_version}
use pcag.Base.{
  ◌≡◌, ◌≢◌, ◌⊎◌, inl, inr, refl, arith, String, false, Option, none, some, [], ◌∷◌, ◌++◌, ◌∙◌,
  str_eq, eq_iff, if◌then◌else◌, Bool-cases,
}

-- What of a row never changes.
pub record Entry (F : Type 0) : Type 0 where
  pub issued_at_ms : ℤ
  pub document : Fields F
  pub created_by : Option String

module _ {F : Type 0} where
  abbrev pub entry_of : Option (PolicyRecord F) → Option (Entry F)
  entry_of none = none
  entry_of (some r) =
      some
        (record { issued_at_ms = r.issued_at_ms; document = r.document; created_by = r.created_by })

  abbrev pub entry_at : Table F → String → Option (Entry F)
  entry_at t w = entry_of (get_policy t w)

  pub entry_at-append :
      (t : Table F) (r : PolicyRecord F) (w : String)
      → get_policy t r.policy_version_id ≡ none
      → entry_at (t ++ r ∷ []) w
        ≡ (if str_eq r.policy_version_id w then entry_of (some r) else entry_at t w)
  unfolding get_policy
  entry_at-append [] r w h = ground arith
  entry_at-append (x ∷ t) r w h = ground (
    arith,
    eq_iff x.policy_version_id w,
    eq_iff x.policy_version_id r.policy_version_id,
    eq_iff r.policy_version_id w,
    entry_at-append t r w,
  )

  pub active-append :
      (t : Table F) (r : PolicyRecord F)
      → r.is_active ≡ false
      → get_active_version (t ++ r ∷ []) ≡ get_active_version t
  unfolding get_active_version
  active-append [] r h = rw h refl
  active-append (x ∷ t) r h = rw (active-append t r h) refl

  pub entry_at-deactivate :
      (t : Table F) (w : String) → entry_at (deactivate_all t) w ≡ entry_at t w
  unfolding get_policy deactivate_all
  entry_at-deactivate [] w = refl
  entry_at-deactivate (x ∷ t) w = ground (arith, entry_at-deactivate t w)

  pub entry_at-set_active :
      (v : String) (t : Table F) (w : String) → entry_at (set_active v t) w ≡ entry_at t w
  unfolding get_policy set_active
  entry_at-set_active v [] w = refl
  entry_at-set_active v (x ∷ t) w = ground (arith, entry_at-set_active v t w)

  pub active-set :
      (v : String) (t : Table F)
      → get_policy t v ≢ none
      → get_active_version (set_active v (deactivate_all t)) ≡ some v
  unfolding get_policy set_active deactivate_all get_active_version
  active-set v [] h = absurd (h refl)
  active-set v (x ∷ t) h = ground (arith, eq_iff x.policy_version_id v, active-set v t)

  -- No version twice.
  abbrev pub Distinct : Table F → Type 0
  Distinct [] = Unit {0}
  Distinct (r ∷ t) = (get_policy t r.policy_version_id ≡ none) × Distinct t

  abbrev pub NoneActive : Table F → Type 0
  NoneActive [] = Unit {0}
  NoneActive (r ∷ t) = (r.is_active ≡ false) × NoneActive t

  abbrev pub OneActive : Table F → Type 0
  OneActive [] = Unit {0}
  OneActive (r ∷ t) = ((r.is_active ≡ false) × OneActive t) ⊎ NoneActive t

  -- Versions differ, and at most one is active.
  abbrev pub WellFormed : Table F → Type 0
  WellFormed t = Distinct t × OneActive t

  pub entry_of-missing : (o : Option (PolicyRecord F)) → entry_of o ≡ none → o ≡ none
  entry_of-missing none h = refl
  entry_of-missing (some r) h = cc

  -- Two tables with the same entries lack the same versions.
  pub same-missing :
      (t t' : Table F) (w : String)
      → entry_at t w ≡ entry_at t' w
      → get_policy t' w ≡ none
      → get_policy t w ≡ none
  same-missing t t' w e h = entry_of-missing (get_policy t w) (e ∙ rw h refl)

  deactivate-Distinct : (t : Table F) → Distinct t → Distinct (deactivate_all t)
  unfolding deactivate_all
  deactivate-Distinct [] d = tt
  deactivate-Distinct (r ∷ t) d = (
    same-missing (deactivate_all t) t r.policy_version_id (entry_at-deactivate t _) d.0,
    deactivate-Distinct t d.1,
  )

  set_active-Distinct : (v : String) (t : Table F) → Distinct t → Distinct (set_active v t)
  unfolding set_active
  set_active-Distinct v [] d = tt
  set_active-Distinct v (r ∷ t) d = elim (Bool-cases (str_eq r.policy_version_id v)) [
    | inl e ↦ rw e d
    | inr e ↦ rw e (
      same-missing (set_active v t) t r.policy_version_id (entry_at-set_active v t _) d.0,
      set_active-Distinct v t d.1,
    )
  ]

  rest_missing :
      (x : PolicyRecord F) (t : Table F) (r : PolicyRecord F)
      → str_eq x.policy_version_id r.policy_version_id ≡ false
      → get_policy (x ∷ t) r.policy_version_id ≡ none
      → get_policy t r.policy_version_id ≡ none
  unfolding get_policy
  rest_missing x t r e h = cc

  append-missing :
      (t : Table F) (r : PolicyRecord F) (w : String)
      → str_eq w r.policy_version_id ≡ false
      → get_policy t r.policy_version_id ≡ none
      → get_policy t w ≡ none
      → get_policy (t ++ r ∷ []) w ≡ none
  append-missing t r w e q h = entry_of-missing (get_policy (t ++ r ∷ []) w) (
      entry_at-append t r w q
      ∙ ground (arith, eq_iff w r.policy_version_id, eq_iff r.policy_version_id w))

  append-Distinct :
      (t : Table F) (r : PolicyRecord F)
      → get_policy t r.policy_version_id ≡ none
      → Distinct t
      → Distinct (t ++ r ∷ [])
  unfolding get_policy
  append-Distinct [] r h d = (refl, tt)
  append-Distinct (x ∷ t) r h d =
      elim (Bool-cases (str_eq x.policy_version_id r.policy_version_id)) [
        | inl e ↦ cc
        | inr e ↦
            let q : get_policy t r.policy_version_id ≡ none = rest_missing x t r e h in
            (append-missing t r x.policy_version_id e q d.0, append-Distinct t r q d.1)
      ]

  deactivate-NoneActive : (t : Table F) → NoneActive (deactivate_all t)
  unfolding deactivate_all
  deactivate-NoneActive [] = tt
  deactivate-NoneActive (r ∷ t) = (refl, deactivate-NoneActive t)

  NoneActive-OneActive : (t : Table F) → NoneActive t → OneActive t
  NoneActive-OneActive [] h = tt
  NoneActive-OneActive (r ∷ t) h = inr h.1

  set_active-OneActive : (v : String) (t : Table F) → NoneActive t → OneActive (set_active v t)
  unfolding set_active
  set_active-OneActive v [] h = tt
  set_active-OneActive v (r ∷ t) h = elim (Bool-cases (str_eq r.policy_version_id v)) [
    | inl e ↦ rw e (inr h.1)
    | inr e ↦ rw e (inl (h.0, set_active-OneActive v t h.1))
  ]

  append-NoneActive :
      (t : Table F) (r : PolicyRecord F)
      → r.is_active ≡ false
      → NoneActive t
      → NoneActive (t ++ r ∷ [])
  append-NoneActive [] r h a = (h, tt)
  append-NoneActive (x ∷ t) r h a = (a.0, append-NoneActive t r h a.1)

  append-OneActive :
      (t : Table F) (r : PolicyRecord F)
      → r.is_active ≡ false
      → OneActive t
      → OneActive (t ++ r ∷ [])
  append-OneActive [] r h a = inr tt
  append-OneActive (x ∷ t) r h (inl a) = inl (a.0, append-OneActive t r h a.1)
  append-OneActive (x ∷ t) r h (inr a) = inr (append-NoneActive t r h a)

  pub append-WellFormed :
      (t : Table F) (r : PolicyRecord F)
      → get_policy t r.policy_version_id ≡ none
      → r.is_active ≡ false
      → WellFormed t
      → WellFormed (t ++ r ∷ [])
  append-WellFormed t r h a w = (append-Distinct t r h w.0, append-OneActive t r a w.1)

  pub activate-WellFormed :
      (v : String) (t : Table F) → WellFormed t → WellFormed (set_active v (deactivate_all t))
  activate-WellFormed v t w = (
    set_active-Distinct v (deactivate_all t) (deactivate-Distinct t w.0),
    set_active-OneActive v (deactivate_all t) (deactivate-NoneActive t),
  )
