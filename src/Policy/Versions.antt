-- ===== src/Policy/Versions.antt =====
-- What holds of a table whatever calls are handled one after the other.
use pcag.Core.Json.{Fields}
use pcag.Policy.Implements.{free-missing}
use pcag.Core.Int.{ℤ}
use pcag.Policy.{
  store_derived, first_candidate, derived, open_session, derive_document, PolicyRecord,
  ProfileUpdate, create_policy, update_asset_profile, derived_version, free_version, Naming, Table,
  get_policy,
}
use text.Mathlib.TextLemmas.{append_cancel_left}
use pcag.Base.{
  ℕ, ◌+◌, ◌≤◌, ◌<◌, ◌≡◌, ◌≢◌, inl, inr, refl, arith, zero, suc, String, false, Option, none, some,
  [], ◌∷◌, str_eq, eq_iff, if◌then◌else◌, Bool-cases, Option-cases, ◌==◌,
}

-- A list of numbered names without repetition that all stand in a table is no longer than the
-- table.
module _ {F : Type 0} where
  abbrev pub count : Table F → ℕ
  count [] = 0
  count (r ∷ t) = count t + 1

  without : String → Table F → Table F
  without v [] = []
  without v (r ∷ t) = if str_eq r.policy_version_id v then t else r ∷ without v t

  without-count :
      (v : String) (t : Table F) → get_policy t v ≢ none → count (without v t) + 1 ≡ count t
  unfolding without get_policy
  without-count v [] h = absurd (h refl)
  without-count v (r ∷ t) h = ground (arith, without-count v t)

  without-found :
      (v w : String) (t : Table F)
      → str_eq v w ≡ false
      → get_policy t w ≢ none
      → get_policy (without v t) w ≢ none
  unfolding without get_policy
  without-found v w [] e h = h
  without-found v w (r ∷ t) e h = ground (
    arith,
    eq_iff r.policy_version_id v,
    eq_iff r.policy_version_id w,
    eq_iff v w,
    without-found v w t,
  )

  -- `k` different names that are all taken need `k` rows.
  pub pigeonhole :
      (k from : ℕ) (name : ℕ → String) (t : Table F)
      → ((m n : ℕ) → m < n → n < from + k → str_eq (name m) (name n) ≡ false)
      → ((n : ℕ) → from ≤ n → n < from + k → get_policy t (name n) ≢ none)
      → k ≤ count t
  pigeonhole zero from name t d h = omega arith
  pigeonhole (suc k) from name t d h =
      let rest =
        pigeonhole k (from + 1) name (without (name from) t) (λ m n p q. d m n p (omega (arith, q)))
          (λ n p q.
            without-found (name from) (name n) t (d from n (omega (arith, p)) (omega (arith, q)))
              (h n (omega (arith, p)) (omega (arith, q)))) in
      let c = without-count (name from) t (h from (omega arith) (omega arith)) in
      omega (arith, rest, c)

module _ (names : Naming) (now : ℤ) where
  -- The uuids differ among the first `bound` that are drawn.
  abbrev pub Different : ℕ → Type 0
  Different bound = (m n : ℕ) → m < n → n < bound → str_eq (names.uuid8 m) (names.uuid8 n) ≡ false

  derived_names_differ :
      (v : String) (bound m n : ℕ)
      → Different bound
      → m < n
      → n < bound
      → str_eq (derived_version names v now m) (derived_version names v now n) ≡ false
  unfolding derived_version
  derived_names_differ v bound m n d p q =
      elim (Bool-cases (str_eq (derived_version names v now m) (derived_version names v now n))) [
        | inr e ↦ e
        | inl e ↦
            let same = append_cancel_left _ _ _ (
              append_cancel_left _ _ _ (
                append_cancel_left _ _ _ (
                  append_cancel_left v _ _ (
                    (eq_iff (derived_version names v now m) (derived_version names v now n)).0
                      e)))) in
            cc ((eq_iff (names.uuid8 m) (names.uuid8 n)).1 same, d m n p q)
      ]

  Different-le : (a b : ℕ) → a ≤ b → Different b → Different a
  Different-le a b h d m n p q = d m n p (omega (arith, h, q))

  first_candidate-drawn : (v : String) (o : Option String) → (first_candidate names v now o).1 ≤ 1
  first_candidate-drawn v none = omega arith
  first_candidate-drawn v (some w) = ground arith

module _ {F : Type 0} (names : Naming) (now : ℤ) where
  -- A loop that runs out of fuel has found each name it drew taken.
  free-taken :
      (t : Table F) (v : String) (fuel n : ℕ) (candidate : String)
      → free_version t names v now fuel n candidate ≡ none
      → (get_policy t candidate ≢ none)
        × ((m : ℕ) → n ≤ m → m < n + fuel → get_policy t (derived_version names v now m) ≢ none)
  unfolding free_version
  free-taken t v zero n candidate h = elim (Option-cases (get_policy t candidate)) [
    | inl e ↦ cc
    | inr (r, e) ↦ (λ x. cc, λ m p q. absurd (omega (arith, p, q)))
  ]
  free-taken t v (suc fuel) n candidate h = elim (Option-cases (get_policy t candidate)) [
    | inl e ↦ cc
    | inr (r, e) ↦
        let (here, later) = free-taken t v fuel (n + 1) (derived_version names v now n) cc in
        (
          λ x. cc,
          λ m p q. elim (Bool-cases (m == n)) [
            | inl z ↦ let e' : m ≡ n = ground (arith, z) in rw e' here
            | inr z ↦ later m (ground (arith, p, z)) (ground (arith, q, z))
          ],
        )
  ]

  -- The loop ends: with more draws than rows it finds a name that is free.
  pub free_version-terminates :
      (t : Table F) (v : String) (fuel n : ℕ) (candidate : String)
      → count t < fuel
      → Different names now (n + fuel)
      → (w : String) × (free_version t names v now fuel n candidate ≡ some w)
        × (get_policy t w ≡ none)
  free_version-terminates t v fuel n candidate h d =
      elim (Option-cases (free_version t names v now fuel n candidate)) [
        | inl e ↦ absurd (
            omega (
              arith,
              h,
              pigeonhole fuel n (derived_version names v now) t
                  (λ a b p q. derived_names_differ names now v (n + fuel) a b d p q)
                  (free-taken t v fuel n candidate e).1,
            ))
        | inr (w, e) ↦ (w, e, free-missing names fuel now t v fuel n candidate w e)
      ]

  -- If the uuids differ among the first `fuel` + 1 draws, and there are more draws than rows, then
  -- an update of the profile of a version whose assets and metadata are dictionaries ends: it
  -- returns a row under a name that no row had.
  pub update_asset_profile-terminates :
      (v : String) (u : ProfileUpdate F) (t : Table F) (fuel : ℕ)
      → (r : PolicyRecord F) (doc : Fields F) → get_policy t v ≡ some r
      → derive_document v u r.document ≡ some doc
      → count t < fuel
      → Different names now (fuel + 1)
      → (r' : PolicyRecord F) × ((update_asset_profile names now fuel v u (open_session t)).0
          ≡ derived r')
        × (get_policy t r'.policy_version_id ≡ none)
  unfolding update_asset_profile create_policy
  update_asset_profile-terminates v u t fuel r doc e d h x =
      let first = first_candidate names v now u.new_policy_version_id in
      let (w, q, m) = free_version-terminates t v fuel first.1 first.0 h (
        Different-le names now (first.1 + fuel) (fuel + 1)
          (omega (arith, first_candidate-drawn names now v u.new_policy_version_id)) x) in
      rw (e, update_asset_profile, d, q, store_derived, create_policy, m) (_, refl, m)
