-- ===== src/Policy/Implements.antt =====
-- The handlers implement the abstract store, and keep the table well-formed.
use pcag.Core.Auth.{verify_admin_key, passes, AuthConfig}
use pcag.Core.Json.{put_field, Fields}
use pcag.Policy.Refines.{UpdatedTo, Contract, Served, insert, Created, store_of, Activated}
use pcag.Policy.Table.{
  same-missing, active-set, entry_at-deactivate, active-append, entry_at-append,
  entry_at-set_active, entry_at, entry_of, Entry,
}
use pcag.Policy.Admin.{
  read_active, update, activate, create, admin_only, read_asset, read_policy, Call, dispatch,
  update_handler, handle, Request, create_handler, activate_handler,
}
use pcag.Core.Int.{ℤ}
use pcag.Policy.{
  get_active_version, first_candidate, derive_document, ProfileUpdate, put_metadata,
  update_asset_profile, put_profile, close_session, open_session, set_active, derived_version,
  create_policy, deactivate_all, activate_policy, free_version, get_policy, PolicyRecord, Table,
  Naming,
}
use pcag.Base.{
  ℕ, ◌+◌, ◌≡◌, inl, inr, refl, sym, ap, zero, suc, String, false, Option, none, some, [], ◌∷◌, ◌++◌,
  ◌∙◌, str_eq, eq_iff, if◌then◌else◌, Bool-cases, Option-cases,
}

module _ {F : Type 0} where
  found-version :
      (t : Table F) (v : String) (r : PolicyRecord F)
      → get_policy t v ≡ some r
      → r.policy_version_id ≡ v
  unfolding get_policy
  found-version [] v r h = cc
  found-version (x ∷ t) v r h = elim (Bool-cases (str_eq x.policy_version_id v)) [
    | inl e ↦ cc ((eq_iff x.policy_version_id v).0 e)
    | inr e ↦ found-version t v r cc
  ]

  store_of-append :
      (t : Table F) (r : PolicyRecord F) (e : Entry F)
      → get_policy t r.policy_version_id ≡ none
      → r.is_active ≡ false
      → entry_of (some r) ≡ some e
      → store_of (t ++ r ∷ []) ≡ insert r.policy_version_id e (store_of t)
  store_of-append t r e h a q = λ i. record {
    versions = λ w.
        (entry_at-append t r w h
            ∙ ap (λ o. if str_eq r.policy_version_id w then o else entry_at t w) q)
          i;
    active = active-append t r a i;
  }

  store_of-activate :
      (v : String) (t : Table F) (r : PolicyRecord F)
      → get_policy (deactivate_all t) v ≡ some r
      → store_of (set_active v (deactivate_all t)) ≡ record (store_of t) { active = some v }
  store_of-activate v t r e = λ i. record {
    versions = λ w. (entry_at-set_active v (deactivate_all t) w ∙ entry_at-deactivate t w) i;
    active =
        active-set v t
          (λ h. cc (same-missing (deactivate_all t) t v (entry_at-deactivate t v) h, e)) i;
  }

module _ {F : Type 0} (names : Naming) (fuel : ℕ) (now : ℤ) where
  pub free-missing :
      (t : Table F) (v : String) (k n : ℕ) (candidate w : String)
      → free_version t names v now k n candidate ≡ some w
      → get_policy t w ≡ none
  unfolding free_version
  free-missing t v zero n candidate w h = elim (Option-cases (get_policy t candidate)) [
    | inl e ↦ let q : candidate ≡ w = cc in rw (sym q) e
    | inr (r, e) ↦ cc
  ]
  free-missing t v (suc k) n candidate w h = elim (Option-cases (get_policy t candidate)) [
    | inl e ↦ let q : candidate ≡ w = cc in rw (sym q) e
    | inr (r, e) ↦ free-missing t v k (n + 1) (derived_version names v now n) w cc
  ]

  create-Created :
      (v : String) (global assets : Fields F) (t : Table F)
      → Created now v global assets
          (entry_at t v)
          (store_of t)
          (create_handler names fuel now v global assets (open_session t)).0
          (store_of
            (close_session (create_handler names fuel now v global assets (open_session t)).1))
  unfolding create_handler create_policy
  create-Created v global assets t = elim (Option-cases (get_policy t v)) [
    | inl e ↦ rw (e, create_handler, create_policy, e) (refl, store_of-append t _ _ e refl refl)
    | inr (r, e) ↦ rw (e, create_handler) (refl, refl)
  ]

  activate-Activated :
      (v : String) (t : Table F)
      → Activated now v
          (entry_at t v)
          (store_of t)
          (activate_handler names fuel now v (open_session t)).0
          (store_of (close_session (activate_handler names fuel now v (open_session t)).1))
  unfolding activate_handler activate_policy
  activate-Activated v t = elim (Option-cases (get_policy (deactivate_all t) v)) [
    | inl e ↦
        rw
          (
            e,
            activate_handler,
            activate_policy,
            same-missing t (deactivate_all t) v (sym (entry_at-deactivate t v)) e,
          )
          (refl, refl)
    | inr (r, e) ↦
        rw (sym (entry_at-deactivate t v), e, activate_handler, activate_policy)
          (refl, store_of-activate v t r e)
  ]

  derive-created_by :
      (v : String) (u : ProfileUpdate F) (c : Option String) (doc : Fields F)
      → derive_document v (record u { created_by = c }) doc ≡ derive_document v u doc
  unfolding put_profile put_metadata
  derive-created_by v u c doc = refl

  update-UpdatedTo :
      (v : String) (u : ProfileUpdate F) (t : Table F)
      → UpdatedTo now v u
          (entry_at t v)
          (store_of t)
          (update_handler names fuel now v u (open_session t)).0
          (store_of (close_session (update_handler names fuel now v u (open_session t)).1))
  unfolding update_handler update_asset_profile create_policy get_policy get_active_version
      put_field
  update-UpdatedTo v u t = elim (Option-cases (get_policy t v)) [
    | inl e ↦ rw (e, update_handler, update_asset_profile) (refl, refl)
    | inr (r, e) ↦ elim (Option-cases (derive_document v u r.document)) [
      | inl d ↦
          rw (e, update_handler, update_asset_profile, derive-created_by, d) (inl (refl, refl))
      | inr (doc, d) ↦
          elim (Option-cases (
            free_version t names v now fuel (first_candidate names v now u.new_policy_version_id).1
              (first_candidate names v now u.new_policy_version_id).0)) [
                | inl q ↦
                    rw (e, update_handler, update_asset_profile, derive-created_by, d, q)
                      (inl (refl, refl))
                | inr (w, q) ↦
                    let h = free-missing t v fuel _ _ w q in
                    rw
                      (
                        e, update_handler, update_asset_profile, derive-created_by, d, q,
                        create_policy, h,
                      )
                      (inr (
                        w,
                        _,
                        ap entry_of h,
                        (doc, refl, refl),
                        refl,
                        store_of-append t _ _ h refl refl,
                      ))
              ]
    ]
  ]

  serve-Served :
      (req : Request F) (t : Table F)
      → Served now req
          (store_of t)
          (dispatch names fuel now req (open_session t)).0
          (store_of (close_session (dispatch names fuel now req (open_session t)).1))
  serve-Served read_active t = (refl, refl)
  serve-Served (read_policy v) t = elim (Option-cases (get_policy t v)) [
    | inl e ↦ rw (dispatch, e) (refl, refl)
    | inr (r, e) ↦ rw (dispatch, e, found-version t v r e) (refl, refl)
  ]
  serve-Served (read_asset v a) t = elim (Option-cases (get_policy t v)) [
    | inl e ↦ rw (dispatch, e) (refl, refl)
    | inr (r, e) ↦ rw (dispatch, e) (refl, refl)
  ]
  serve-Served (create v global assets) t = create-Created v global assets t
  serve-Served (activate v) t = activate-Activated v t
  serve-Served (update v u) t = update-UpdatedTo v u t

  -- On every table and for every call, `handle` answers and changes the stored policies as the
  -- abstract store does: reads and failures change nothing, a created or derived version is added
  -- under a name that was free, the other versions keep their entries, and an activation moves the
  -- pointer to a version that exists; an admin's request without a key that passes changes nothing.
  pub handle-Contract :
      (config : AuthConfig) (c : Call F) (t : Table F)
      → Contract now config c
          (store_of t)
          (handle names fuel now config c t).0
          (store_of (handle names fuel now config c t).1)
  unfolding handle
  handle-Contract config c t = elim (Bool-cases (admin_only c.request)) [
    | inl a ↦ elim (Bool-cases (passes (verify_admin_key config c.key))) [
      | inl p ↦ rw (handle, a, p) (serve-Served c.request t)
      | inr p ↦ rw (handle, a, p) (refl, refl)
    ]
    | inr a ↦ rw (handle, a) (serve-Served c.request t)
  ]
