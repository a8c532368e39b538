-- ===== src/Policy/Runs.antt =====
-- What no sequence of calls changes.
use pcag.Policy.Implements.{free-missing, handle-Contract}
use pcag.Core.Auth.{verify_admin_key, passes, AuthConfig}
use pcag.Core.Json.{Fields}
use pcag.Policy.Admin.{
  dispatch, read_active, update, admin_only, activate, update_handler, create, activate_handler,
  read_asset, handle, read_policy, Call, create_handler, Request, Response,
}
use pcag.Policy.Table.{activate-WellFormed, append-WellFormed, WellFormed, entry_at, Entry}
use pcag.Policy.Refines.{store_of, Served, UpdatedTo, Activated, Read, Created, insert, Store}
use pcag.Policy.{
  deactivate_all, open_session, store_derived, close_session, get_policy, update_asset_profile,
  activate_policy, Table, create_policy, ProfileUpdate, Naming,
}
use pcag.Core.Int.{ℤ}
use pcag.Base.{
  ℕ, ◌≡◌, inl, inr, refl, arith, String, not, ◌&&◌, Option, none, some, List, [], ◌∷◌, eq_iff,
  Bool-cases, Option-cases,
}

module _ {F : Type 0} where
  insert-keeps :
      (v w : String) (e e' : Entry F) (s : Store F)
      → s.versions v ≡ none
      → s.versions w ≡ some e
      → (insert v e' s).versions w ≡ some e
  insert-keeps v w e e' s h k = ground (arith, eq_iff v w)

  -- What every contract of a handler gives: an entry that is there stays.
  Keeps : Store F → Store F → Type 0
  Keeps s s' = (w : String) (e : Entry F) → s.versions w ≡ some e → s'.versions w ≡ some e

  same-Keeps : (s s' : Store F) → s' ≡ s → Keeps s s'
  unfolding Keeps
  same-Keeps s s' h w e k = rw h k

  insert-Keeps :
      (v : String) (e : Entry F) (s s' : Store F)
      → s.versions v ≡ none
      → s' ≡ insert v e s
      → Keeps s s'
  unfolding Keeps
  insert-Keeps v e s s' h q w e' k = rw q (insert-keeps v w e' e s h k)

  Read-Keeps :
      (now : ℤ) (f : Entry F → Response F) (o : Option (Entry F)) (s : Store F) (a : Response F)
      → (s' : Store F) → Read now f o s a s'
      → Keeps s s'
  Read-Keeps now f none s a s' h = same-Keeps s s' h.1
  Read-Keeps now f (some e) s a s' h = same-Keeps s s' h.1

  Created-Keeps :
      (now : ℤ) (v : String) (g as' : Fields F) (s : Store F) (a : Response F) (s' : Store F)
      → Created now v g as' (s.versions v) s a s'
      → Keeps s s'
  Created-Keeps now v g as' s a s' h = elim (Option-cases (s.versions v)) [
    | inl e ↦ insert-Keeps v _ s s' e (rw e at h).1
    | inr (x, e) ↦ same-Keeps s s' (rw e at h).1
  ]

  Activated-Keeps :
      (now : ℤ) (v : String) (o : Option (Entry F)) (s : Store F) (a : Response F) (s' : Store F)
      → Activated now v o s a s'
      → Keeps s s'
  unfolding Keeps
  Activated-Keeps now v none s a s' h w e k = rw h.1 k
  Activated-Keeps now v (some x) s a s' h w e k = rw h.1 k

  UpdatedTo-Keeps :
      (now : ℤ) (v : String) (u : ProfileUpdate F) (o : Option (Entry F)) (s : Store F)
      → (a : Response F) (s' : Store F) → UpdatedTo now v u o s a s'
      → Keeps s s'
  UpdatedTo-Keeps now v u none s a s' h = same-Keeps s s' h.1
  UpdatedTo-Keeps now v u (some x) s a s' (inl h) = same-Keeps s s' h.1
  UpdatedTo-Keeps now v u (some x) s a s' (inr (w, e, m, d, q, p)) = insert-Keeps w e s s' m p

  Served-Keeps :
      (now : ℤ) (req : Request F) (s : Store F) (a : Response F) (s' : Store F)
      → Served now req s a s'
      → Keeps s s'
  Served-Keeps now read_active s a s' h = same-Keeps s s' h.1
  Served-Keeps now (read_policy v) s a s' h = Read-Keeps now _ (s.versions v) s a s' h
  Served-Keeps now (read_asset v x) s a s' h = Read-Keeps now _ (s.versions v) s a s' h
  Served-Keeps now (create v g as') s a s' h = Created-Keeps now v g as' s a s' h
  Served-Keeps now (activate v) s a s' h = Activated-Keeps now v (s.versions v) s a s' h
  Served-Keeps now (update v u) s a s' h = UpdatedTo-Keeps now v u (s.versions v) s a s' h

module _ {F : Type 0} (names : Naming) (fuel : ℕ) (config : AuthConfig) where
  handle-Keeps :
      (now : ℤ) (c : Call F) (t : Table F)
      → Keeps (store_of t) (store_of (handle names fuel now config c t).1)
  handle-Keeps now c t =
      let k = handle-Contract names fuel now config c t in
      elim (Bool-cases (admin_only c.request && not (passes (verify_admin_key config c.key)))) [
        | inl b ↦ same-Keeps _ _ (rw b at k).1
        | inr b ↦ Served-Keeps now c.request _ _ _ (rw b at k)
      ]

  -- The table after calls at their times, one after the other.
  unfoldable pub run : List (ℤ × Call F) → Table F → Table F
  run [] t = t
  run ((now, c) ∷ cs) t = run cs (handle names fuel now config c t).1

  -- Whatever calls are handled, the policy of a version that exists stays: its document, the time
  -- of its issue and its creator.
  pub run-immutable :
      (calls : List (ℤ × Call F)) (t : Table F) (w : String) (e : Entry F)
      → entry_at t w ≡ some e
      → entry_at (run calls t) w ≡ some e
  unfolding run Keeps
  run-immutable [] t w e h = h
  run-immutable ((now, c) ∷ cs) t w e h =
      run-immutable cs (handle names fuel now config c t).1 w e (handle-Keeps now c t w e h)

  store_derived-WellFormed :
      (now : ℤ) (doc : Option (Fields F)) (w c : Option String) (t : Table F)
      → WellFormed t
      → ((x : String) → w ≡ some x → get_policy t x ≡ none)
      → WellFormed (close_session (store_derived names now fuel doc w c (open_session t)).1)
  unfolding create_policy
  store_derived-WellFormed now (some doc) (some w) c t h m =
      let e = m w refl in rw (store_derived, create_policy, e) (append-WellFormed t _ e refl h)
  store_derived-WellFormed now none w c t h m = h
  store_derived-WellFormed now (some doc) none c t h m = h

  serve-WellFormed :
      (now : ℤ) (req : Request F) (t : Table F)
      → WellFormed t
      → WellFormed (close_session (dispatch names fuel now req (open_session t)).1)
  unfolding create_handler create_policy activate_handler activate_policy update_handler
      update_asset_profile
  serve-WellFormed now read_active t h = h
  serve-WellFormed now (read_policy v) t h = elim (Option-cases (get_policy t v)) [
    | inl e ↦ rw (dispatch, e) h
    | inr (r, e) ↦ rw (dispatch, e) h
  ]
  serve-WellFormed now (read_asset v a) t h = elim (Option-cases (get_policy t v)) [
    | inl e ↦ rw (dispatch, e) h
    | inr (r, e) ↦ rw (dispatch, e) h
  ]
  serve-WellFormed now (create v g as') t h = elim (Option-cases (get_policy t v)) [
    | inl e ↦ rw (dispatch, create_handler, e, create_policy, e) (append-WellFormed t _ e refl h)
    | inr (r, e) ↦ rw (dispatch, create_handler, e) h
  ]
  serve-WellFormed now (activate v) t h = elim (Option-cases (get_policy (deactivate_all t) v)) [
    | inl e ↦ rw (dispatch, activate_handler, activate_policy, e) h
    | inr (r, e) ↦ rw (dispatch, activate_handler, activate_policy, e) (activate-WellFormed v t h)
  ]
  serve-WellFormed now (update v u) t h = elim (Option-cases (get_policy t v)) [
    | inl e ↦ rw (dispatch, update_handler, update_asset_profile, e) h
    | inr (r, e) ↦
        rw (dispatch, update_handler, update_asset_profile, e)
          (store_derived-WellFormed now _ _ _ t h (free-missing names fuel now t v fuel _ _))
  ]

  handle-WellFormed :
      (now : ℤ) (c : Call F) (t : Table F)
      → WellFormed t
      → WellFormed (handle names fuel now config c t).1
  unfolding handle
  handle-WellFormed now c t h = elim (Bool-cases (admin_only c.request)) [
    | inl a ↦ elim (Bool-cases (passes (verify_admin_key config c.key))) [
      | inl p ↦ rw (handle, a, p) (serve-WellFormed now c.request t h)
      | inr p ↦ rw (handle, a, p) h
    ]
    | inr a ↦ rw (handle, a) (serve-WellFormed now c.request t h)
  ]

  -- Whatever calls are handled, a table in which no version stands twice and at most one is active
  -- stays so.
  pub run-WellFormed :
      (calls : List (ℤ × Call F)) (t : Table F) → WellFormed t → WellFormed (run calls t)
  unfolding run
  run-WellFormed [] t h = h
  run-WellFormed ((now, c) ∷ cs) t h =
      run-WellFormed cs (handle names fuel now config c t).1 (handle-WellFormed now c t h)
