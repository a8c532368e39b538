-- ===== src/Policy/Admin.antt =====
-- The handlers of pcag/apps/policy_store/routes.py and pcag/apps/policy_admin/routes.py that read
-- or change policies. A stored document satisfies the types of the responses, which are not checked
-- again.
use pcag.Core.Auth.{verify_admin_key, passes, AuthConfig}
use pcag.Policy.{
  unknown_version, raised, derived, close_session, open_session, create_policy, activate_policy,
  get_policy, derived, update_asset_profile, get_active_version, Table, Updated, ProfileUpdate,
  Session, Naming,
}
use pcag.Core.Int.{ℤ}
use pcag.Core.Json.{end, str, field, lookup, obj, Fields, Json}
use pcag.Base.{ℕ, String, Bool, true, false, Option, none, some, str_eq, if◌then◌else◌}

pub data Request (F : Type 0) : Type 0 where
  read_active : Request F
  read_policy : String → Request F
  read_asset : String → String → Request F
  create : String → Fields F → Fields F → Request F
  activate : String → Request F
  update : String → ProfileUpdate F → Request F

-- A call carries the admin key, which only the handlers of the policy admin look at.
pub record Call (F : Type 0) : Type 0 where
  pub key : Option String
  pub request : Request F

-- The bodies, and the errors by their reason: 401, 404, 409, 500.
pub data Response (F : Type 0) : Type 0 where
  unauthorized no_active not_found no_asset conflict failed : Response F
  active : String → Response F
  document : String → ℤ → Json F → Json F → Response F
  profile : String → String → Fields F → Response F
  created : String → ℤ → Response F
  activated : String → ℤ → Option String → Response F
  updated : String → String → ℤ → String → Response F

module _ {F : Type 0} where
  abbrev pub active_response : Option String → Response F
  active_response none = no_active
  active_response (some v) = if str_eq v "" then no_active else active v

  abbrev or_empty : Option (Json F) → Json F
  or_empty none = obj end
  or_empty (some v) = v

  abbrev pub document_response : String → ℤ → Fields F → Response F
  document_response v issued doc =
      document v issued (or_empty (lookup "global_policy" doc)) (or_empty (lookup "assets" doc))

  -- `record.get_asset_profile(asset_id)`, where an empty profile counts as none.
  abbrev get_asset_profile : String → Json F → Option (Fields F)
  get_asset_profile a (obj assets) = elim (lookup a assets) [
    | some (obj (field k v fs)) ↦ some (field k v fs)
    | _ ↦ none
  ]
  get_asset_profile a _ = none

  abbrev pub profile_response : String → String → Fields F → Response F
  profile_response v a doc = elim (get_asset_profile a (or_empty (lookup "assets" doc))) [
    | none ↦ no_asset
    | some fs ↦ profile v a fs
  ]

  abbrev pub created_document : String → Fields F → Fields F → Fields F
  created_document v global assets =
      field "policy_version_id" (str v)
        (field "global_policy" (obj global) (field "assets" (obj assets) end))

  abbrev pub admin_only : Request F → Bool
  admin_only read_active = false
  admin_only (read_policy v) = false
  admin_only (read_asset v a) = false
  admin_only (create v g as') = true
  admin_only (activate v) = true
  admin_only (update v u) = true

module _ {F : Type 0} (names : Naming) (fuel : ℕ) (now : ℤ) where
  unfoldable pub create_handler : String → Fields F → Fields F → Session F → Response F × Session F
  create_handler v global assets s = elim (get_policy s.working v) [
    | some r ↦ (conflict, s)
    | none ↦ elim (create_policy v now (created_document v global assets) none s) [
      | none ↦ (failed, s)
      | some p ↦ (created p.0.policy_version_id p.0.issued_at_ms, p.1)
    ]
  ]

  unfoldable pub activate_handler : String → Session F → Response F × Session F
  activate_handler v s =
      let previous = get_active_version s.working in
      let ended = activate_policy v s in
      (elim ended.0 [ none ↦ not_found | some r ↦ activated v now previous ], ended.1)

  abbrev pub updated_response : String → String → Updated F → Response F
  updated_response v a unknown_version = not_found
  updated_response v a raised = failed
  updated_response v a (derived r) = updated r.policy_version_id a r.issued_at_ms v

  unfoldable pub update_handler : String → ProfileUpdate F → Session F → Response F × Session F
  update_handler v u s =
      let ended =
        update_asset_profile names now fuel v (record u { created_by = some "admin" }) s in
      (updated_response v u.asset_id ended.0, ended.1)

  abbrev pub dispatch : Request F → Session F → Response F × Session F
  dispatch read_active s = (active_response (get_active_version s.working), s)
  dispatch (read_policy v) s = elim (get_policy s.working v) [
    | none ↦ (not_found, s)
    | some r ↦ (document_response r.policy_version_id r.issued_at_ms r.document, s)
  ]
  dispatch (read_asset v a) s = elim (get_policy s.working v) [
    | none ↦ (not_found, s)
    | some r ↦ (profile_response v a r.document, s)
  ]
  dispatch (create v global assets) s = create_handler v global assets s
  dispatch (activate v) s = activate_handler v s
  dispatch (update v u) s = update_handler v u s

  -- One request: the key is checked, a session is opened, the handler runs, the session is closed.
  unfoldable pub handle : AuthConfig → Call F → Table F → Response F × Table F
  handle config c t =
      if admin_only c.request
      then (if passes (verify_admin_key config c.key)
          then (let ended = dispatch c.request (open_session t) in (ended.0, close_session ended.1))
          else (unauthorized, t))
      else (let ended = dispatch c.request (open_session t) in (ended.0, close_session ended.1))
