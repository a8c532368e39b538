-- ===== src/Policy/Refines.antt =====
-- The abstract policy store, a map of immutable entries and a pointer, and that the handlers
-- implement it.
use pcag.Policy.{get_active_version, derive_document, ProfileUpdate, Table}
use pcag.Core.Json.{str, put_field, Fields}
use pcag.Core.Auth.{verify_admin_key, passes, AuthConfig}
use pcag.Policy.Admin.{
  read_active, updated, failed, update, activate, create, profile_response, unauthorized,
  read_asset, created_document, document_response, activated, admin_only, created, read_policy,
  not_found, Call, active_response, conflict, Request, Response,
}
use pcag.Policy.Table.{entry_at, Entry}
use pcag.Core.Int.{ℤ}
use pcag.Base.{◌≡◌, ◌⊎◌, String, not, ◌&&◌, Option, none, some, str_eq, if◌then◌else◌}

pub record Store (F : Type 0) : Type 0 where
  pub versions : String → Option (Entry F)
  pub active : Option String

module _ {F : Type 0} where
  abbrev pub insert : String → Entry F → Store F → Store F
  insert v e s = record s { versions = λ w. if str_eq v w then some e else s.versions w }

  -- The store that a table holds.
  abbrev pub store_of : Table F → Store F
  store_of t = record { versions = entry_at t; active = get_active_version t }

module _ {F : Type 0} (now : ℤ) where
  -- The entry of a version that is derived from `doc` under the name `w`.
  abbrev pub IsDerived : String → ProfileUpdate F → Fields F → String → Entry F → Type 0
  IsDerived v u doc w e =
      (doc' : Fields F) × (derive_document v u doc ≡ some doc')
      × (e ≡ record {
        issued_at_ms = now;
        document = put_field "policy_version_id" (str w) doc';
        created_by = some "admin";
      })

  -- What a read or a change of the entry under its version may answer, and the store after it.
  abbrev pub Read :
      (Entry F → Response F) → Option (Entry F) → Store F → Response F → Store F → Type 0
  Read f none s answer s' = (answer ≡ not_found) × (s' ≡ s)
  Read f (some e) s answer s' = (answer ≡ f e) × (s' ≡ s)

  abbrev pub Created :
      String → Fields F → Fields F → Option (Entry F) → Store F → Response F → Store F → Type 0
  Created v global assets (some e) s answer s' = (answer ≡ conflict) × (s' ≡ s)
  Created v global assets none s answer s' =
      (answer ≡ created v now)
      × (s'
          ≡ insert v
              (record {
                issued_at_ms = now;
                document = created_document v global assets;
                created_by = none;
              })
              s)

  abbrev pub Activated : String → Option (Entry F) → Store F → Response F → Store F → Type 0
  Activated v none s answer s' = (answer ≡ not_found) × (s' ≡ s)
  Activated v (some e) s answer s' =
      (answer ≡ activated v now s.active) × (s' ≡ record s { active = some v })

  -- An update fails, or puts a derived entry under a name that was free.
  abbrev pub UpdatedTo :
      String → ProfileUpdate F → Option (Entry F) → Store F → Response F → Store F → Type 0
  UpdatedTo v u none s answer s' = (answer ≡ not_found) × (s' ≡ s)
  UpdatedTo v u (some old) s answer s' =
      ((answer ≡ failed) × (s' ≡ s))
      ⊎ ((w : String) × (e : Entry F) × (s.versions w ≡ none)
          × IsDerived v u old.document w e
          × (answer ≡ updated w u.asset_id now v)
          × (s' ≡ insert w e s))

  abbrev pub Served : Request F → Store F → Response F → Store F → Type 0
  Served read_active s answer s' = (answer ≡ active_response s.active) × (s' ≡ s)
  Served (read_policy v) s answer s' =
      Read (λ e. document_response v e.issued_at_ms e.document) (s.versions v) s answer s'
  Served (read_asset v a) s answer s' =
      Read (λ e. profile_response v a e.document) (s.versions v) s answer s'
  Served (create v global assets) s answer s' = Created v global assets (s.versions v) s answer s'
  Served (activate v) s answer s' = Activated v (s.versions v) s answer s'
  Served (update v u) s answer s' = UpdatedTo v u (s.versions v) s answer s'

  -- The contract of a call: an admin's request without a key that passes changes nothing.
  abbrev pub Contract : AuthConfig → Call F → Store F → Response F → Store F → Type 0
  Contract config c s answer s' =
      if admin_only c.request && not (passes (verify_admin_key config c.key))
      then (answer ≡ unauthorized) × (s' ≡ s)
      else Served c.request s answer s'
