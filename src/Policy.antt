-- ===== src/Policy.antt =====
-- The policy store: `PolicyRecord` of pcag/core/database/models.py and
-- pcag/apps/policy_store/repository.py. A table is the list of its rows in the order of a query,
-- and a session works on a copy of it that only a commit makes permanent.
pub mod Admin
pub mod Versions
pub mod Table
pub mod Refines
pub mod Implements
pub mod Runs
mod Tests
use pcag.Core.Json.{lookup, str, obj, end, put_field, Fields, Json}
use Prim.Native.String.{String, ◌∷◌, ◌++◌ as append}
use pcag.Base.{
  ◌>>=◌, ℕ, ◌+◌, zero, suc, String, Bool, true, false, Option, none, some, List, [], ◌∷◌, ◌++◌,
  str_eq, if◌then◌else◌,
}
use pcag.Core.Int.{ℤ}

pub record PolicyRecord (F : Type 0) : Type 0 where
  pub policy_version_id : String
  pub issued_at_ms : ℤ
  pub document : Fields F
  pub is_active : Bool
  pub created_by : Option String

abbrev pub Table : Type 0 → Type 0
Table F = List (PolicyRecord F)

pub record Session (F : Type 0) : Type 0 where
  pub working : Table F
  pub committed : Table F

-- What the names of derived versions are made from: `str` of an integer, and the first 8 digits of
-- the uuids drawn one after the other.
pub record Naming : Type 0 where
  pub show : ℤ → String
  pub uuid8 : ℕ → String

pub record ProfileUpdate (F : Type 0) : Type 0 where
  pub asset_id : String
  pub profile : Fields F
  pub new_policy_version_id : Option String
  pub created_by : Option String
  pub change_reason : Option String

unfoldable pub derived_version : Naming → String → ℤ → ℕ → String
derived_version names v now n =
    append v (append "-rev-" (append (names.show now) (append "-" (names.uuid8 n))))

-- `new_policy_version_id or f"…"`, with the number of the uuid that is next.
abbrev pub first_candidate : Naming → String → ℤ → Option String → String × ℕ
first_candidate names v now none = (derived_version names v now 0, 1)
first_candidate names v now (some w) =
    if str_eq w "" then (derived_version names v now 0, 1) else (w, 0)

module _ {F : Type 0} where
  -- `get_db` opens a session and closes it, which drops what is not committed.
  abbrev pub open_session : Table F → Session F
  open_session t = record { working = t; committed = t }

  abbrev pub close_session : Session F → Table F
  close_session s = s.committed

  abbrev pub commit : Session F → Session F
  commit s = record { working = s.working; committed = s.working }

  -- `filter(is_active == True).first()`
  unfoldable pub get_active_version : Table F → Option String
  get_active_version [] = none
  get_active_version (r ∷ t) =
      if r.is_active then some r.policy_version_id else get_active_version t

  unfoldable pub get_policy : Table F → String → Option (PolicyRecord F)
  get_policy [] v = none
  get_policy (r ∷ t) v = if str_eq r.policy_version_id v then some r else get_policy t v

  abbrev pub add_row : PolicyRecord F → Option (PolicyRecord F) → Session F → Option (Session F)
  add_row r (some old) s = none
  add_row r none s = some (commit (record s { working = s.working ++ r ∷ [] }))

  -- The insertion of a version that is there fails: `policy_version_id` is the primary key.
  unfoldable pub create_policy :
      String → ℤ → Fields F → Option String → Session F → Option (PolicyRecord F × Session F)
  create_policy v issued document created_by s =
      let r : PolicyRecord F = record {
        policy_version_id = v;
        issued_at_ms = issued;
        document = document;
        is_active = false;
        created_by = created_by;
      } in
      elim (add_row r (get_policy s.working v) s) [ none ↦ none | some s' ↦ some (r, s') ]

  abbrev with_active : Bool → PolicyRecord F → PolicyRecord F
  with_active b r = record r { is_active = b }

  -- `filter(is_active == True).update({"is_active": False})`
  unfoldable pub deactivate_all : Table F → Table F
  deactivate_all [] = []
  deactivate_all (r ∷ t) = with_active false r ∷ deactivate_all t

  -- `record.is_active = True`
  unfoldable pub set_active : String → Table F → Table F
  set_active v [] = []
  set_active v (r ∷ t) =
      if str_eq r.policy_version_id v then with_active true r ∷ t else r ∷ set_active v t

  unfoldable pub activate_policy : String → Session F → Option (PolicyRecord F) × Session F
  activate_policy v s =
      let down = record s { working = deactivate_all s.working } in
      elim (get_policy down.working v) [
        | none ↦ (none, down)
        | some r ↦ (
          some (with_active true r),
          commit (record down { working = set_active v down.working }),
        )
      ]

  -- `doc.setdefault(key, {})`, where the code goes on to index what is there.
  abbrev pub setdefault : Option (Json F) → Option (Fields F)
  setdefault none = some end
  setdefault (some (obj fs)) = some fs
  setdefault _ = none

  abbrev put_reason : Option String → Fields F → Fields F
  put_reason none fs = fs
  put_reason (some why) fs = if str_eq why "" then fs else put_field "change_reason" (str why) fs

  -- `doc["assets"][asset_id] = profile`; on assets that are no dictionary a TypeError.
  unfoldable pub put_profile : ProfileUpdate F → Fields F → Option (Fields F)
  put_profile u doc = do
    profiles ← setdefault (lookup "assets" doc)
    some (put_field "assets" (obj (put_field u.asset_id (obj u.profile) profiles)) doc)

  unfoldable pub put_metadata : String → ProfileUpdate F → Fields F → Option (Fields F)
  put_metadata v u doc = do
    metadata ← setdefault (lookup "metadata" doc)
    let about = put_field "derived_from_version" (str v) metadata
    let about' = put_field "updated_asset_id" (str u.asset_id) about
    some (put_field "metadata" (obj (put_reason u.change_reason about')) doc)

  -- The document of the derived version, but for its name.
  abbrev pub derive_document : String → ProfileUpdate F → Fields F → Option (Fields F)
  derive_document v u doc = put_profile u doc >>= put_metadata v u

  -- The loop that draws names until one is free, for at most `fuel` draws.
  unfoldable pub free_version : Table F → Naming → String → ℤ → ℕ → ℕ → String → Option String
  free_version t names v now zero n candidate = elim (get_policy t candidate) [
    | none ↦ some candidate
    | some r ↦ none
  ]
  free_version t names v now (suc fuel) n candidate =
      let rest = free_version t names v now fuel (n + 1) (derived_version names v now n) in
      elim (get_policy t candidate) [ none ↦ some candidate | some r ↦ rest ]

-- How an update of a profile ends: no such version, an exception, or a new version.
pub data Updated (F : Type 0) : Type 0 where
  unknown_version raised : Updated F
  derived : PolicyRecord F → Updated F

module _ {F : Type 0} (names : Naming) (now : ℤ) (fuel : ℕ) where
  abbrev pub store_derived :
      Option (Fields F) → Option String → Option String → Session F → Updated F × Session F
  store_derived (some doc) (some w) created_by s =
      elim (create_policy w now (put_field "policy_version_id" (str w) doc) created_by s) [
        | none ↦ (raised, s)
        | some p ↦ (derived p.0, p.1)
      ]
  store_derived _ _ created_by s = (raised, s)

  unfoldable pub update_asset_profile : String → ProfileUpdate F → Session F → Updated F × Session F
  update_asset_profile v u s = elim (get_policy s.working v) [
    | none ↦ (unknown_version, s)
    | some r ↦
        let first = first_candidate names v now u.new_policy_version_id in
        store_derived (derive_document v u r.document)
          (free_version s.working names v now fuel first.1 first.0) u.created_by s
  ]

module _ {F : Type 0} where
  unfoldable pub list_versions : Table F → List String
  list_versions [] = []
  list_versions (r ∷ t) = r.policy_version_id ∷ list_versions t
