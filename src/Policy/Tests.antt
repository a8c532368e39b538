-- ===== src/Policy/Tests.antt =====
-- The policy store on two versions and some calls.
use pcag.Policy.Implements.{handle-Contract}
use pcag.Policy.Refines.{store_of, Contract}
use pcag.Core.Json.{int, end, obj, put_field, str, num, lookup, field, Fields}
use pcag.Core.Int.{pos, ℤ}
use pcag.Policy.{
  derived_version, set_active, free_version, create_policy, deactivate_all, activate_policy,
  derive_document, derived, open_session, list_versions, get_active_version, update_asset_profile,
  put_metadata, Naming, get_policy, Table, PolicyRecord, ProfileUpdate, put_profile,
}
use pcag.Policy.Admin.{
  create_handler, update_handler, activate_handler, activate, update, created_document, create,
  handle, Call, Request,
}
use pcag.Policy.Runs.{run-immutable, run-WellFormed, run}
use pcag.Policy.Versions.{update_asset_profile-terminates, Different}
use pcag.Core.Auth.{listed, AuthConfig}
use pcag.Policy.Table.{Entry, entry_at, WellFormed}
use pcag.Base.{ℕ, ◌≡◌, inr, refl, arith, zero, suc, String, true, none, some, List, [], ◌∷◌}

abbrev letter : ℕ → String
letter zero = "a"
letter (suc zero) = "b"
letter (suc (suc n)) = "c"

abbrev names : Naming
names = record { show = λ n. "7"; uuid8 = letter }

abbrev robot : Fields ℕ
robot = field "sil" (num (int (pos 2))) end

abbrev v1 : PolicyRecord ℕ
v1 = record {
  policy_version_id = "v1";
  issued_at_ms = pos 1;
  document = created_document "v1" end (field "robot" (obj robot) end);
  is_active = true;
  created_by = none;
}

abbrev store : Table ℕ
store = v1 ∷ []

abbrev auth : AuthConfig
auth = record { enabled = true; api_keys = []; admin_keys = "secret" ∷ [] }

abbrev faster : ProfileUpdate ℕ
faster = record {
  asset_id = "robot";
  profile = field "sil" (num (int (pos 3))) end;
  new_policy_version_id = some "v1";
  created_by = none;
  change_reason = some "faster";
}

abbrev by : String → Request ℕ → Call ℕ
by key request = record { key = some key; request = request }

abbrev calls : List (ℤ × Call ℕ)
calls =
    (pos 2, by "secret" (create "v2" end end))
    ∷ (pos 3, by "secret" (update "v1" faster))
    ∷ (pos 4, by "guess" (activate "v2"))
    ∷ (pos 5, by "secret" (activate "v3"))
    ∷ (pos 6, by "secret" (activate "v2"))
    ∷ []

-- The version that is active, and the versions, after the calls.
ran : get_active_version (run names 5 auth calls store) ≡ some "v2"
unfolding run handle get_active_version listed activate_handler activate_policy set_active
    get_policy deactivate_all update_handler update_asset_profile create_handler create_policy
    put_profile put_metadata lookup put_field free_version derived_version
ran = refl

versions : list_versions (run names 5 auth calls store) ≡ "v1" ∷ "v2" ∷ "v1-rev-7-a" ∷ []
unfolding list_versions run handle get_active_version listed activate_handler activate_policy
    set_active get_policy deactivate_all update_handler update_asset_profile create_handler
    create_policy put_profile put_metadata lookup put_field free_version derived_version
versions = refl

handle-Contract_example :
    Contract
      (pos 3)
      auth
      (by "secret" (update "v1" faster))
      (store_of store)
      (handle names 5 (pos 3) auth (by "secret" (update "v1" faster)) store).0
      (store_of (handle names 5 (pos 3) auth (by "secret" (update "v1" faster)) store).1)
handle-Contract_example =
    handle-Contract names 5 (pos 3) auth (by "secret" (update "v1" faster)) store

abbrev entry_1 : Entry ℕ
entry_1 = record { issued_at_ms = pos 1; document = v1.document; created_by = none }

found : entry_at store "v1" ≡ some entry_1
unfolding get_policy
found = refl

run-immutable_example : entry_at (run names 5 auth calls store) "v1" ≡ some entry_1
run-immutable_example = run-immutable names 5 auth calls store "v1" entry_1 found

store-WellFormed : WellFormed store
unfolding get_policy
store-WellFormed = ((refl, tt), inr tt)

run-WellFormed_example : WellFormed (run names 5 auth calls store)
run-WellFormed_example = run-WellFormed names 5 auth calls store store-WellFormed

letters_differ : Different names (pos 3) 3
letters_differ zero zero p q = absurd (omega (arith, p))
letters_differ (suc m) zero p q = absurd (omega (arith, p))
letters_differ zero (suc zero) p q = refl
letters_differ zero (suc (suc n)) p q = refl
letters_differ (suc zero) (suc zero) p q = absurd (omega (arith, p))
letters_differ (suc zero) (suc (suc n)) p q = refl
letters_differ (suc (suc m)) (suc zero) p q = absurd (omega (arith, p))
letters_differ (suc (suc m)) (suc (suc n)) p q = absurd (omega (arith, p, q))

row_1 : get_policy store "v1" ≡ some v1
unfolding get_policy
row_1 = refl

abbrev derived_document : Fields ℕ
derived_document = field "policy_version_id" (str "v1") (
    field "global_policy" (obj end) (
      field "assets" (obj (field "robot" (obj faster.profile) end)) (
        field "metadata"
          (obj (
            field "derived_from_version" (str "v1")
              (field "updated_asset_id" (str "robot") (field "change_reason" (str "faster") end))))
          end)))

derives : derive_document "v1" faster v1.document ≡ some derived_document
unfolding put_profile put_metadata lookup put_field
derives = refl

update_asset_profile-terminates_example :
    (r' : PolicyRecord ℕ) × ((update_asset_profile names
        (pos 3)
        2
        "v1"
        faster
        (open_session store)).0
      ≡ derived r')
    × (get_policy store r'.policy_version_id ≡ none)
update_asset_profile-terminates_example =
    update_asset_profile-terminates names (pos 3) "v1" faster store 2 v1 derived_document row_1
      derives (omega arith) letters_differ
