-- ===== src/Gateway/Helpers.antt =====
-- The helpers of pcag/apps/gateway/routes.py, and the values that its stages share.
use Prim.Native.Char.{code}
use Prim.Native.String.{count}
use pcag.Base.{
  ℕ, String, Bool, false, ◌||◌, Option, none, some, List, [], ◌∷◌, ◌==◌, str_eq, if◌then◌else◌,
}
use pcag.Core.Int.{pos}
use pcag.Core.Text.{concat}
use pcag.Core.Json.{
  Number, Json, Items, Fields, lookup, null, bool, num, str, obj, nil, cons, end, field,
}
use pcag.Core.Integrity
use pcag.Core.Integrity.{DivergenceThreshold, Violation, Evidence, check_integrity}
use pcag.Gateway.Types.{
  ControlRequest, ControlStatus, ControlResponse, Call, raised, http_error, ok, Snapshot,
  AssetProfile, AbortResult,
}

-- The number of the next event and the hash before it: `evidence_seq` and `prev_hash`.
pub record Position : Type 0 where
  pub seq : ℕ
  pub prev_hash : String

abbrev pub or_null : {F : Type 0} → Option String → Json F
or_null none = null
or_null (some s) = str s

-- `d.get(key, "unknown")`
abbrev pub or_unknown : {F : Type 0} → Option (Option String) → Json F
or_unknown none = str "unknown"
or_unknown (some value) = or_null value

abbrev pub number : {F : Type 0} → ℕ → Json F
number n = num (Number.int (pos n))

abbrev pub number_or_null : {F : Type 0} → Option ℕ → Json F
number_or_null none = null
number_or_null (some n) = number n

abbrev pub bool_or_null : {F : Type 0} → Option Bool → Json F
bool_or_null none = null
bool_or_null (some b) = bool b

-- A dictionary literal.
abbrev pub dict : {F : Type 0} → List (String × Json F) → Fields F
dict [] = end
dict ((k, v) ∷ es) = field k v (dict es)

abbrev pub code_of : Violation → String
code_of Integrity.policy_mismatch = "INTEGRITY_POLICY_MISMATCH"
code_of Integrity.sensor_hash_mismatch = "INTEGRITY_SENSOR_HASH_MISMATCH"
code_of Integrity.timestamp_expired = "INTEGRITY_TIMESTAMP_EXPIRED"
code_of Integrity.timestamp_future = "INTEGRITY_TIMESTAMP_FUTURE"
code_of Integrity.sensor_divergence = "INTEGRITY_SENSOR_DIVERGENCE"

-- `_extract_fault_injection` and `_fault_enabled`.
abbrev pub fault_enabled : {F : Type 0} → Option (Json F) → String → Bool
fault_enabled (some (obj fs)) family = elim (lookup "fault_family" fs) [
  | some (str s) ↦ str_eq s family
  | _ ↦ false
]
fault_enabled _ family = false

-- `_extract_runtime_context`
abbrev pub extract_runtime_context : {F : Type 0} → Option (Json F) → Option (Fields F)
extract_runtime_context (some (obj fs)) = some fs
extract_runtime_context _ = none

replace_last : String → String
replace_last String.[] = ""
replace_last (String.◌∷◌ c String.[]) = if code c == b'0' then "1" else "0"
replace_last (String.◌∷◌ c (String.◌∷◌ d s)) = String.◌∷◌ c (replace_last (String.◌∷◌ d s))

unfoldable pub force_hash_mismatch : String → String
unfolding replace_last
force_hash_mismatch hash =
    if count hash == 64
    then replace_last hash
    else "ffffffffffffffffffffffffffffffffffffffffffffffffffffffffffffffff"

-- `_build_divergence_thresholds`: the entries that are refused are passed over.
unfoldable pub build_divergence_thresholds :
    {F : Type 0} → List (Option (DivergenceThreshold F)) → List (DivergenceThreshold F)
build_divergence_thresholds [] = []
build_divergence_thresholds (none ∷ ts) = build_divergence_thresholds ts
build_divergence_thresholds (some t ∷ ts) = t ∷ build_divergence_thresholds ts

-- `text or default`
abbrev non_empty_or : String → Option String → String
non_empty_or default none = default
non_empty_or default (some text) = if str_eq text "" then default else text

-- Why `_abort_transaction` raises, if it does.
abbrev pub abort_error : Call AbortResult → Option String
abort_error (raised text) = some text
abort_error (http_error n detail) = some (concat ("OT abort failed: " ∷ detail ∷ []))
abort_error (ok a) =
    if str_eq a.status "ABORTED" || str_eq a.status "ALREADY_ABORTED"
    then none
    else some (non_empty_or (concat ("Unexpected OT abort status: " ∷ a.status ∷ [])) a.reason)

-- `abort_result.get("status")`
abbrev pub abort_status : Call AbortResult → String
abort_status (ok a) = a.status
abort_status _ = ""

abbrev pub or_default : {A : Type 0} → A → Option A → A
or_default d none = d
or_default d (some a) = a

-- `_response`
abbrev first_of_items : {F : Type 0} → Items F → Option (Json F)
first_of_items nil = none
first_of_items (cons x xs) = some x

abbrev items_or_none : {F : Type 0} → Items F → Option (Items F)
items_or_none nil = none
items_or_none xs = some xs

abbrev pub response :
    {F : Type 0}
    → String
    → ControlStatus
    → Option String
    → Option String
    → Items F
    → ControlResponse F
response tx status reason_code evidence_ref actions = record {
  transaction_id = tx;
  status = status;
  reason_code = reason_code;
  evidence_ref = evidence_ref;
  alternative_action = first_of_items actions;
  alternative_actions = items_or_none actions;
}

-- What the later stages read: the request, and what the integrity stage has fetched.
pub record Context (F : Type 0) : Type 0 where
  pub request : ControlRequest F
  pub active_version : String
  pub snapshot : Snapshot F
  pub profile : AssetProfile F
