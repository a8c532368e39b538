-- ===== src/Core/Auth.antt =====
-- pcag/core/middleware/auth.py: the check of the header `X-API-Key` or `X-Admin-Key` against the
-- section `auth` of services.yaml. A header that is missing is `none`.
use pcag.Base.{Bool, true, false, String, Option, none, some, List, [], ◌∷◌, str_eq, if◌then◌else◌}

pub record AuthConfig : Type 0 where
  pub enabled : Bool
  pub api_keys : List String
  pub admin_keys : List String

pub data Verified : Type 0 where
  disabled key_required invalid_key : Verified
  valid : String → Verified

-- `key in valid_keys`
unfoldable pub listed : String → List String → Bool
listed k [] = false
listed k (j ∷ js) = if str_eq j k then true else listed k js

abbrev check_key : List String → Option String → Verified
check_key keys none = key_required
check_key keys (some k) =
    if str_eq k "" then key_required else if listed k keys then valid k else invalid_key

abbrev pub verify_api_key : AuthConfig → Option String → Verified
verify_api_key c k = if c.enabled then check_key c.api_keys k else disabled

abbrev pub verify_admin_key : AuthConfig → Option String → Verified
verify_admin_key c k = if c.enabled then check_key c.admin_keys k else disabled

-- The handler runs.
abbrev pub passes : Verified → Bool
passes disabled = true
passes (valid k) = true
passes key_required = false
passes invalid_key = false
