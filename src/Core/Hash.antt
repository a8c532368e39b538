-- ===== src/Core/Hash.antt =====
-- pcag/core/utils/hash_utils.py. SHA-256 (of the text's UTF-8 bytes, in hexadecimal) and the
-- formatting of floats are parameters.
use Prim.Native.String.{◌++◌ as text_append}
use pcag.Base.{String}
use pcag.Core.Json.{Json}
use pcag.Core.Canonicalize.{canonicalize}

pub record Hashing (F : Type 0) : Type 0 where
  pub sha256 : String → String
  pub format3 : F → String

module _ {F : Type 0} (h : Hashing F) where
  unfoldable pub genesis_hash : String
  genesis_hash = h.sha256 ""

  unfoldable pub compute_hash : String → String
  compute_hash text = h.sha256 text

  unfoldable pub compute_event_hash : String → Json F → String
  unfolding compute_hash
  compute_event_hash prev_hash payload =
      compute_hash (text_append prev_hash (canonicalize h.format3 payload))

  unfoldable pub compute_sensor_hash : Json F → String
  unfolding compute_hash
  compute_sensor_hash snapshot = compute_hash (canonicalize h.format3 snapshot)
