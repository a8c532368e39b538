-- ===== src/Sensors/Tests.antt =====
-- One asset at the PLC and one whose configuration asks for the mock source.
use pcag.Sensors.Snapshot.{get_latest_snapshot-Served, OnlyReal, Served}
use pcag.Base.{ℕ, ◌+◌, ◌≡◌, refl, true, false, Option, none, some, [], ◌∷◌, ◌++◌}
use pcag.Base.Dict.{Dict, get, put}
use pcag.Sensors.{
  remove, has_source, build_routing, initialize, Composite, Plant, read_snapshot, Response,
  AssetProps, get_latest_snapshot, snapshot, http_error,
}
use pcag.Core.Json.{Fields, lookup, obj, str, end, field}
use pcag.Core.Samples.{hashing}

abbrev arm : Dict AssetProps
arm = ("arm", record { source = none; has_mappings = true }) ∷ []

abbrev toy : Dict AssetProps
toy = ("toy", record { source = some "mock"; has_mappings = false }) ∷ []

abbrev cold : Fields ℕ
cold = field "state" (str "cold") end

-- The device answers with a payload to hash.
abbrev plant : Dict AssetProps → Plant ℕ ℕ
plant assets = record {
  config =
      λ w. some (record { plc_adapter_url = true; safety_cluster_url = true; assets = assets });
  read = λ s a w. (some (field "__integrity_hash_payload" (obj cold) cold), w + 1);
  now = λ w. w;
}

abbrev snapshot_of : Response ℕ × Option Composite × ℕ → Option (Fields ℕ × ℕ)
snapshot_of (snapshot r, o, w) = some (r.sensor_snapshot, r.timestamp_ms)
snapshot_of (http_error n, o, w) = none

-- An asset with mappings and no source is read from the PLC; the payload is not passed on.
automatic : snapshot_of (get_latest_snapshot hashing (plant arm) true "arm" none 0) ≡ some (cold, 1)
unfolding get_latest_snapshot read_snapshot initialize build_routing has_source remove lookup get
    put
automatic = refl

-- One asset with the mock source stops the whole gateway in production.
refused : snapshot_of (get_latest_snapshot hashing (plant (toy ++ arm)) true "arm" none 0) ≡ none
unfolding get_latest_snapshot read_snapshot initialize build_routing has_source remove lookup get
    put
refused = refl

allowed :
    snapshot_of (get_latest_snapshot hashing (plant (toy ++ arm)) false "toy" none 0)
    ≡ some (cold, 1)
unfolding get_latest_snapshot read_snapshot initialize build_routing has_source remove lookup get
    put
allowed = refl

get_latest_snapshot-Served_example :
    Served hashing (plant arm) "arm" 0 (get_latest_snapshot hashing (plant arm) true "arm" none 0).0
    × OnlyReal (get_latest_snapshot hashing (plant arm) true "arm" none 0).1
get_latest_snapshot-Served_example = get_latest_snapshot-Served hashing (plant arm) "arm" none 0 tt
