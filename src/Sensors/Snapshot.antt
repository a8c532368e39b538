-- ===== src/Sensors/Snapshot.antt =====
-- In production every snapshot is read from a real source.
use pcag.Core.Hash.{compute_sensor_hash, Hashing}
use pcag.Base.{
  subst, bound, step_of, ◌≡◌, inl, inr, refl, ap, arith, String, Bool, true, false, ◌&&◌, Option,
  none, some, [], ◌∷◌, Bool-cases, Option-cases,
}
use pcag.Base.Dict.{Dict, get, get-put_cases}
use pcag.Sensors.{
  hash_payload, has_source, read_from, with_source, remove, sources_of, get_latest_snapshot,
  Response, get_sensor_source, route_of, answered, read_snapshot, add_route, AssetProps, Config,
  Plant, named_route, Route, Source, initialize, Composite, build_routing, modbus, mock, isaac,
  snapshot, http_error, to, forbidden, nowhere,
}
use pcag.Core.Json.{Fields, lookup}

abbrev pub IsReal : Source → Type 0
IsReal modbus = Unit {0}
IsReal isaac = Unit {0}
IsReal mock = ⊥

abbrev pub RealRoutes : Dict Source → Type 0
RealRoutes routing = (a : String) (s : Source) → get a routing ≡ some s → IsReal s

-- No asset is routed to the mock source.
abbrev pub OnlyReal : Option Composite → Type 0
OnlyReal none = Unit {0}
OnlyReal (some c) = RealRoutes c.asset_routing

named_route-IsReal :
    (preferred : String) (has_mappings : Bool) (s : Source)
    → named_route true preferred has_mappings ≡ to s
    → IsReal s
named_route-IsReal preferred has_mappings modbus h = tt
named_route-IsReal preferred has_mappings isaac h = tt
named_route-IsReal preferred true mock h = ground (arith, h)
named_route-IsReal preferred false mock h = ground (arith, h)

add_route-RealRoutes :
    (a : String) (r : Route) (routing out : Dict Source)
    → ((s : Source) → r ≡ to s → IsReal s)
    → RealRoutes routing
    → add_route a r routing ≡ some out
    → RealRoutes out
add_route-RealRoutes a (to s) routing out h v e = subst RealRoutes (ground (arith, e)) (λ b t q.
    elim (get-put_cases a b s t routing q) [
      | inl (_, same) ↦ h t (ap to same)
      | inr old ↦ v b t old
    ])
add_route-RealRoutes a forbidden routing out h v e = cc
add_route-RealRoutes a nowhere routing out h v e = subst RealRoutes (ground (arith, e)) v

build_routing-RealRoutes :
    (assets : Dict AssetProps) (routing out : Dict Source)
    → RealRoutes routing
    → build_routing true assets routing ≡ some out
    → RealRoutes out
unfolding build_routing
build_routing-RealRoutes [] routing out v e = subst RealRoutes (ground (arith, e)) v
build_routing-RealRoutes ((a, props) ∷ rest) routing out v e =
    let (routing', p, q) = step_of (add_route a (route_of true props) routing) _ out e in
    build_routing-RealRoutes rest routing' out
      (add_route-RealRoutes a (route_of true props) routing routing'
        (λ s h.
          named_route-IsReal (elim props.source [ none ↦ "auto" | some s ↦ s ]) props.has_mappings s
            h)
        v p)
      q

initialize-OnlyReal :
    (config : Config) (o : Option Composite) → initialize true config ≡ o → OnlyReal o
unfolding initialize get
initialize-OnlyReal config none e = tt
initialize-OnlyReal config (some c) e =
    elim (Bool-cases (config.plc_adapter_url && config.safety_cluster_url)) [
      | inl h ↦
          let (routing, p, q) =
            bound (build_routing true config.assets [])
              (λ (r : Dict Source).
                let c' : Composite = record { sources = sources_of true; asset_routing = r } in c')
              c (simp h at e) in
          subst (λ (t : Composite). RealRoutes t.asset_routing) q
            (build_routing-RealRoutes config.assets [] routing (λ a s r. cc) p)
      | inr h ↦ let bad = simp h at e in cc
    ]

module _ {F W : Type 0} (hashing : Hashing F) (plant : Plant F W) where
  -- The snapshot is what a real source read, less the payload, with its hash.
  abbrev pub Served : String → W → Response F → Type 0
  Served a w (http_error n) = n ≡ 500
  Served a w (snapshot r) =
      (s : Source) × (read : Fields F) × IsReal s
      × ((plant.read s a w).0 ≡ some read)
      × (r.sensor_snapshot ≡ remove "__integrity_hash_payload" read)
      × (r.sensor_snapshot_hash
          ≡ compute_sensor_hash hashing
              (hash_payload (lookup "__integrity_hash_payload" read) r.sensor_snapshot))

  answered-Served :
      (a : String) (s : Source) (w : W) (r : Option (Fields F) × W)
      → IsReal s
      → plant.read s a w ≡ r
      → Served a w (answered hashing plant true a r).0
  answered-Served a s w (none, w') h e = refl
  answered-Served a s w (some read, w') h e =
      (s, read, h, ap (λ (t : Option (Fields F) × W). t.0) e, refl, refl)

  read_from-Served :
      (a : String) (c : Composite) (o : Option Source) (w : W)
      → ((s : Source) → o ≡ some s → IsReal s)
      → Served a w (answered hashing plant true a (read_from hashing plant true c a o w)).0
  read_from-Served a c none w h = refl
  read_from-Served a c (some s) w h = elim (Bool-cases (has_source s c.sources)) [
    | inl e ↦ rw e (answered-Served a s w (plant.read s a w) (h s refl) refl)
    | inr e ↦ rw e refl
  ]

  with_source-Served :
      (a : String) (o : Option Composite) (w : W)
      → OnlyReal o
      → Served a w (with_source hashing plant true a o w).0
        × OnlyReal (with_source hashing plant true a o w).1
  unfolding read_snapshot
  with_source-Served a none w v = (refl, tt)
  with_source-Served a (some c) w v =
      (read_from-Served a c (get a c.asset_routing) w (λ s e. v a s e), v)

  get_sensor_source-OnlyReal :
      (o : Option Composite) (w : W)
      → OnlyReal o
      → OnlyReal (get_sensor_source hashing plant true o w)
  get_sensor_source-OnlyReal (some c) w v = v
  get_sensor_source-OnlyReal none w v = elim (Option-cases (plant.config w)) [
    | inl e ↦ rw e tt
    | inr (config, e) ↦ rw e (initialize-OnlyReal config _ refl)
  ]

  -- In production, if no asset is routed to the mock source, which holds at the start, then a request
  -- for a snapshot keeps this so, whatever the configuration is. It answers 500, or with what a real
  -- source has just read, less the hash payload, and with the hash of the payload, if that is a
  -- dictionary that is not empty, or else of the snapshot itself.
  pub get_latest_snapshot-Served :
      (a : String) (o : Option Composite) (w : W)
      → OnlyReal o
      → Served a w (get_latest_snapshot hashing plant true a o w).0
        × OnlyReal (get_latest_snapshot hashing plant true a o w).1
  unfolding get_latest_snapshot
  get_latest_snapshot-Served a o w v =
      with_source-Served a (get_sensor_source hashing plant true o w) w
        (get_sensor_source-OnlyReal o w v)
