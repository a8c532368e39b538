-- ===== src/Plc/Answers.antt =====
-- What the handler of /execute answers, and what a snapshot shows of a write to a virtual runtime.
use pcag.Plc.WellFormed.{IsWellFormed}
use pcag.Plc.Words.{in_unit, decode_in_unit}
use pcag.Plc.Snapshot.{same_register_refl, put_default-found, word_at-set, read_one, lookup-put}
use pcag.Plc.Operations.{
  Execution, virtual_key, dictionary, with_image, virtual_snapshot, execute_actions, read_snapshot,
}
use pcag.Plc.Actions.{
  ActionMapping, set_value, each, normalize_actions, write_action, apply_low_level_action, perform,
  Python,
}
use pcag.Plc.Virtual.{with_agv, set_word, read_virtual_snapshot, word_at, Image, read_fields}
use pcag.Core.Int.{negsuc, pos, ◌+ℤ◌, ℤ}
use pcag.Core.Json.{end, lookup, put_field, Fields, int, num, Json, Arith}
use pcag.Plc.{is_float32, decode_word, Packing, Mapping}
use pcag.Base.{
  subst, eq_refl, ◌≡◌, refl, sym, ap, arith, String, true, false, Option, none, some, List, [], ◌∷◌,
  ◌++◌, ◌∙◌, str_eq,
}
use pcag.Base.Dict.{get-put, Dict, get, put}
use pcag.Plc.Service.{
  Reply, VirtualAssetRuntime, ManagedConnection, ExecutorAsset, SensorAsset, Service, initialize,
  Modbus, Environment, done, ◌>>=◌,
}
use pcag.Plc.Recovery.{ok}

module _ {F : Type 0} where
  -- A mapping to one register, which holds an integer, scaled or not.
  abbrev pub IsSingle : Mapping F → Type 0
  IsSingle m = (is_float32 m.data_type m.register_count ≡ false) × (m.register_count ≡ 1)

  abbrev pub AllSingle : List (Mapping F) → Type 0
  AllSingle [] = Unit {0}
  AllSingle (m ∷ ms) = IsSingle m × AllSingle ms

  -- No mapping of the list has the field.
  abbrev pub Lacks : String → List (Mapping F) → Type 0
  Lacks field [] = Unit {0}
  Lacks field (m ∷ ms) = (str_eq m.field field ≡ false) × Lacks field ms

module _ {F : Type 0} (ops : Arith F) (packing : Packing F) where
  -- What a snapshot shows of the word in a register.
  abbrev pub shown : Mapping F → ℤ → Json F
  shown m w = num (in_unit ops packing m.scale (decode_word m.data_type w))

  read_single :
      (m : Mapping F) (ms : List (Mapping F)) (image : Image) (snapshot : Fields F)
      → IsSingle m
      → read_fields ops packing (m ∷ ms) image snapshot
        ≡ read_fields ops packing ms image
            (put_field m.field (shown m (word_at m.register image)) snapshot)
  unfolding read_fields
  read_single m ms image snapshot (p, c) =
      rw
        (
          read_fields,
          read_one m.register m.register_count image c,
          decode_in_unit ops packing m (word_at m.register image) p,
        )
        refl

  read_others :
      (f : String) (ms : List (Mapping F)) (image : Image) (snapshot : Fields F)
      → AllSingle ms
      → Lacks f ms
      → (out : Fields F) × (read_fields ops packing ms image snapshot ≡ some out)
        × (lookup f out ≡ lookup f snapshot)
  unfolding read_fields
  read_others f [] image snapshot g a = (snapshot, refl, refl)
  read_others f (m ∷ ms) image snapshot g a =
      let (out, e, h) =
        read_others f ms image (put_field m.field (shown m (word_at m.register image)) snapshot) g.1
          a.1 in
      (
        out,
        read_single m ms image snapshot g.0 ∙ e,
        h ∙ (lookup-put m.field f _ snapshot ∙ rw a.0 refl),
      )

  read_at :
      (before : List (Mapping F)) (m : Mapping F) (rest : List (Mapping F)) (image : Image)
      → (snapshot : Fields F) → AllSingle (before ++ m ∷ rest)
      → Lacks m.field rest
      → (out : Fields F) × (read_fields ops packing (before ++ m ∷ rest) image snapshot ≡ some out)
        × (lookup m.field out ≡ some (shown m (word_at m.register image)))
  unfolding read_fields
  read_at [] m rest image snapshot g a =
      let (out, e, h) =
        read_others m.field rest image
          (put_field m.field (shown m (word_at m.register image)) snapshot) g.1 a in
      (
        out,
        read_single m rest image snapshot g.0 ∙ e,
        h ∙ (lookup-put m.field m.field _ snapshot ∙ rw (eq_refl m.field) refl),
      )
  read_at (b ∷ before) m rest image snapshot g a =
      let (out, e, h) = read_at before m rest image _ g.1 a in
      (out, read_single b (before ++ m ∷ rest) image snapshot g.0 ∙ e, h)

  with_agv-found :
      (f : String) (v : Json F) (x y : Option (Json F)) (fs : Fields F)
      → lookup f fs ≡ some v
      → lookup f (with_agv x y fs) ≡ some v
  with_agv-found f v (some x) (some y) fs h = put_default-found f "agv_01" _ v fs h
  with_agv-found f v (some x) none fs h = h
  with_agv-found f v none y fs h = h

  snapshot_at :
      (before : List (Mapping F)) (m : Mapping F) (rest : List (Mapping F)) (image : Image)
      → AllSingle (before ++ m ∷ rest)
      → Lacks m.field rest
      → (snapshot : Fields F) × (read_virtual_snapshot ops packing (before ++ m ∷ rest) none image
          ≡ some snapshot)
        × (lookup m.field snapshot ≡ some (shown m (word_at m.register image)))
  unfolding read_virtual_snapshot
  snapshot_at before m rest image g l =
      let (out, e, h) = read_at before m rest image end g l in
      (
        with_agv (lookup "position_x" out) (lookup "position_y" out) out,
        rw (read_virtual_snapshot, e) refl,
        with_agv-found m.field _ (lookup "position_x" out) (lookup "position_y" out) out h,
      )

add_zero : (r : ℤ) → r +ℤ pos 0 ≡ r
add_zero (pos n) = ground arith
add_zero (negsuc n) = ground arith

word_at-set_self : (r w : ℤ) (image : Image) → word_at r (set_word r w image) ≡ w
word_at-set_self r w image = word_at-set r r w image ∙ rw (same_register_refl r) refl

module _ {F W : Type 0} (arith : Arith F) (packing : Packing F) (python : Python F)
    (env : Environment F W) (modbus : Modbus F W) where
  execute_virtual :
      (a : String) (actions : List (Fields F)) (s : Service F) (w : W) (y : ExecutorAsset F)
      → (c : ManagedConnection F) (r : VirtualAssetRuntime F) → s.initialized ≡ true
      → get a s.executor_assets ≡ some y
      → get y.connection_key s.connections ≡ some c
      → get a s.virtual_assets ≡ some r
      → execute_actions arith packing python env modbus a actions s w
        ≡ with_image a r s w (
            perform arith packing python
              (apply_low_level_action python)
              y.action_mappings
              actions
              r.register_image)
  unfolding execute_actions initialize ◌>>=◌
  execute_virtual a actions s w y c r i ey ec er = simp (i, ey, ec, er) refl

  snapshot_virtual :
      (a : String) (s : Service F) (w : W) (x : SensorAsset F) (r : VirtualAssetRuntime F)
      → (snapshot : Fields F) → s.initialized ≡ true
      → get a s.sensor_assets ≡ some x
      → get a s.virtual_assets ≡ some r
      → read_virtual_snapshot arith packing x.mappings
          (dictionary (lookup "sensor_state_overlay" r.runtime_context))
          r.register_image
        ≡ some snapshot
      → read_snapshot arith packing python env modbus a s w ≡ (done (snapshot, virtual_key a), s, w)
  unfolding read_snapshot virtual_snapshot initialize ◌>>=◌
  snapshot_virtual a s w x r snapshot i ex er e = simp (i, ex, er, e) refl

  perform_write :
      (mappings : Dict (List (ActionMapping F))) (k n : ℤ) (image : Image)
      → ((z : ℤ) → python.int_of (num (int z)) ≡ some z)
      → perform arith packing python
          (apply_low_level_action python)
          mappings
          (write_action (num (int k)) n ∷ [])
          image
        ≡ (ok tt, set_word k n image)
  unfolding perform normalize_actions each apply_low_level_action set_value lookup
  perform_write mappings k n image law = simp (law k, law n, add_zero k) refl

  -- If `int` of an integer is that integer, then after an execution of one low-level write of `n` to
  -- the register of a mapping `m`, in an initialized well-formed service, on an asset with an
  -- executor mapping, whose virtual runtime has no overlay and whose mappings are single registers
  -- with integers, none after `m` for its field, the execution reports success, and the snapshot
  -- shows `n`, decoded by the type of `m`, and times the scale of `m` to three decimals if it has one.
  pub execute-read :
      (a : String) (n : ℤ) (s : Service F) (w : W) (source : Json F) (y : ExecutorAsset F)
      → (r : VirtualAssetRuntime F) (before : List (Mapping F)) (m : Mapping F)
      → (rest : List (Mapping F)) → ((z : ℤ) → python.int_of (num (int z)) ≡ some z)
      → s.initialized ≡ true
      → IsWellFormed s
      → get a s.sensor_assets ≡ some (record { source = source; mappings = before ++ m ∷ rest })
      → get a s.executor_assets ≡ some y
      → get a s.virtual_assets ≡ some r
      → dictionary (lookup "sensor_state_overlay" r.runtime_context) ≡ none
      → AllSingle (before ++ m ∷ rest)
      → Lacks m.field rest
      → let after_write =
          execute_actions arith packing python env modbus a
            (write_action (num (int m.register)) n ∷ [])
            s
            w in
        (after_write.0
          ≡ done (record { success = true; reason = none; connection_key = virtual_key a }))
        × ((snapshot : Fields F) × ((read_snapshot arith packing python env modbus a after_write.1
                after_write.2).0
              ≡ done (snapshot, virtual_key a))
            × (lookup m.field snapshot ≡ some (shown arith packing m n)))
  execute-read a n s w source y r before m rest law i v ex ey er eo g l =
      let (c, ec) = v.executors a y ey in
      let image = set_word m.register n r.register_image in
      let (snapshot, e, h) = snapshot_at arith packing before m rest image g l in
      let s' : Service F = record s {
        virtual_assets = put a (record r { register_image = image }) s.virtual_assets;
      } in
      let wrote =
        execute_virtual a (write_action (num (int m.register)) n ∷ []) s w y c r i ey ec er
        ∙ ap (with_image a r s w)
            (perform_write y.action_mappings m.register n r.register_image law) in
      subst
        (λ (t : Reply Execution × Service F × W).
          (t.0 ≡ done (record { success = true; reason = none; connection_key = virtual_key a }))
          × ((snapshot' : Fields F) × ((read_snapshot arith packing python env modbus a t.1 t.2).0
                ≡ done (snapshot', virtual_key a))
              × (lookup m.field snapshot' ≡ some (shown arith packing m n))))
        (sym wrote)
        (
          refl,
          (
            snapshot,
            ap (λ (t : Reply (Fields F × String) × Service F × W). t.0)
                (snapshot_virtual a s' w (record { source = source; mappings = before ++ m ∷ rest })
                  (record r { register_image = image }) snapshot i ex
                  (get-put a a _ s.virtual_assets ∙ rw (eq_refl a) refl) (rw eo e)),
            h
                ∙ ap (λ t. some (shown arith packing m t))
                    (word_at-set_self m.register n r.register_image),
          ),
        )
