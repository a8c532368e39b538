-- ===== src/Plc/Tests.antt =====
-- Registers with integers, and a connection that fails once.
use pcag.Plc.Virtual.{read_virtual_snapshot, preload_image, Image, merge_dicts}
use pcag.Plc.Snapshot.{preload-Agrees, Agrees, AllGiven, AllApart}
use pcag.Core.Json.{
  str, null, obj, put_field, Fields, num, number_of, float, int, end, lookup, field,
}
use pcag.Plc.{uint16, decode_registers, int16, encode_value_to_registers, Packing, Mapping}
use pcag.Plc.Words.{decode-encode_registers, IsWord, IntegerLaws}
use pcag.Plc.Recovery.{Opening, Outcome, Connection, run_with_recovery, opened, ok, failed}
use pcag.Core.Int.{negsuc, pos, ℤ}
use pcag.Core.Samples.{numbers, whole}
use pcag.Base.{List, ℕ, ◌+◌, ◌≡◌, refl, arith, zero, suc, true, false, none, some, [], ◌∷◌}

abbrev pub packing : Packing ℕ
packing = record {
  float_of = number_of;
  rounded = λ a. some (whole a);
  round3 = λ a. a;
  one = float 1;
  pack_float = λ a. some (pos 0, whole a);
  unpack_float = λ high low. some (int low);
}

laws : IntegerLaws numbers packing
laws = record { one_nonzero = refl; exact = λ v p q. (int v, refl, refl) }

abbrev pub temperature : Mapping ℕ
temperature = record {
  field = "temperature";
  register = pos 100;
  data_type = int16;
  register_count = 1;
  scale = none;
}

decode-encode_registers_example :
    (w : ℤ) × (encode_value_to_registers numbers packing (num (int (negsuc 39))) temperature
      ≡ some (w ∷ []))
    × IsWord w
    × (decode_registers numbers packing (w ∷ []) temperature ≡ some (int (negsuc 39)))
decode-encode_registers_example =
    decode-encode_registers numbers packing laws temperature (negsuc 39) (refl, refl)
      (omega arith, omega arith)

-- The device: how many connections and operations it has seen; its first operation fails.
abbrev connects : ℕ × ℕ → Opening × (ℕ × ℕ)
connects (c, n) = (opened, (c + 1, n))

abbrev reads : ℕ × ℕ → Outcome ℕ × (ℕ × ℕ)
reads (c, zero) = (failed "timeout", (c, 1))
reads (c, suc n) = (ok 7, (c, n + 2))

abbrev fresh : Connection
fresh = record { client = false; connected = false; last_error = none }

abbrev ready : Connection
ready = record { client = true; connected = true; last_error = none }

retried : run_with_recovery "down" connects reads fresh (0, 0) ≡ (ok 7, ready, (2, 2))
unfolding run_with_recovery
retried = refl

abbrev pressure : Mapping ℕ
pressure = record {
  field = "pressure";
  register = pos 101;
  data_type = uint16;
  register_count = 1;
  scale = some (int (pos 1));
}

abbrev mappings : List (Mapping ℕ)
mappings = temperature ∷ pressure ∷ []

abbrev cold : Fields ℕ
cold = field "pressure" (num (int (pos 40000))) (field "temperature" (num (int (negsuc 39))) end)

mappings-AllApart : AllApart mappings
mappings-AllApart = ((refl, refl, tt), (tt, tt))

-- The pressure has the scale 1, the temperature none.
cold-AllGiven : AllGiven numbers packing cold mappings
unfolding lookup
cold-AllGiven = (
  record {
    integral = refl;
    single = refl;
    value = num (int (negsuc 39));
    number = int (negsuc 39);
    units = negsuc 39;
    found = refl;
    converts = refl;
    counts = (λ e. refl, λ e. refl);
    fits = (omega arith, omega arith);
  },
  (
    record {
      integral = refl;
      single = refl;
      value = num (int (pos 40000));
      number = int (pos 40000);
      units = pos 40000;
      found = refl;
      converts = refl;
      counts = (λ e. refl, λ e. refl);
      fits = (omega arith, omega arith);
    },
    tt,
  ),
)

preload-Agrees_example :
    (image : Image) × (snapshot : Fields ℕ) × (preload_image numbers packing mappings cold []
      ≡ some image)
    × (read_virtual_snapshot numbers packing mappings none image ≡ some snapshot)
    × Agrees numbers packing mappings cold cold-AllGiven snapshot
preload-Agrees_example =
    preload-Agrees numbers packing mappings cold mappings-AllApart cold-AllGiven

abbrev at_1 : Fields ℕ
at_1 = field "x" (str "1") end

overlay :
    merge_dicts
      (field "arm" (obj (field "x" null (field "y" null end))) end)
      (field "arm" (obj at_1) end)
    ≡ field "arm" (obj (field "x" (str "1") (field "y" null end))) end
unfolding merge_dicts put_field lookup
overlay = refl
