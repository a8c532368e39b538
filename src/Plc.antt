-- ===== src/Plc.antt =====
-- pcag/apps/plc_adapter/service.py: values in Modbus registers, and the recovery of a connection.
pub mod Recovery
pub mod Words
pub mod Virtual
pub mod Actions
pub mod Service
pub mod Operations
pub mod Routes
pub mod Rules
pub mod WellFormed
pub mod Kept
pub mod Preserves
pub mod Isolation
pub mod Answers
pub mod Replies
pub mod Snapshot
mod Tests
mod ServiceTests
use pcag.Core.Int.{◌-ℤ◌, ◌+ℤ◌, pos, ltb_ℤ, ℤ}
use pcag.Core.Json.{Json, int, Number, Arith}
use pcag.Base.{
  ◌>>=◌, ℕ, ◌+◌, ◌≤◌, ◌<◌, ◌≡◌, ◌≢◌, ◌↔◌, ◌⊎◌, inl, inr, refl, sym, ap, arith, zero, suc, String,
  Bool, true, false, not, ◌&&◌, ◌||◌, Option, none, some, List, [], ◌∷◌, ◌++◌, ◌∙◌, str_eq, eq_iff,
  if◌then◌else◌, Bool-cases, Option-cases, ltb, leb, ◌==◌,
}

-- `uint16` stands for every type but the two that the code looks for.
pub data DataType : Type 0 where
  uint16 int16 float32 : DataType

-- A mapping of sensor_mappings.yaml; without a scale the field is missing.
pub record Mapping (F : Type 0) : Type 0 where
  pub field : String
  pub register : ℤ
  pub data_type : DataType
  pub register_count : ℕ
  pub scale : Option (Number F)

-- `float(value)`, `int(round(x))` and the two words of a float in `struct`, high word first, which may
-- all raise, and `round(x, 3)`.
pub record Packing (F : Type 0) : Type 0 where
  pub float_of : Json F → Option (Number F)
  pub rounded : Number F → Option ℤ
  pub round3 : Number F → Number F
  pub one : Number F
  pub pack_float : Number F → Option (ℤ × ℤ)
  pub unpack_float : ℤ → ℤ → Option (Number F)

abbrev pub is_float32 : DataType → ℕ → Bool
is_float32 float32 n = n == 2
is_float32 uint16 n = false
is_float32 int16 n = false

-- The word of an integer: a negative int16 in two's complement. Nothing checks that it fits.
abbrev pub encode_word : DataType → ℤ → ℤ
encode_word int16 v = if ltb_ℤ v (pos 0) then pos 65536 +ℤ v else v
encode_word uint16 v = v
encode_word float32 v = v

abbrev pub decode_word : DataType → ℤ → ℤ
decode_word int16 w = if ltb_ℤ (pos 32767) w then w -ℤ pos 65536 else w
decode_word uint16 w = w
decode_word float32 w = w

module _ {F : Type 0} (arith : Arith F) (packing : Packing F) where
  abbrev scale_or_one : Option (Number F) → Number F
  scale_or_one none = packing.one
  scale_or_one (some s) = s

  abbrev scaled : Number F → Option (Number F) → Option ℤ
  scaled value scale =
      let s = scale_or_one scale in
      if arith.eqb s (int (pos 0))
      then packing.rounded value
      else packing.rounded (arith.div value s)

  abbrev encode_number : Mapping F → Number F → Option (List ℤ)
  encode_number m value =
      if is_float32 m.data_type m.register_count
      then (packing.pack_float value >>= λ w. some (w.0 ∷ w.1 ∷ []))
      else (scaled value m.scale >>= λ v. some (encode_word m.data_type v ∷ []))

  -- `_encode_value_to_registers`
  unfoldable pub encode_value_to_registers : Json F → Mapping F → Option (List ℤ)
  encode_value_to_registers value m = packing.float_of value >>= encode_number m

  abbrev rescaled : Option (Number F) → ℤ → Number F
  rescaled none v = int v
  rescaled (some s) v = packing.round3 (arith.mul (int v) s)

  abbrev decode_float : List ℤ → Option (Number F)
  decode_float (high ∷ low ∷ rest) = packing.unpack_float high low >>= λ x. some (packing.round3 x)
  decode_float _ = none

  abbrev decode_first : Mapping F → List ℤ → Option (Number F)
  decode_first m [] = none
  decode_first m (w ∷ rest) = some (rescaled m.scale (decode_word m.data_type w))

  -- `_decode_registers`; `none` is an IndexError on too few registers, or a
  -- struct.error on what is no word.
  unfoldable pub decode_registers : List ℤ → Mapping F → Option (Number F)
  decode_registers words m =
      if is_float32 m.data_type m.register_count then decode_float words else decode_first m words
