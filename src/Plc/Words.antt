-- ===== src/Plc/Words.antt =====
-- Integers in 16-bit registers.
use pcag.Core.Json.{num, Number, int, Arith}
use pcag.Core.Int.{ltb_ℤ, negsuc, pos, ℤ}
use pcag.Plc.{
  is_float32, Mapping, decode_registers, encode_value_to_registers, Packing, uint16, float32, int16,
  decode_word, encode_word, DataType,
}
use pcag.Core.Int.{◌≤ℤ◌, ◌-ℤ◌}
use pcag.Base.{Bool-cases, ap, Option, if◌then◌else◌, ◌∙◌, inl, inr}
use pcag.Core.Json.{Json}
use pcag.Plc.{rescaled, scaled}
use pcag.Base.{
  ◌-◌, suc, leb, ℕ, ◌+◌, ◌<◌, ◌≡◌, refl, arith, suc, true, false, none, some, [], ◌∷◌, leb,
}

-- A 16-bit word.
abbrev pub IsWord : ℤ → Type 0
IsWord w = (pos 0 ≤ℤ w) × (w ≤ℤ pos 65535)

-- The integers of a type: int16 has a sign.
abbrev pub Fits : DataType → ℤ → Type 0
Fits int16 v = (negsuc 32767 ≤ℤ v) × (v ≤ℤ pos 32767)
Fits uint16 v = IsWord v
Fits float32 v = IsWord v

encode-pos : (n : ℕ) → encode_word int16 (pos n) ≡ pos n
encode-pos n = let e : ltb_ℤ (pos n) (pos 0) ≡ false = ground arith in rw e refl

encode-neg : (n : ℕ) → n < 32768 → encode_word int16 (negsuc n) ≡ pos (65535 - n)
encode-neg n h =
    let e : ltb_ℤ (negsuc n) (pos 0) ≡ true = ground arith in
    let c : leb (0 + suc n) (65536 + 0) ≡ true = ground (arith, h) in
    let d : 65536 + 0 - (0 + suc n) ≡ 65535 - n = omega (arith, h) in rw (e, c, d) refl

decode-small : (n : ℕ) → n < 32768 → decode_word int16 (pos n) ≡ pos n
decode-small n h = let e : ltb_ℤ (pos 32767) (pos n) ≡ false = ground (arith, h) in rw e refl

decode-large : (n : ℕ) → n < 32768 → decode_word int16 (pos (65535 - n)) ≡ negsuc n
unfolding ◌-ℤ◌
decode-large n h =
    let e : ltb_ℤ (pos 32767) (pos (65535 - n)) ≡ true = ground (arith, h) in
    let c : leb (0 + 65536) (65535 - n + 0) ≡ false = ground (arith, h) in
    let d : 0 + 65536 - (65535 - n + 0) - 1 ≡ n = omega (arith, h) in rw (e, c, d) refl

encode_word-IsWord : (t : DataType) (v : ℤ) → Fits t v → IsWord (encode_word t v)
encode_word-IsWord uint16 v f = f
encode_word-IsWord float32 v f = f
encode_word-IsWord int16 (pos n) f = rw (encode-pos n) (omega arith, omega (arith, f.1))
encode_word-IsWord int16 (negsuc n) f =
    rw (encode-neg n (omega (arith, f.0))) (omega arith, omega arith)

decode-encode_word : (t : DataType) (v : ℤ) → Fits t v → decode_word t (encode_word t v) ≡ v
decode-encode_word uint16 v f = refl
decode-encode_word float32 v f = refl
decode-encode_word int16 (pos n) f = rw (encode-pos n) (decode-small n (omega (arith, f.1)))
decode-encode_word int16 (negsuc n) f =
    rw (encode-neg n (omega (arith, f.0))) (decode-large n (omega (arith, f.0)))

-- What the floats do with an integer of 17 bits: divided by 1.0 and rounded it is itself.
pub record IntegerLaws {F : Type 0} (ops : Arith F) (packing : Packing F) : Type 0 where
  pub one_nonzero : ops.eqb packing.one (int (pos 0)) ≡ false
  pub exact :
      (v : ℤ)
      → negsuc 65535 ≤ℤ v
      → v ≤ℤ pos 65535
      → (x : Number F) × (packing.float_of (num (int v)) ≡ some x)
        × (packing.rounded (ops.div x packing.one) ≡ some v)

-- A mapping to one register that keeps integers as they are.
abbrev pub IsPlain : {F : Type 0} → Mapping F → Type 0
IsPlain m = (is_float32 m.data_type m.register_count ≡ false) × (m.scale ≡ none)

module _ {F : Type 0} (ops : Arith F) (packing : Packing F) (laws : IntegerLaws ops packing) where
  Fits-exact :
      (t : DataType) (v : ℤ)
      → Fits t v
      → (x : Number F) × (packing.float_of (num (int v)) ≡ some x)
        × (packing.rounded (ops.div x packing.one) ≡ some v)
  Fits-exact uint16 v f = laws.exact v (omega (arith, f.0)) f.1
  Fits-exact float32 v f = laws.exact v (omega (arith, f.0)) f.1
  Fits-exact int16 v f = laws.exact v (omega (arith, f.0)) (omega (arith, f.1))

  pub encode_plain :
      (m : Mapping F) (v : ℤ)
      → IsPlain m
      → Fits m.data_type v
      → encode_value_to_registers ops packing (num (int v)) m
        ≡ some (encode_word m.data_type v ∷ [])
  unfolding encode_value_to_registers
  encode_plain m v p f =
      let (x, e, r) = Fits-exact m.data_type v f in
      simp (encode_value_to_registers, e, p.0, p.1, laws.one_nonzero, r) refl

  pub decode_plain :
      (m : Mapping F) (v : ℤ)
      → IsPlain m
      → Fits m.data_type v
      → decode_registers ops packing (encode_word m.data_type v ∷ []) m ≡ some (int v)
  unfolding decode_registers
  decode_plain m v p f = simp (decode_registers, p.0, p.1, decode-encode_word m.data_type v f) refl

  -- An integer that fits the type of a mapping with no scale, whose type is not float32 in two
  -- registers, becomes one 16-bit word, from which the same integer is read back.
  pub decode-encode_registers :
      (m : Mapping F) (v : ℤ)
      → IsPlain m
      → Fits m.data_type v
      → (w : ℤ) × (encode_value_to_registers ops packing (num (int v)) m ≡ some (w ∷ []))
        × IsWord w
        × (decode_registers ops packing (w ∷ []) m ≡ some (int v))
  decode-encode_registers m v p f = (
    encode_word m.data_type v,
    encode_plain m v p f,
    encode_word-IsWord m.data_type v f,
    decode_plain m v p f,
  )

module _ {F : Type 0} (ops : Arith F) (packing : Packing F) where
  -- An integer in the unit of a mapping, which is its scale: the product, to three decimals.
  abbrev pub in_unit : Option (Number F) → ℤ → Number F
  in_unit none n = int n
  in_unit (some scale) n = packing.round3 (ops.mul (int n) scale)

  -- `n` is the number `x` in units of the scale, rounded. A scale of 0 is no unit.
  abbrev pub CountOf : Number F → ℤ → Number F → Type 0
  CountOf scale n x =
      (ops.eqb scale (int (pos 0)) ≡ true → packing.rounded x ≡ some n)
      × (ops.eqb scale (int (pos 0)) ≡ false → packing.rounded (ops.div x scale) ≡ some n)

  abbrev pub HasCount : Option (Number F) → ℤ → Number F → Type 0
  HasCount none n x = CountOf packing.one n x
  HasCount (some scale) n x = CountOf scale n x

  pub decode_in_unit :
      (m : Mapping F) (w : ℤ)
      → is_float32 m.data_type m.register_count ≡ false
      → decode_registers ops packing (w ∷ []) m ≡ some (in_unit m.scale (decode_word m.data_type w))
  unfolding decode_registers
  decode_in_unit m w p = rw (decode_registers, p) (by_scale m.scale)
    where
      by_scale :
          (s : Option (Number F))
          → some (rescaled ops packing s (decode_word m.data_type w))
            ≡ some (in_unit s (decode_word m.data_type w))
      by_scale none = refl
      by_scale (some s) = refl

  counted :
      (s x : Number F) (n : ℤ)
      → CountOf s n x
      → (if ops.eqb s (int (pos 0)) then packing.rounded x else packing.rounded (ops.div x s))
        ≡ some n
  counted s x n h = elim (Bool-cases (ops.eqb s (int (pos 0)))) [
    | inl e ↦ rw e (h.0 e)
    | inr e ↦ rw e (h.1 e)
  ]

  scaled-HasCount :
      (s : Option (Number F)) (x : Number F) (n : ℤ)
      → HasCount s n x
      → scaled ops packing x s ≡ some n
  scaled-HasCount none x n h = counted packing.one x n h
  scaled-HasCount (some s) x n h = counted s x n h

  pub encode_count :
      (m : Mapping F) (v : Json F) (x : Number F) (n : ℤ)
      → is_float32 m.data_type m.register_count ≡ false
      → packing.float_of v ≡ some x
      → HasCount m.scale n x
      → encode_value_to_registers ops packing v m ≡ some (encode_word m.data_type n ∷ [])
  unfolding encode_value_to_registers
  encode_count m v x n p e h =
      rw (encode_value_to_registers, e, p, scaled-HasCount m.scale x n h) refl

  pub decode_count :
      (m : Mapping F) (n : ℤ)
      → is_float32 m.data_type m.register_count ≡ false
      → Fits m.data_type n
      → decode_registers ops packing (encode_word m.data_type n ∷ []) m ≡ some (in_unit m.scale n)
  decode_count m n p f =
      decode_in_unit m _ p ∙ ap (λ t. some (in_unit m.scale t)) (decode-encode_word m.data_type n f)
