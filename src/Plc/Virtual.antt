-- ===== src/Plc/Virtual.antt =====
-- The registers of a virtual runtime: the loops of `preload_runtime` and `_read_virtual_snapshot`.
use pcag.Plc.{decode_registers, encode_value_to_registers, Mapping, Packing}
use pcag.Core.Int.{pos, ℤ, ◌+ℤ◌, pos_part, neg_part}
use pcag.Core.Json.{int, put_field, lookup, field, obj, num, Arith, Json, Fields, end}
use pcag.Base.{
  ◌>>=◌, ℕ, ◌+◌, zero, suc, String, Bool, Option, none, some, List, [], ◌∷◌, if◌then◌else◌, ◌==◌,
}

-- `register_image`
abbrev pub Image : Type 0
Image = List (ℤ × ℤ)

abbrev pub next_register : ℤ → ℤ
next_register r = r +ℤ pos 1

abbrev pub same_register : ℤ → ℤ → Bool
same_register a b = pos_part a + neg_part b == pos_part b + neg_part a

unfoldable pub set_word : ℤ → ℤ → Image → Image
set_word r w [] = (r, w) ∷ []
set_word r w ((q, v) ∷ image) =
    if same_register q r then (q, w) ∷ image else (q, v) ∷ set_word r w image

-- `register_image.get(register, 0)`
unfoldable pub word_at : ℤ → Image → ℤ
word_at r [] = pos 0
word_at r ((q, v) ∷ image) = if same_register q r then v else word_at r image

unfoldable pub write_words : ℤ → List ℤ → Image → Image
write_words r [] image = image
write_words r (w ∷ ws) image = write_words (next_register r) ws (set_word r w image)

unfoldable pub read_words : ℤ → ℕ → Image → List ℤ
read_words r zero image = []
read_words r (suc n) image = word_at r image ∷ read_words (next_register r) n image

module _ {F : Type 0} where
  abbrev pub or_zero : Option (Json F) → Json F
  or_zero none = num (int (pos 0))
  or_zero (some v) = v

  abbrev pub put_default : String → Json F → Fields F → Fields F
  put_default k v fs = elim (lookup k fs) [ none ↦ put_field k v fs | some w ↦ fs ]

  -- `setdefault("agv_01", …)` if both coordinates are there.
  abbrev pub with_agv : Option (Json F) → Option (Json F) → Fields F → Fields F
  with_agv (some x) (some y) fs = put_default "agv_01" (obj (field "x" x (field "y" y end))) fs
  with_agv _ _ fs = fs

  -- `_merge_dicts`
  unfoldable mutual
    pub merge_dicts : Fields F → Fields F → Fields F
    merge_dicts base end = base
    merge_dicts base (field k v override) =
        merge_dicts (put_field k (merge_value (lookup k base) v) base) override

    merge_value : Option (Json F) → Json F → Json F
    merge_value (some (obj fs)) (obj gs) = obj (merge_dicts fs gs)
    merge_value _ v = v

  abbrev pub overlaid : Option (Fields F) → Fields F → Fields F
  overlaid none fs = fs
  overlaid (some overlay) fs = merge_dicts fs overlay

module _ {F : Type 0} (ops : Arith F) (packing : Packing F) where
  -- The loop of `preload_runtime` over the mappings.
  unfoldable pub preload_image : List (Mapping F) → Fields F → Image → Option Image
  preload_image [] initial image = some image
  preload_image (m ∷ ms) initial image =
      encode_value_to_registers ops packing (or_zero (lookup m.field initial)) m >>= λ ws.
      preload_image ms initial (write_words m.register ws image)

  -- The loop of `_read_virtual_snapshot`.
  unfoldable pub read_fields : List (Mapping F) → Image → Fields F → Option (Fields F)
  read_fields [] image snapshot = some snapshot
  read_fields (m ∷ ms) image snapshot =
      decode_registers ops packing (read_words m.register m.register_count image) m >>= λ v.
      read_fields ms image (put_field m.field (num v) snapshot)

  unfoldable pub read_virtual_snapshot :
      List (Mapping F) → Option (Fields F) → Image → Option (Fields F)
  read_virtual_snapshot ms overlay image = read_fields ms image end >>= λ fs.
      some (overlaid overlay (with_agv (lookup "position_x" fs) (lookup "position_y" fs) fs))
