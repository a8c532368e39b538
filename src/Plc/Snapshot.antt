-- ===== src/Plc/Snapshot.antt =====
-- What a preloaded virtual runtime is read as.
use pcag.Plc.Words.{in_unit, HasCount, encode_count, decode_count, Fits}
use pcag.Plc.{is_float32, Packing, encode_word, Mapping}
use pcag.Core.Int.{ℤ}
use pcag.Plc.Virtual.{
  read_words, write_words, read_virtual_snapshot, read_fields, preload_image, with_agv, set_word,
  same_register, put_default, word_at, Image,
}
use pcag.Core.Json.{Number, Arith, field, put_field, Fields, lookup, Json, end, num}
use pcag.Base.{
  eq_refl, ℕ, ◌≡◌, inl, inr, refl, sym, arith, String, true, false, Option, none, some, List, [],
  ◌∷◌, ◌∙◌, str_eq, eq_iff, if◌then◌else◌, Option-cases,
}

pub same_register_refl : (r : ℤ) → same_register r r ≡ true
same_register_refl r = ground arith

same_register-through :
    (a b c : ℤ) → same_register a b ≡ true → same_register a c ≡ false → same_register b c ≡ false
same_register-through a b c h k = ground (arith, h, k)

pub word_at-set :
    (r q w : ℤ) (image : Image)
    → word_at q (set_word r w image) ≡ (if same_register r q then w else word_at q image)
unfolding word_at set_word
word_at-set r q w [] = refl
word_at-set r q w ((p, v) ∷ image) = ground (arith, word_at-set r q w image)

pub read_one : (r : ℤ) (n : ℕ) (image : Image) → n ≡ 1 → read_words r n image ≡ word_at r image ∷ []
unfolding read_words
read_one r n image c = rw c refl

module _ {F : Type 0} where
  pub lookup-put :
      (k j : String) (v : Json F) (fs : Fields F)
      → lookup j (put_field k v fs) ≡ (if str_eq k j then some v else lookup j fs)
  unfolding lookup put_field
  lookup-put k j v end = refl
  lookup-put k j v (field i w fs) =
      ground (arith, eq_iff k j, eq_iff i k, eq_iff i j, lookup-put k j v fs)

  -- The register and the field of a mapping are no other's.
  abbrev pub Apart : Mapping F → List (Mapping F) → Type 0
  Apart m [] = Unit {0}
  Apart m (m' ∷ ms) =
      (same_register m'.register m.register ≡ false)
      × (str_eq m'.field m.field ≡ false)
      × Apart m ms

  abbrev pub AllApart : List (Mapping F) → Type 0
  AllApart [] = Unit {0}
  AllApart (m ∷ ms) = Apart m ms × AllApart ms

  pub put_default-found :
      (j k : String) (v w : Json F) (fs : Fields F)
      → lookup j fs ≡ some w
      → lookup j (put_default k v fs) ≡ some w
  put_default-found j k v w fs h = elim (Option-cases (lookup k fs)) [
    | inl e ↦ rw (put_default, e) (lookup-put k j v fs ∙ ground (arith, eq_iff k j, h, e))
    | inr (x, e) ↦ rw (put_default, e) h
  ]

module _ {F : Type 0} (ops : Arith F) (packing : Packing F) where
  -- The initial state has a number for the mapping, which is to one register, and the number in units
  -- of the mapping's scale, rounded, fits that.
  pub record Given (initial : Fields F) (m : Mapping F) : Type 0 where
    pub integral : is_float32 m.data_type m.register_count ≡ false
    pub single : m.register_count ≡ 1
    pub value : Json F
    pub number : Number F
    pub units : ℤ
    pub found : lookup m.field initial ≡ some value
    pub converts : packing.float_of value ≡ some number
    pub counts : HasCount ops packing m.scale units number
    pub fits : Fits m.data_type units

  abbrev pub AllGiven : Fields F → List (Mapping F) → Type 0
  AllGiven initial [] = Unit {0}
  AllGiven initial (m ∷ ms) = Given initial m × AllGiven initial ms

  -- The register of each mapping holds the word of the value that is given for it.
  abbrev Stored :
      Image → (initial : Fields F) (ms : List (Mapping F)) → AllGiven initial ms → Type 0
  Stored image initial [] g = Unit {0}
  Stored image initial (m ∷ ms) g =
      (word_at m.register image ≡ encode_word m.data_type g.0.units) × Stored image initial ms g.1

  -- The snapshot has, for each mapping's field, the initial state's number to a whole unit.
  abbrev pub Agrees :
      (ms : List (Mapping F)) (initial : Fields F) → AllGiven initial ms → Fields F → Type 0
  Agrees [] initial g snapshot = Unit {0}
  Agrees (m ∷ ms) initial g snapshot =
      (lookup m.field snapshot ≡ some (num (in_unit ops packing m.scale g.0.units)))
      × Agrees ms initial g.1 snapshot

  Agrees-default :
      (ms : List (Mapping F)) (initial snapshot : Fields F) (k : String) (v : Json F)
      → (g : AllGiven initial ms) → Agrees ms initial g snapshot
      → Agrees ms initial g (put_default k v snapshot)
  Agrees-default [] initial snapshot k v g h = tt
  Agrees-default (m ∷ ms) initial snapshot k v g h =
      (put_default-found m.field k v _ snapshot h.0, Agrees-default ms initial snapshot k v g.1 h.1)

  preload-cons :
      (m : Mapping F) (ms : List (Mapping F)) (initial : Fields F) (image : Image)
      → (g : Given initial m)
      → preload_image ops packing (m ∷ ms) initial image
        ≡ preload_image ops packing ms initial
            (set_word m.register (encode_word m.data_type g.units) image)
  unfolding preload_image write_words
  preload-cons m ms initial image g =
      rw
        (
          preload_image,
          g.found,
          encode_count ops packing m g.value g.number g.units g.integral g.converts g.counts,
        )
        refl

  preload-kept :
      (m : Mapping F) (ms : List (Mapping F)) (initial : Fields F) (image out : Image)
      → Apart m ms
      → AllGiven initial ms
      → preload_image ops packing ms initial image ≡ some out
      → word_at m.register out ≡ word_at m.register image
  unfolding preload_image
  preload-kept m [] initial image out a g e = cc
  preload-kept m (m' ∷ ms) initial image out a g e =
      preload-kept m ms initial _ out a.2 g.1 (sym (preload-cons m' ms initial image g.0) ∙ e)
      ∙ (word_at-set m'.register m.register _ image ∙ rw a.0 refl)

  preload-Stored :
      (ms : List (Mapping F)) (initial : Fields F) (image : Image) (g : AllGiven initial ms)
      → AllApart ms
      → (out : Image) × (preload_image ops packing ms initial image ≡ some out)
        × Stored out initial ms g
  unfolding preload_image
  preload-Stored [] initial image g a = (image, refl, tt)
  preload-Stored (m ∷ ms) initial image g a =
      let (out, e, h) =
        preload-Stored ms initial (set_word m.register (encode_word m.data_type g.0.units) image)
          g.1 a.1 in
      (
        out,
        preload-cons m ms initial image g.0 ∙ e,
        (
          preload-kept m ms initial _ out a.0 g.1 e
              ∙ (word_at-set m.register m.register _ image
                  ∙ rw (same_register_refl m.register) refl),
          h,
        ),
      )

  read-cons :
      (m : Mapping F) (ms : List (Mapping F)) (initial : Fields F) (image : Image)
      → (snapshot : Fields F) (g : Given initial m)
      → word_at m.register image ≡ encode_word m.data_type g.units
      → read_fields ops packing (m ∷ ms) image snapshot
        ≡ read_fields ops packing ms image
            (put_field m.field (num (in_unit ops packing m.scale g.units)) snapshot)
  unfolding read_fields
  read-cons m ms initial image snapshot g h =
      rw
        (
          read_fields,
          read_one m.register m.register_count image g.single,
          h,
          decode_count ops packing m g.units g.integral g.fits,
        )
        refl

  read-kept :
      (m : Mapping F) (ms : List (Mapping F)) (initial : Fields F) (image : Image)
      → (snapshot out : Fields F) (g : AllGiven initial ms) → Apart m ms
      → Stored image initial ms g
      → read_fields ops packing ms image snapshot ≡ some out
      → lookup m.field out ≡ lookup m.field snapshot
  unfolding read_fields
  read-kept m [] initial image snapshot out g a h e = cc
  read-kept m (m' ∷ ms) initial image snapshot out g a h e =
      read-kept m ms initial image _ out g.1 a.2 h.1
        (sym (read-cons m' ms initial image snapshot g.0 h.0) ∙ e)
      ∙ (lookup-put m'.field m.field _ snapshot ∙ rw a.1 refl)

  read-Agrees :
      (ms : List (Mapping F)) (initial : Fields F) (image : Image) (snapshot : Fields F)
      → (g : AllGiven initial ms) → AllApart ms
      → Stored image initial ms g
      → (out : Fields F) × (read_fields ops packing ms image snapshot ≡ some out)
        × Agrees ms initial g out
  unfolding read_fields
  read-Agrees [] initial image snapshot g a h = (snapshot, refl, tt)
  read-Agrees (m ∷ ms) initial image snapshot g a h =
      let (out, e, k) =
        read-Agrees ms initial image
          (put_field m.field (num (in_unit ops packing m.scale g.0.units)) snapshot) g.1 a.1 h.1 in
      (
        out,
        read-cons m ms initial image snapshot g.0 h.0 ∙ e,
        (
          read-kept m ms initial image _ out g.1 a.0 h.1 e
              ∙ (lookup-put m.field m.field _ snapshot ∙ rw (eq_refl m.field) refl),
          k,
        ),
      )

  with_agv-Agrees :
      (ms : List (Mapping F)) (initial fs : Fields F) (x y : Option (Json F))
      (g : AllGiven initial ms)
      → Agrees ms initial g fs
      → Agrees ms initial g (with_agv x y fs)
  with_agv-Agrees ms initial fs (some x) (some y) g h = Agrees-default ms initial fs "agv_01" _ g h
  with_agv-Agrees ms initial fs (some x) none g h = h
  with_agv-Agrees ms initial fs none y g h = h

  -- If each mapping is to a single register with an integer, no two to one register or from one
  -- field, and the initial state has for each field a number that fits its register when counted in
  -- units of the scale, then a virtual runtime that is preloaded with the state and has no overlay is
  -- read as a snapshot with the same numbers, each to a whole unit of its scale (three decimals).
  pub preload-Agrees :
      (ms : List (Mapping F)) (initial : Fields F)
      → AllApart ms
      → (g : AllGiven initial ms)
      → (image : Image) × (snapshot : Fields F) × (preload_image ops packing ms initial []
          ≡ some image)
        × (read_virtual_snapshot ops packing ms none image ≡ some snapshot)
        × Agrees ms initial g snapshot
  unfolding read_virtual_snapshot
  preload-Agrees ms initial a g =
      let (image, e, h) = preload-Stored ms initial [] g a in
      let (fs, q, k) = read-Agrees ms initial image end g a h in
      (
        image,
        with_agv (lookup "position_x" fs) (lookup "position_y" fs) fs,
        e,
        rw (read_virtual_snapshot, q) refl,
        with_agv-Agrees ms initial fs _ _ g k,
      )
