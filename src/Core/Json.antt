-- ===== src/Core/Json.antt =====
-- The values that the services exchange: what `json.loads` returns, as Python objects. The floats
-- are a parameter `F`, with the operations on numbers that the services use.
use Prim.Native.Char.{Char, code}
use pcag.Base.{
  ◌&&◌, ℕ, zero, suc, ◌==◌, List, [], ◌∷◌, String, Bool, true, false, Option, none, some, str_eq,
  if◌then◌else◌,
}
use pcag.Core.Int.{ℤ, pos}

pub data Number (F : Type 0) : Type 0 where
  int : ℤ → Number F
  float : F → Number F

mutual
  pub data Json (F : Type 0) : Type 0 where
    null : Json F
    bool : Bool → Json F
    num : Number F → Json F
    str : String → Json F
    arr : Items F → Json F
    obj : Fields F → Json F

  pub data Items (F : Type 0) : Type 0 where
    nil : Items F
    cons : Json F → Items F → Items F

  -- A dictionary, in insertion order.
  pub data Fields (F : Type 0) : Type 0 where
    end : Fields F
    field : String → Json F → Fields F → Fields F

-- Python's arithmetic and comparisons on numbers, of either kind on either side.
pub record Arith (F : Type 0) : Type 0 where
  pub sub : Number F → Number F → Number F
  pub abs : Number F → Number F
  pub mul : Number F → Number F → Number F
  pub div : Number F → Number F → Number F
  pub ltb : Number F → Number F → Bool
  pub leb : Number F → Number F → Bool
  pub eqb : Number F → Number F → Bool
  -- `100.0`
  pub hundred : Number F

module _ {F : Type 0} where
  -- `d.get(key)`
  unfoldable pub lookup : String → Fields F → Option (Json F)
  lookup k end = none
  lookup k (field j v fs) = if str_eq j k then some v else lookup k fs

  -- `d[key] = value`, in insertion order.
  unfoldable pub put_field : String → Json F → Fields F → Fields F
  put_field k v end = field k v end
  put_field k v (field j w fs) = if str_eq j k then field j v fs else field j w (put_field k v fs)

  -- `isinstance(v, (int, float))`, with the number: a Boolean is an int in Python.
  abbrev pub number_of : Json F → Option (Number F)
  number_of (num n) = some n
  number_of (bool true) = some (int (pos 1))
  number_of (bool false) = some (int (pos 0))
  number_of _ = none

-- The first piece grows by a character.
abbrev grow : Char → List String → List String
grow c [] = []
grow c (p ∷ ps) = String.◌∷◌ c p ∷ ps

-- `path.split(".")`
unfoldable pub split_dots : String → List String
split_dots String.[] = "" ∷ []
split_dots (String.◌∷◌ c s) = if code c == b'.' then "" ∷ split_dots s else grow c (split_dots s)

module _ {F : Type 0} where
  -- The loops of `get_val` and `_get_nested_value`: a missing key, or a step into what is no
  -- dictionary, gives None.
  unfoldable pub walk : List String → Json F → Json F
  walk [] v = v
  walk (k ∷ ks) (obj fs) = elim (lookup k fs) [ none ↦ null | some v ↦ walk ks v ]
  walk (k ∷ ks) _ = null

  unfoldable pub get_nested_value : Json F → String → Json F
  unfolding walk split_dots
  get_nested_value v path = walk (split_dots path) v

  abbrev size : Fields F → ℕ
  size end = zero
  size (field k v fs) = suc (size fs)

module _ {F : Type 0} (arith : Arith F) where
  abbrev eq_numbers : Option (Number F) → Option (Number F) → Bool
  eq_numbers (some a) (some b) = arith.eqb a b
  eq_numbers _ _ = false

  -- Python's `==`: dictionaries are compared with no regard to order.
  unfoldable mutual
    pub eq_json : Json F → Json F → Bool
    eq_json null null = true
    eq_json null _ = false
    eq_json (str s) (str t) = str_eq s t
    eq_json (str s) _ = false
    eq_json (arr xs) (arr ys) = eq_items xs ys
    eq_json (arr xs) _ = false
    eq_json (obj fs) (obj gs) = size fs == size gs && within fs gs
    eq_json (obj fs) _ = false
    eq_json (bool a) v = eq_numbers (number_of (bool a)) (number_of v)
    eq_json (num a) v = eq_numbers (some a) (number_of v)

    pub eq_items : Items F → Items F → Bool
    eq_items nil nil = true
    eq_items nil (cons y ys) = false
    eq_items (cons x xs) nil = false
    eq_items (cons x xs) (cons y ys) = eq_json x y && eq_items xs ys

    pub within : Fields F → Fields F → Bool
    within end gs = true
    within (field k v fs) gs = elim (lookup k gs) [
      | none ↦ false
      | some w ↦ eq_json v w && within fs gs
    ]
