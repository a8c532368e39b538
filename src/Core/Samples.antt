-- ===== src/Core/Samples.antt =====
-- Concrete parameters for the tests: floats are natural numbers, and a text's hash says whether the
-- text is empty.
use pcag.Core.Cbf.InBounds.{NumberLaws}
use pcag.Core.Consensus.{Floats}
use pcag.Core.Cbf.{Limits}
use pcag.Base.{
  ◌||◌, not, ◌≡◌, true, false, refl, arith, none, ◌+◌, leb, ℕ, ◌-◌, ◌*◌, String, ltb, ◌==◌, str_eq,
  if◌then◌else◌,
}
use pcag.Core.Int.{ltb_ℤ, ℤ, ◌-ℤ◌, pos, negsuc}
use pcag.Core.Json.{Number, int, float, Arith}
use pcag.Core.Hash.{Hashing}

abbrev pub hash_of : String → String
hash_of s = if str_eq s "" then "0" else "1"

abbrev pub hashing : Hashing ℕ
hashing = record { sha256 = hash_of; format3 = λ n. "0.000" }

abbrev size : Number ℕ → ℕ
size (int (pos n)) = n
size (int (negsuc n)) = n
size (float n) = n

abbrev pub naturals : Arith ℕ
naturals = record {
  sub = λ a b. float (size a - size b);
  abs = λ a. a;
  mul = λ a b. float (size a * size b);
  div = λ a b. a;
  ltb = λ a b. ltb (size a) (size b);
  leb = λ a b. leb (size a) (size b);
  eqb = λ a b. size a == size b;
  hundred = float 100;
}

-- Floats stand for the integers from -1 on, `float n` for n - 1, and no difference is below -1.
abbrev rank : Number ℕ → ℕ
rank (int (pos n)) = n + 1
rank (int (negsuc n)) = 0
rank (float n) = n

abbrev pub signed : Arith ℕ
signed = record {
  sub = λ a b. float (rank a + 1 - rank b);
  abs = λ a. a;
  mul = λ a b. a;
  div = λ a b. a;
  ltb = λ a b. ltb (rank a) (rank b);
  leb = λ a b. leb (rank a) (rank b);
  eqb = λ a b. rank a == rank b;
  hundred = float 101;
}

abbrev pub limits : Limits ℕ
limits = record { inf = 1000; neg_inf = 0; parse_int = λ s. none; includes = str_eq }

leb_same : (a : ℕ) → leb a a ≡ true
leb_same a = ground arith

leb_chain : (a b c : ℕ) → leb a b ≡ true → leb b c ≡ true → leb a c ≡ true
leb_chain a b c p q = ground arith

ltb_below : (a b : ℕ) → ltb a b ≡ true → leb a b ≡ true
ltb_below a b p = ground arith

ltb_above : (a b : ℕ) → ltb a b ≡ false → leb b a ≡ true
ltb_above a b p = ground arith

leb_sub : (a b : ℕ) → leb 1 (a + 1 - b) ≡ true → leb b a ≡ true
leb_sub a b p = ground arith

pub laws : NumberLaws signed limits
laws = record {
  leb_refl = λ a. leb_same (rank a);
  leb_trans = λ a b c. leb_chain (rank a) (rank b) (rank c);
  ltb_leb = λ a b. ltb_below (rank a) (rank b);
  ltb_false = λ a b. ltb_above (rank a) (rank b);
  minus_one = refl;
  leb_of_sub = λ a b. leb_sub (rank a) (rank b);
  neg_inf = refl;
}

-- Naturals as hundredths, where a product of two is not scaled back.
abbrev pub hundredths : Floats ℕ
hundredths = record {
  add = λ a b. a + b;
  mul = λ a b. a * b;
  div = λ a b. a;
  leb = leb;
  is_positive = λ a. ltb 0 a;
  zero = 0;
  one = 1;
  half = 50;
  default_rules = 40;
  default_cbf = 35;
  default_sim = 25;
}

-- Floats stand for natural numbers; a division leaves the number as it is.
abbrev pub whole : Number ℕ → ℤ
whole (int a) = a
whole (float n) = pos n

abbrev pub numbers : Arith ℕ
numbers = record {
  sub = λ a b. int (whole a -ℤ whole b);
  abs = λ a. a;
  mul = λ a b. a;
  div = λ a b. a;
  ltb = λ a b. ltb_ℤ (whole a) (whole b);
  leb = λ a b. not (ltb_ℤ (whole b) (whole a));
  eqb = λ a b. not (ltb_ℤ (whole a) (whole b) || ltb_ℤ (whole b) (whole a));
  hundred = float 100;
}
