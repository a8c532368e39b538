-- ===== src/Core/Text.antt =====
-- The texts that Python's `str` and `json.dumps` make of integers and of strings.
use Prim.Native.Nat.{◌/◌, ◌%◌}
use Prim.Native.Char.{code}
use Prim.Native.String.{◌++◌ as text_append}
use pcag.Base.{ℕ, zero, suc, ◌+◌, ◌-◌, String, List, [], ◌∷◌, ltb, ◌==◌, if◌then◌else◌}
use pcag.Core.Int.{ℤ, pos, negsuc}

abbrev pub concat : List String → String
concat [] = ""
concat (s ∷ ss) = text_append s (concat ss)

-- One digit, to base 16.
abbrev digit : ℕ → String
digit zero = "0"
digit (suc zero) = "1"
digit (suc (suc zero)) = "2"
digit (suc (suc (suc zero))) = "3"
digit (suc (suc (suc (suc n)))) =
    if n == 0
    then "4"
    else if n == 1
    then "5"
    else if n == 2
    then "6"
    else if n == 3
    then "7"
    else if n == 4
    then "8"
    else if n == 5
    then "9"
    else if n == 6
    then "a"
    else if n == 7
    then "b"
    else if n == 8
    then "c"
    else if n == 9
    then "d"
    else if n == 10
    then "e"
    else "f"

-- The digits of `n` before `acc`; a number has at most as many digits as its value, plus one.
decimal_from : ℕ → ℕ → String → String
decimal_from zero n acc = acc
decimal_from (suc fuel) n acc =
    let here = text_append (digit (n % 10)) acc in
    let rest = decimal_from fuel (n / 10) here in if ltb n 10 then here else rest

decimal : ℕ → String
unfolding decimal_from
decimal n = decimal_from (n + 1) n ""

-- `str(n)`
unfoldable pub int_text : ℤ → String
unfolding decimal
int_text (pos n) = decimal n
int_text (negsuc n) = text_append "-" (decimal (n + 1))

abbrev hex4 : ℕ → String
hex4 n =
    concat
      ("\\u" ∷ digit (n / 4096) ∷ digit (n / 256 % 16) ∷ digit (n / 16 % 16) ∷ digit (n % 16) ∷ [])

-- A character inside the quotes, with `ensure_ascii`: beyond 16 bits, as two surrogates.
abbrev escape : ℕ → String → String
escape c plain =
    if c == 34
    then "\\\""
    else if c == 92
    then "\\\\"
    else if c == 10
    then "\\n"
    else if c == 13
    then "\\r"
    else if c == 9
    then "\\t"
    else if c == 12
    then "\\f"
    else if c == 8
    then "\\b"
    else if ltb c 32
    then hex4 c
    else if ltb c 127
    then plain
    else if ltb c 65536
    then hex4 c
    else text_append (hex4 (55296 + (c - 65536) / 1024)) (hex4 (56320 + (c - 65536) % 1024))

dumps_from : String → String
dumps_from String.[] = "\""
dumps_from (String.◌∷◌ c s) = text_append (escape (code c) (String.◌∷◌ c String.[])) (dumps_from s)

-- `json.dumps(s)`
unfoldable pub dumps : String → String
unfolding dumps_from
dumps s = text_append "\"" (dumps_from s)
