-- ===== src/Prelude/Text.antt =====
-- Decimal notation, as Rust's `Display` of `usize`, and texts put together.
use Prim.Native.Nat.{ℕ, zero, suc, ◌/◌, ◌%◌}
use Prim.Native.String.{String, ◌++◌ as append_text}
use mathlib.Core.Path.{◌≡◌, refl}
use mathlib.Core.Bool.{true, false}
use logos_blockchain_testing.Prelude.Tests.{ltb, ◌==◌, if◌then◌else◌}

-- `format!("{s}{t}")`
abbrev pub concat : String → String → String
concat s t = append_text s t

digit : ℕ → String
digit d =
    if d == 0
    then "0"
    else if d == 1
    then "1"
    else if d == 2
    then "2"
    else if d == 3
    then "3"
    else if d == 4
    then "4"
    else if d == 5
    then "5"
    else if d == 6
    then "6"
    else if d == 7
    then "7"
    else if d == 8
    then "8"
    else "9"

-- The fuel is above the number of digits.
decimal_from : ℕ → ℕ → String → String
unfolding digit
decimal_from zero n rest = rest
decimal_from (suc fuel) n rest = elim (ltb n 10) [
  | true ↦ concat (digit n) rest
  | false ↦ decimal_from fuel (n / 10) (concat (digit (n % 10)) rest)
]

unfoldable pub decimal : ℕ → String
unfolding decimal_from
decimal n = decimal_from (suc n) n ""

decimal_test : decimal 4096 ≡ "4096"
unfolding decimal
decimal_test = refl
