-- ===== src/Std/Display.antt =====
-- `Display` of `u64`: the decimal digits of a number.
use Prim.Native.String.{◌++◌}
use icloud_location.Prelude.{ℕ, zero, suc, ◌/◌, ◌%◌, String, ltb, ◌==◌, if◌then◌else◌}

abbrev digit : ℕ → String
digit n =
    if n == 0
    then "0"
    else if n == 1
    then "1"
    else if n == 2
    then "2"
    else if n == 3
    then "3"
    else if n == 4
    then "4"
    else if n == 5
    then "5"
    else if n == 6
    then "6"
    else if n == 7
    then "7"
    else if n == 8
    then "8"
    else "9"

-- The digits before a text. The fuel is the number of digits, at most 20 for a `u64`.
unfoldable digits : ℕ → ℕ → String → String
digits zero n text = text
digits (suc fuel) n text =
    let now = digit (n % 10) ++ text in
    let rest = digits fuel (n / 10) now in if ltb n 10 then now else rest

unfoldable pub show_nat : ℕ → String
unfolding digits
show_nat n = digits 20 n ""
