-- ===== src/Common/Decimal.antt =====
-- fmt's %d of a natural number.
use Prim.Native.Nat.{ℕ, zero, suc, ◌/◌, ◌%◌}
use Prim.Native.String.{String, ◌++◌}
use atlas_idp.Common.Tests.{◌==◌, ltb, if◌then◌else◌}

abbrev digit_text : ℕ → String
digit_text n =
    if n == 0
    then "0"
    else if n == 1
    then "1"
    else if n == 2
    then "2"
    else if n == 3
    then "3"
    else if n == 4
    then "4"
    else if n == 5
    then "5"
    else if n == 6
    then "6"
    else if n == 7
    then "7"
    else if n == 8
    then "8"
    else "9"

decimal_from : ℕ → ℕ → String → String
decimal_from zero n rest = rest
decimal_from (suc fuel) n rest =
    let more = decimal_from fuel (n / 10) (digit_text (n % 10) ++ rest) in
    if ltb n 10 then digit_text n ++ rest else more

unfoldable pub decimal : ℕ → String
unfolding decimal_from
decimal n = decimal_from (suc n) n ""
