-- ===== src/Prelude/Decimal.antt =====
-- `%d` of fmt for a number, and text concatenation.
use Prim.Native.Nat.{ℕ, zero, suc, ◌/◌, ◌%◌}
use Prim.Native.String.{String, ◌++◌ as append}
use mathlib.Core.List.{List, [], ◌∷◌}
use sofar_hyd_diag.Prelude.Tests.{ltb, if◌then◌else◌}
use sofar_hyd_diag.Prelude.Lists.{get_or}

abbrev pub str_append : String → String → String
str_append s t = append s t

abbrev digits : List String
digits = "0" ∷ "1" ∷ "2" ∷ "3" ∷ "4" ∷ "5" ∷ "6" ∷ "7" ∷ "8" ∷ "9" ∷ []

decimal_digits : ℕ → ℕ → String
decimal_digits zero n = ""
decimal_digits (suc fuel) n =
    let front = decimal_digits fuel (n / 10) in
    let last = get_or digits (n % 10) "" in if ltb n 10 then last else append front last

-- 20 digits are enough for every 64-bit number.
unfoldable pub decimal : ℕ → String
unfolding decimal_digits
decimal n = decimal_digits 20 n
