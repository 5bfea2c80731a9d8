-- ===== src/Prelude/Text.antt =====
-- Texts as lists of bytes, as Go has them: literals in UTF-8, and what fmt prints of numbers.
use Prim.Native.Char.{code}
use Prim.Native.Nat.{ℕ, zero, suc, ◌+◌, ◌-◌, ◌*◌, ◌/◌, ◌%◌, ◌^◌, ◌<◌, ◌≤◌}
use Prim.Native.String.{String}
use mathlib.Core.Path.{◌≡◌, refl}
use mathlib.Core.Logic.{inl, inr}
use mathlib.Core.Bool.{true, false}
use mathlib.Core.List.{List, [], ◌∷◌, ◌++◌}
use native.Mathlib.Omega.{arith}
use sofar_hyd_diag.Prelude.Tests.{ltb, if◌then◌else◌, Bool-cases}
use sofar_hyd_diag.Prelude.Lists.{length, replicate}

abbrev utf8_char : ℕ → List ℕ
utf8_char c =
    if ltb c 128
    then c ∷ []
    else if ltb c 2048
    then (192 + c / 64) ∷ (128 + c % 64) ∷ []
    else if ltb c 65536
    then (224 + c / 4096) ∷ (128 + c / 64 % 64) ∷ (128 + c % 64) ∷ []
    else (240 + c / 262144) ∷ (128 + c / 4096 % 64) ∷ (128 + c / 64 % 64) ∷ (128 + c % 64) ∷ []

-- The bytes of a literal.
abbrev pub utf8 : String → List ℕ
utf8 String.[] = []
utf8 (String.◌∷◌ c s) = utf8_char (code c) ++ utf8 s

-- The decimal digits of a number with `fuel` digits at most.
unfoldable pub decimal_digits_text : ℕ → ℕ → List ℕ
decimal_digits_text zero n = []
decimal_digits_text (suc fuel) n = elim (ltb n 10) [
  | true ↦ (48 + n) ∷ []
  | false ↦ decimal_digits_text fuel (n / 10) ++ ((48 + n % 10) ∷ [])
]

-- `%d` of a number: 20 digits are enough for every 64-bit number.
unfoldable pub decimal_text : ℕ → List ℕ
unfolding decimal_digits_text
decimal_text n = decimal_digits_text 20 n

-- `%02d` and the like.
unfoldable pub padded_text : ℕ → ℕ → List ℕ
unfolding decimal_text
padded_text width n =
    let digits_text = decimal_text n in replicate (width - length digits_text) 48 ++ digits_text

abbrev hex_digit : ℕ → ℕ
hex_digit d = if ltb d 10 then 48 + d else 55 + d

-- `%04X` and the like, of a number with no more digits than the width.
unfoldable pub hex_text : ℕ → ℕ → List ℕ
hex_text zero n = []
hex_text (suc width) n = hex_text width (n / 16) ++ (hex_digit (n % 16) ∷ [])

-- `strings.Join`.
unfoldable pub join : List ℕ → List (List ℕ) → List ℕ
join separator [] = []
join separator (t ∷ ts) = elim ts [ [] ↦ t | _ ∷ _ ↦ t ++ (separator ++ join separator ts) ]

-- The number that a text of decimal digits says, after those read before.
unfoldable pub parse_decimal_from : ℕ → List ℕ → ℕ
parse_decimal_from acc [] = acc
parse_decimal_from acc (b ∷ bs) = parse_decimal_from (acc * 10 + (b - 48)) bs

abbrev pub parse_decimal : List ℕ → ℕ
parse_decimal = parse_decimal_from 0

parse_decimal_from-last :
    (acc b : ℕ) (bs : List ℕ)
    → parse_decimal_from acc (bs ++ (b ∷ [])) ≡ parse_decimal_from acc bs * 10 + (b - 48)
unfolding parse_decimal_from
parse_decimal_from-last acc b [] = refl
parse_decimal_from-last acc b (x ∷ bs) = parse_decimal_from-last (acc * 10 + (x - 48)) b bs

decimal_digits-one : (fuel n : ℕ) → n < 10 → decimal_digits_text (suc fuel) n ≡ (48 + n) ∷ []
unfolding decimal_digits_text
decimal_digits-one fuel n h = ground arith

decimal_digits-more :
    (fuel n : ℕ)
    → 10 ≤ n
    → decimal_digits_text (suc fuel) n ≡ decimal_digits_text fuel (n / 10) ++ ((48 + n % 10) ∷ [])
unfolding decimal_digits_text
decimal_digits-more fuel n h = ground arith

parse_decimal_digits : (fuel n : ℕ) → n < 10 ^ fuel → parse_decimal (decimal_digits_text fuel n) ≡ n
parse_decimal_digits zero n h = unfold parse_decimal_from decimal_digits_text in omega arith
parse_decimal_digits (suc fuel) n h = elim (Bool-cases (ltb n 10)) [
  | inl one_digit ↦
      rw (decimal_digits-one fuel n (ground arith)) (unfold parse_decimal_from in omega arith)
  | inr more ↦
      rw
        (
          decimal_digits-more fuel n (ground arith),
          parse_decimal_from-last 0 (48 + n % 10) (decimal_digits_text fuel (n / 10)),
          parse_decimal_digits fuel (n / 10) (omega arith),
        )
        (omega arith)
]

-- Reading back what is printed gives the number, if 64 bits hold it.
pub parse-decimal_text : (n : ℕ) → n < 2 ^ 64 → parse_decimal (decimal_text n) ≡ n
unfolding decimal_text
parse-decimal_text n h = parse_decimal_digits 20 n (omega arith)

-- Two digits of a number below 100, and four of one from 1000 on.
pub padded_text-two : (n : ℕ) → n < 100 → padded_text 2 n ≡ (48 + n / 10) ∷ (48 + n % 10) ∷ []
unfolding padded_text decimal_text
padded_text-two n h = elim (Bool-cases (ltb n 10)) [
  | inl one_digit ↦ rw (decimal_digits-one 19 n (ground arith)) (ground arith)
  | inr more ↦
      rw (decimal_digits-more 19 n (ground arith), decimal_digits-one 18 (n / 10) (omega arith))
        (ground arith)
]

pub padded_text-four :
    (n : ℕ)
    → 1000 ≤ n
    → n < 10000
    → padded_text 4 n
      ≡ (48 + n / 1000) ∷ (48 + n / 100 % 10) ∷ (48 + n / 10 % 10) ∷ (48 + n % 10) ∷ []
unfolding padded_text decimal_text
padded_text-four n h h' =
    rw
      (
        decimal_digits-more 19 n (omega arith),
        decimal_digits-more 18 (n / 10) (omega arith),
        decimal_digits-more 17 (n / 10 / 10) (omega arith),
        decimal_digits-one 16 (n / 10 / 10 / 10) (omega arith),
      )
      (ground arith)
