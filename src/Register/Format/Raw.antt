-- ===== src/Register/Format/Raw.antt =====
-- The raw value of a numeric probe (FormatRawValue of internal/register/format.go) read back.
use sofar_hyd_diag.Prelude.{
  ℕ, zero, suc, ◌^◌, ◌≤◌, ◌<◌, ◌≡◌, false, not, ◌&&◌, List, [], ◌∷◌, length, take, get_or, ltb, leb,
  ◌+◌, ◌*◌, sym, ◌∙◌, Bool-cases, inl, inr, if◌then◌else◌, All, arith, decimal_text, parse_decimal,
  parse-decimal_text,
}
use sofar_hyd_diag.Modbus.Conn.{uint16_at}
use sofar_hyd_diag.Modbus.Crc.{IsByte}
use sofar_hyd_diag.Register.Probe.{Probe}
use sofar_hyd_diag.Register.Format.{uint32_of, format_raw_value}

-- The number that the code makes of the bytes.
abbrev raw_number : Probe → List ℕ → ℕ
raw_number p bytes =
    if p.u32 && not (ltb (length bytes) 4) then uint32_of bytes else uint16_at bytes 0

get_or-IsByte : (bytes : List ℕ) (i : ℕ) → All IsByte bytes → get_or bytes i 0 < 256
get_or-IsByte [] i h = omega arith
get_or-IsByte (b ∷ bs) zero h = h.0
get_or-IsByte (b ∷ bs) (suc i) h = get_or-IsByte bs i h.1

raw_number-lt : (p : Probe) (bytes : List ℕ) → All IsByte bytes → raw_number p bytes < 2 ^ 64
raw_number-lt p bytes h = ground (
  arith,
  get_or-IsByte bytes 0 h,
  get_or-IsByte bytes 1 h,
  get_or-IsByte bytes 2 h,
  get_or-IsByte bytes 3 h,
)

format_raw_value-number :
    (p : Probe) (bytes : List ℕ)
    → p.composite ≡ ""
    → p.is_ascii ≡ false
    → 2 ≤ length bytes
    → format_raw_value p bytes ≡ decimal_text (raw_number p bytes)
unfolding format_raw_value
format_raw_value-number p bytes plain number enough = rw (plain, number) (ground arith)

-- The number of some bytes, the first of which counts most, after those read before.
abbrev pub big_endian : ℕ → List ℕ → ℕ
big_endian acc [] = acc
big_endian acc (b ∷ bs) = big_endian (acc * 256 + b) bs

-- The bytes of a probe's value: two registers where it has 32 bits and they came, else one.
abbrev pub value_bytes : Probe → List ℕ → List ℕ
value_bytes p bytes = take (if p.u32 && leb 4 (length bytes) then 4 else 2) bytes

big_endian-two :
    (bytes : List ℕ) → 2 ≤ length bytes → big_endian 0 (take 2 bytes) ≡ uint16_at bytes 0
big_endian-two [] h = absurd (omega arith)
big_endian-two (a ∷ []) h = absurd (omega arith)
big_endian-two (a ∷ b ∷ bs) h = omega arith

big_endian-four :
    (bytes : List ℕ) → 4 ≤ length bytes → big_endian 0 (take 4 bytes) ≡ uint32_of bytes
big_endian-four [] h = absurd (omega arith)
big_endian-four (a ∷ []) h = absurd (omega arith)
big_endian-four (a ∷ b ∷ []) h = absurd (omega arith)
big_endian-four (a ∷ b ∷ c ∷ []) h = absurd (omega arith)
big_endian-four (a ∷ b ∷ c ∷ d ∷ bs) h = omega arith

raw_number-big_endian :
    (p : Probe) (bytes : List ℕ)
    → 2 ≤ length bytes
    → raw_number p bytes ≡ big_endian 0 (value_bytes p bytes)
raw_number-big_endian p bytes enough =
    let came : not (ltb (length bytes) 4) ≡ leb 4 (length bytes) = ground arith in
    rw came (elim (Bool-cases (p.u32 && leb 4 (length bytes))) [
      | inl wide ↦ rw wide (sym (big_endian-four bytes (ground arith)))
      | inr narrow ↦ rw narrow (sym (big_endian-two bytes enough))
    ])

-- The raw value shown for a probe that is neither composite nor text reads back as the number of
-- the bytes that came, the first of which counts most: of four bytes where the probe has 32 bits
-- and as many came, else of two, if at least two came.
pub parse_decimal-format_raw_value :
    (p : Probe) (bytes : List ℕ)
    → p.composite ≡ ""
    → p.is_ascii ≡ false
    → All IsByte bytes
    → 2 ≤ length bytes
    → parse_decimal (format_raw_value p bytes) ≡ big_endian 0 (value_bytes p bytes)
parse_decimal-format_raw_value p bytes plain number all_bytes enough =
    rw (format_raw_value-number p bytes plain number enough) (
      parse-decimal_text (raw_number p bytes) (raw_number-lt p bytes all_bytes)
      ∙ raw_number-big_endian p bytes enough)
