-- ===== src/Register/Format.antt =====
-- internal/register/format.go: what the server shows of a probe's bytes. A Go string is the list
-- of its bytes. `Labels` of an enum and the unit are literals.
pub mod Clock
mod Examples
pub mod Raw
use sofar_hyd_diag.Prelude.{
  ℕ, zero, suc, ◌+◌, ◌-◌, ◌*◌, ◌/◌, ◌%◌, Bool, true, false, not, ◌&&◌, ◌||◌, String, Option, none,
  some, List, [], ◌∷◌, ◌++◌, length, get_or, ltb, ◌==◌, if◌then◌else◌, u16, utf8, decimal_text,
  padded_text, hex_text, join,
}
use text.Mathlib.Text.{◌==◌ as same_text}
use sofar_hyd_diag.Modbus.Conn.{uint16_at}
use sofar_hyd_diag.Register.Probe.{Labels, Probe}
use sofar_hyd_diag.Register.Fault.{bit_set}

-- Go's signed integers.
pub data ℤ : Type 0 where
  pos negsuc : ℕ → ℤ

-- `int16(v)` and `int32(v)`.
abbrev pub int16 : ℕ → ℤ
int16 v = if ltb v 32768 then pos v else negsuc (65535 - v)

abbrev pub int32 : ℕ → ℤ
int32 v = if ltb v 2147483648 then pos v else negsuc (4294967295 - v)

-- `%d`.
unfoldable pub integer_text : ℤ → List ℕ
integer_text (pos n) = decimal_text n
integer_text (negsuc n) = utf8 "-" ++ decimal_text (suc n)

-- `binary.BigEndian.Uint16(data[:2])<<16 | ...Uint16(data[2:4])`.
abbrev pub uint32_of : List ℕ → ℕ
uint32_of bytes = uint16_at bytes 0 * 65536 + uint16_at bytes 2

unfoldable pub compose_system_time : ℕ → ℕ → ℕ → ℕ → ℕ → ℕ → List ℕ
compose_system_time year month day hour minute second =
    padded_text 2 hour
    ++ (utf8 ":"
        ++ (padded_text 2 minute
            ++ (utf8 ":"
                ++ (padded_text 2 second
                    ++ (utf8 " "
                        ++ (padded_text 2 day
                            ++ (utf8 "-"
                                ++ (padded_text 2 month
                                    ++ (utf8 "-" ++ padded_text 4 (u16 (year + 2000)))))))))))

-- The fields of a BMS clock: year from 2000, month, day, hour, minute, second.
pub record BmsClock : Type 0 where
  pub yr : ℕ
  pub mon : ℕ
  pub day : ℕ
  pub hr : ℕ
  pub minute : ℕ
  pub second : ℕ

unfoldable pub bms_clock_fields : ℕ → BmsClock
bms_clock_fields val = record {
  yr = val / 67108864 % 64;
  mon = val / 4194304 % 16;
  day = val / 131072 % 32;
  hr = val / 4096 % 32;
  minute = val / 64 % 64;
  second = val % 64;
}

abbrev pub bms_clock_text : BmsClock → List ℕ
bms_clock_text c =
    padded_text 4 (2000 + c.yr)
    ++ (utf8 "-"
        ++ (padded_text 2 c.mon
            ++ (utf8 "-"
                ++ (padded_text 2 c.day
                    ++ (utf8 " "
                        ++ (padded_text 2 c.hr
                            ++ (utf8 ":"
                                ++ (padded_text 2 c.minute
                                    ++ (utf8 ":" ++ padded_text 2 c.second)))))))))

unfoldable pub decode_bms_clock : ℕ → List ℕ
unfolding bms_clock_fields
decode_bms_clock val = bms_clock_text (bms_clock_fields val)

-- The cells from `i` on, of those left, whose bit is set.
unfoldable pub balancing_cells : ℕ → ℕ → ℕ → List (List ℕ)
unfolding bit_set
balancing_cells zero i val = []
balancing_cells (suc left) i val =
    let rest = balancing_cells left (suc i) val in
    if bit_set val i then (utf8 "Cell " ++ decimal_text (i + 1)) ∷ rest else rest

unfoldable pub decode_balance_state : ℕ → List ℕ
decode_balance_state val =
    if val == 0
    then utf8 "Balanced"
    else utf8 "Balancing: " ++ join (utf8 ", ") (balancing_cells 16 0 val)

-- The bytes before the first zero byte, if there is one.
unfoldable pub until_zero : List ℕ → List ℕ
until_zero [] = []
until_zero (b ∷ bs) = let rest = until_zero bs in if b == 0 then [] else b ∷ rest

-- `strings.TrimRight(s, " ")`.
unfoldable pub trim_right : List ℕ → List ℕ
trim_right [] = []
trim_right (b ∷ bs) = elim (trim_right bs) [
  | [] ↦ if b == 32 then [] else b ∷ []
  | c ∷ cs ↦ b ∷ c ∷ cs
]

-- A key of an enum map.
unfoldable pub label_of : Labels → ℕ → Option String
label_of [] val = none
label_of ((key, label) ∷ labels) val =
    let rest = label_of labels val in if key == val then some label else rest

-- `float64(value) * scale` printed with that many decimals: floats are not modelled.
abbrev pub FloatText : Type 0
FloatText = ℕ → ℤ → ℕ → List ℕ

abbrev scaled_text : FloatText → Probe → ℤ → List ℕ
scaled_text print_float p value =
    if same_text p.unit ""
    then print_float 3 value p.scale
    else print_float 2 value p.scale ++ (utf8 " " ++ utf8 p.unit)

-- `"%d (0x%0*X)"`, with the number of hex digits.
abbrev with_hex : ℕ → ℤ → ℕ → List ℕ
with_hex width value raw = integer_text value ++ (utf8 " (0x" ++ (hex_text width raw ++ utf8 ")"))

abbrev no_data : List ℕ
no_data = utf8 "<no data>"

unfoldable pub format_u32 : FloatText → Probe → List ℕ → List ℕ
format_u32 print_float p bytes =
    let raw = uint32_of bytes in
    let value = if p.signed then int32 raw else pos raw in
    if ltb (length bytes) 4
    then no_data
    else if ltb 0 p.scale
    then scaled_text print_float p value
    else with_hex 8 value raw

-- The rest of `FormatValue`, from the check for two bytes on; first without the enum.
unfoldable pub format_number : FloatText → Probe → List ℕ → List ℕ
format_number print_float p bytes =
    let raw = uint16_at bytes 0 in
    let value = if p.signed then int16 raw else pos raw in
    if ltb 0 p.scale
    then scaled_text print_float p value
    else if p.signed
    then integer_text value
    else with_hex 4 value raw

unfoldable pub format_u16 : FloatText → Probe → List ℕ → List ℕ
unfolding format_number label_of
format_u16 print_float p bytes = if ltb (length bytes) 2 then no_data else elim p.enum [
  | none ↦ format_number print_float p bytes
  | some labels ↦ elim (label_of labels (uint16_at bytes 0)) [
    | some label ↦ utf8 label
    | none ↦ format_number print_float p bytes
  ]
]

unfoldable pub format_sw_version : List ℕ → List ℕ
format_sw_version bytes =
    get_or bytes 1 0
    ∷ (decimal_text (uint16_at bytes 2)
        ++ (utf8 "."
            ++ (decimal_text (uint16_at bytes 4)
                ++ (utf8 "." ++ decimal_text (uint16_at bytes 6)))))

unfoldable pub format_value : FloatText → Probe → List ℕ → List ℕ
unfolding format_u32 format_u16 format_sw_version compose_system_time decode_bms_clock until_zero
    trim_right
format_value print_float p bytes =
    if same_text p.composite "system_time"
    then (if ltb (length bytes) 12
        then no_data
        else compose_system_time (uint16_at bytes 0) (uint16_at bytes 2) (uint16_at bytes 4)
            (uint16_at bytes 6) (uint16_at bytes 8) (uint16_at bytes 10))
    else if same_text p.composite "bms_clock"
    then (if ltb (length bytes) 4 then no_data else decode_bms_clock (uint32_of bytes))
    else if same_text p.composite "bms_sw_version"
    then (if ltb (length bytes) 8 then no_data else format_sw_version bytes)
    else if p.is_ascii
    then trim_right (until_zero bytes)
    else if p.u32
    then format_u32 print_float p bytes
    else format_u16 print_float p bytes

-- "0x%04X-0x%04X | ", from the probe's first address to its last.
abbrev address_span : Probe → List ℕ
address_span p =
    utf8 "0x"
    ++ (hex_text 4 p.addr
        ++ (utf8 "-0x" ++ (hex_text 4 (u16 (p.addr + p.count + 65535)) ++ utf8 " | ")))

-- The 16-bit values from byte `i` on, of those left, in decimals.
unfoldable pub values_text : ℕ → ℕ → List ℕ → List (List ℕ)
values_text zero i bytes = []
values_text (suc left) i bytes = decimal_text (uint16_at bytes i) ∷ values_text left (i + 2) bytes

-- `"%X"` of bytes.
unfoldable pub hex_bytes : List ℕ → List ℕ
hex_bytes [] = []
hex_bytes (b ∷ bs) = hex_text 2 b ++ hex_bytes bs

unfoldable pub format_raw_value : Probe → List ℕ → List ℕ
unfolding values_text hex_bytes
format_raw_value p bytes =
    if same_text p.composite "system_time"
    then (if ltb (length bytes) 12
        then []
        else address_span p ++ join (utf8 ", ") (values_text 6 0 bytes))
    else if same_text p.composite "bms_clock"
    then (if ltb (length bytes) 4
        then []
        else address_span p ++ join (utf8 ", ") (values_text 2 0 bytes))
    else if same_text p.composite "bms_sw_version"
    then (if ltb (length bytes) 8
        then []
        else address_span p ++ join (utf8 ", ") (values_text 4 0 bytes))
    else if ltb (length bytes) 2
    then []
    else if p.is_ascii
    then hex_bytes bytes
    else if p.u32 && not (ltb (length bytes) 4)
    then decimal_text (uint32_of bytes)
    else decimal_text (uint16_at bytes 0)
