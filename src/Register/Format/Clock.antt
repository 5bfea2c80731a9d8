-- ===== src/Register/Format/Clock.antt =====
-- The text of a BMS clock (DecodeBMSClock of internal/register/format.go) loses nothing.
use sofar_hyd_diag.Prelude.{
  ℕ, ◌+◌, ◌*◌, ◌/◌, ◌%◌, ◌^◌, ◌<◌, ◌≡◌, sym, ◌∙◌, List, [], ◌∷◌, arith, padded_text-two,
  padded_text-four,
}
use sofar_hyd_diag.Register.Format.{BmsClock, bms_clock_fields, bms_clock_text, decode_bms_clock}

-- The values that the bits of each field can hold.
pub record IsPacked (c : BmsClock) : Type 0 where
  pub yr_bits : c.yr < 64
  pub mon_bits : c.mon < 16
  pub day_bits : c.day < 32
  pub hr_bits : c.hr < 32
  pub minute_bits : c.minute < 64
  pub second_bits : c.second < 64

-- The register value of a clock.
abbrev pub pack : BmsClock → ℕ
pack c = c.yr * 67108864 + c.mon * 4194304 + c.day * 131072 + c.hr * 4096 + c.minute * 64 + c.second

bms_clock_fields-IsPacked : (val : ℕ) → IsPacked (bms_clock_fields val)
unfolding bms_clock_fields
bms_clock_fields-IsPacked val = ground arith

pack-bms_clock_fields : (val : ℕ) → val < 2 ^ 32 → pack (bms_clock_fields val) ≡ val
unfolding bms_clock_fields
pack-bms_clock_fields val h = omega arith

-- The text of packed fields, digit by digit.
abbrev digits : BmsClock → List ℕ
digits c =
    (48 + (2000 + c.yr) / 1000)
    ∷ (48 + (2000 + c.yr) / 100 % 10)
    ∷ (48 + (2000 + c.yr) / 10 % 10)
    ∷ (48 + (2000 + c.yr) % 10)
    ∷ 45
    ∷ (48 + c.mon / 10)
    ∷ (48 + c.mon % 10)
    ∷ 45
    ∷ (48 + c.day / 10)
    ∷ (48 + c.day % 10)
    ∷ 32
    ∷ (48 + c.hr / 10)
    ∷ (48 + c.hr % 10)
    ∷ 58
    ∷ (48 + c.minute / 10)
    ∷ (48 + c.minute % 10)
    ∷ 58
    ∷ (48 + c.second / 10)
    ∷ (48 + c.second % 10)
    ∷ []

bms_clock_text-digits : (c : BmsClock) → IsPacked c → bms_clock_text c ≡ digits c
bms_clock_text-digits c p = rw (
  padded_text-four (2000 + c.yr) (omega (arith, p.yr_bits)) (omega (arith, p.yr_bits)),
  padded_text-two c.mon (omega (arith, p.mon_bits)),
  padded_text-two c.day (omega (arith, p.day_bits)),
  padded_text-two c.hr (omega (arith, p.hr_bits)),
  padded_text-two c.minute (omega (arith, p.minute_bits)),
  padded_text-two c.second (omega (arith, p.second_bits)),
)

digits-pack : (c d : BmsClock) → digits c ≡ digits d → pack c ≡ pack d
digits-pack c d h = ground arith

-- Two clock values of 32 bits with the same text are the same value.
pub decode_bms_clock-injective :
    (val val' : ℕ)
    → val < 2 ^ 32
    → val' < 2 ^ 32
    → decode_bms_clock val ≡ decode_bms_clock val'
    → val ≡ val'
unfolding decode_bms_clock
decode_bms_clock-injective val val' h h' same =
    let c = bms_clock_fields val in
    let c' = bms_clock_fields val' in
    sym (pack-bms_clock_fields val h)
    ∙ digits-pack c c' (
        sym (bms_clock_text-digits c (bms_clock_fields-IsPacked val))
        ∙ same
        ∙ bms_clock_text-digits c' (bms_clock_fields-IsPacked val'))
    ∙ pack-bms_clock_fields val' h'
