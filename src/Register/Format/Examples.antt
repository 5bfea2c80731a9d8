-- ===== src/Register/Format/Examples.antt =====
-- The theorems on formatting, at a clock and at a voltage.
use sofar_hyd_diag.Prelude.{ℕ, ◌≡◌, refl, true, [], ◌∷◌, arith, parse_decimal}
use sofar_hyd_diag.Register.Probe.{Probe, probe}
use sofar_hyd_diag.Register.Format.{format_raw_value}
use sofar_hyd_diag.Register.Format.Clock.{decode_bms_clock-injective}
use sofar_hyd_diag.Register.Format.Raw.{parse_decimal-format_raw_value}

decode_bms_clock-injective_example : ◌≡◌ {A = ℕ} 1763842048 1763842048
decode_bms_clock-injective_example =
    decode_bms_clock-injective 1763842048 1763842048 (omega arith) (omega arith) refl

abbrev energy : Probe
energy = record (probe "Energy" 0x0684 2) { u32 = true }

parse_decimal-format_raw_value_example :
    parse_decimal (format_raw_value energy (0 ∷ 1 ∷ 2 ∷ 164 ∷ [])) ≡ 66212
parse_decimal-format_raw_value_example =
    parse_decimal-format_raw_value energy (0 ∷ 1 ∷ 2 ∷ 164 ∷ []) refl refl
      (omega arith, (omega arith, (omega arith, (omega arith, tt)))) (omega arith)
