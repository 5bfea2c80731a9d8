-- ===== src/Register/Fault.antt =====
-- internal/register/fault.go: the fault table, the reads that fetch it, and its decoding.
mod Grid
mod Inverter
mod Storage
pub mod Decoding
use Grid.{
  fault_1_bits, fault_2_bits, fault_3_bits, fault_4_bits, fault_5_bits, fault_6_bits, fault_7_bits,
  fault_8_bits,
}
use Inverter.{
  fault_9_bits, fault_10_bits, fault_11_bits, fault_12_bits, fault_13_bits, fault_14_bits,
  fault_15_bits, fault_16_bits,
}
use Storage.{
  fault_17_bits, fault_18_bits, fault_19_bits, fault_20_bits, fault_21_bits, fault_22_bits,
  fault_23_bits, fault_24_bits, fault_25_bits, fault_26_bits, fault_27_bits, fault_28_bits,
  fault_29_bits, fault_30_bits,
}
use sofar_hyd_diag.Prelude.{
  ℕ, ◌+◌, ◌*◌, ◌/◌, ◌%◌, ◌^◌, Bool, true, false, String, Option, none, some, List, [], ◌∷◌, ◌++◌,
  ◌==◌, if◌then◌else◌,
}
use sofar_hyd_diag.Register.FaultBit.{FaultBit}
use sofar_hyd_diag.Register.Probe.{Probe, probe}

unfoldable pub fault_table : List FaultBit
unfolding fault_1_bits fault_2_bits fault_3_bits fault_4_bits fault_5_bits fault_6_bits fault_7_bits
    fault_8_bits fault_9_bits fault_10_bits fault_11_bits fault_12_bits fault_13_bits fault_14_bits
    fault_15_bits fault_16_bits fault_17_bits fault_18_bits fault_19_bits fault_20_bits
    fault_21_bits fault_22_bits fault_23_bits fault_24_bits fault_25_bits fault_26_bits
    fault_27_bits fault_28_bits fault_29_bits fault_30_bits
fault_table =
    fault_1_bits
    ++ (fault_2_bits
        ++ (fault_3_bits
            ++ (fault_4_bits
                ++ (fault_5_bits
                    ++ (fault_6_bits
                        ++ (fault_7_bits
                            ++ (fault_8_bits
                                ++ (fault_9_bits
                                    ++ (fault_10_bits
                                        ++ (fault_11_bits
                                            ++ (fault_12_bits
                                                ++ (fault_13_bits
                                                    ++ (fault_14_bits
                                                        ++ (fault_15_bits
                                                            ++ (fault_16_bits
                                                            ++ (fault_17_bits
                                                            ++ (fault_18_bits
                                                            ++ (fault_19_bits
                                                            ++ (fault_20_bits
                                                            ++ (fault_21_bits
                                                            ++ (fault_22_bits
                                                            ++ (fault_23_bits
                                                            ++ (fault_24_bits
                                                            ++ (fault_25_bits
                                                            ++ (fault_26_bits
                                                            ++ (fault_27_bits
                                                            ++ (fault_28_bits
                                                            ++ (fault_29_bits
                                                            ++ (fault_30_bits)))))))))))))))))))))))))))))

unfoldable pub fault_registers : List Probe
fault_registers = probe "Fault batch 1" 0x0405 18 ∷ probe "Fault batch 2" 0x0432 12 ∷ []

-- `val & (1 << bit) != 0`, for a bit below 16.
unfoldable pub bit_set : ℕ → ℕ → Bool
bit_set val bit = (val / 2 ^ bit) % 2 == 1

-- The body of the loop of `DecodeFaults`, over a table and a map from register address to value.
unfoldable pub decode_with : (ℕ → Option ℕ) → List FaultBit → List String
unfolding bit_set
decode_with fault_data [] = []
decode_with fault_data (fb ∷ fbs) =
    let rest = decode_with fault_data fbs in
    elim (fault_data fb.addr) [
      | none ↦ rest
      | some val ↦ if bit_set val fb.bit then fb.desc ∷ rest else rest
    ]

unfoldable pub decode_faults : (ℕ → Option ℕ) → List String
unfolding decode_with fault_table
decode_faults fault_data = decode_with fault_data fault_table
