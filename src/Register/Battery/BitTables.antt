-- ===== src/Register/Battery/BitTables.antt =====
-- internal/register/battery.go: the bits of the pack alarm, protection and fault registers.
use sofar_hyd_diag.Prelude.{List, [], ◌∷◌}
use sofar_hyd_diag.Register.FaultBit.{FaultBit, fault_bit}

unfoldable pub bms_alarm_bits : List FaultBit
bms_alarm_bits =
    (fault_bit 0x9076 0 "Cell OV alarm")
    ∷ (fault_bit 0x9076 1 "Cell UV alarm")
    ∷ (fault_bit 0x9076 2 "Pack OV alarm")
    ∷ (fault_bit 0x9076 3 "Pack UV alarm")
    ∷ (fault_bit 0x9076 4 "Charge over-temperature alarm")
    ∷ (fault_bit 0x9076 5 "Charge under-temperature alarm")
    ∷ (fault_bit 0x9076 6 "Discharge over-temperature alarm")
    ∷ (fault_bit 0x9076 7 "Discharge under-temperature alarm")
    ∷ (fault_bit 0x9076 8 "Charge overcurrent alarm")
    ∷ (fault_bit 0x9076 9 "Discharge overcurrent alarm")
    ∷ []

unfoldable pub bms_protection_bits : List FaultBit
bms_protection_bits =
    (fault_bit 0x9077 0 "Cell OV protection")
    ∷ (fault_bit 0x9077 1 "Cell UV protection")
    ∷ (fault_bit 0x9077 2 "Pack OV protection")
    ∷ (fault_bit 0x9077 3 "Pack UV protection")
    ∷ (fault_bit 0x9077 4 "Charge over-temperature protection")
    ∷ (fault_bit 0x9077 5 "Charge under-temperature protection")
    ∷ (fault_bit 0x9077 6 "Discharge over-temperature protection")
    ∷ (fault_bit 0x9077 7 "Discharge under-temperature protection")
    ∷ (fault_bit 0x9077 8 "Charge overcurrent protection")
    ∷ (fault_bit 0x9077 9 "Discharge overcurrent protection")
    ∷ (fault_bit 0x9077 10 "Short circuit protection")
    ∷ (fault_bit 0x9077 11 "IC fault protection")
    ∷ (fault_bit 0x9077 12 "MOS over-temperature protection")
    ∷ []

unfoldable pub bms_fault_bits : List FaultBit
bms_fault_bits =
    (fault_bit 0x9078 0 "Cell voltage diff too large")
    ∷ (fault_bit 0x9078 1 "Temperature diff too large")
    ∷ (fault_bit 0x9078 2 "Charging lockout (cell OV)")
    ∷ (fault_bit 0x9078 3 "Discharging lockout (cell UV)")
    ∷ []

unfoldable pub bms_alarm2_bits : List FaultBit
bms_alarm2_bits =
    (fault_bit 0x9124 0 "Cell OV alarm 2")
    ∷ (fault_bit 0x9124 1 "Cell UV alarm 2")
    ∷ (fault_bit 0x9124 2 "Pack OV alarm 2")
    ∷ (fault_bit 0x9124 3 "Pack UV alarm 2")
    ∷ []

unfoldable pub bms_protection2_bits : List FaultBit
bms_protection2_bits =
    (fault_bit 0x9125 0 "Cell OV protection 2")
    ∷ (fault_bit 0x9125 1 "Cell UV protection 2")
    ∷ (fault_bit 0x9125 2 "Pack OV protection 2")
    ∷ (fault_bit 0x9125 3 "Pack UV protection 2")
    ∷ []

unfoldable pub bms_fault2_bits : List FaultBit
bms_fault2_bits =
    (fault_bit 0x9126 0 "Cell voltage diff too large 2")
    ∷ (fault_bit 0x9126 1 "Temperature diff too large 2")
    ∷ (fault_bit 0x9126 2 "Charging lockout (cell OV) 2")
    ∷ (fault_bit 0x9126 3 "Discharging lockout (cell UV) 2")
    ∷ []
